-- ===== src/Funding/Tests.antt =====
-- A source that is proved, allocated to a pass, spent and released (src/services/fundingSource.service.ts).
use fiberpassbackend.Prelude.{ℕ, ◌+◌, ◌≡◌, refl, false, Option, none, some, List, [], ◌∷◌, ok}
use fiberpassbackend.Prelude.Store.{total}
use fiberpassbackend.Money.{legacy_minor_to_atomic_amount, atomic_amount_from_bigint}
use fiberpassbackend.Funding.Domain.{
  secured_autopay, funding_source_state, secured_reclaimable_minor, allocation_remaining_minor,
  checked_minor,
}
use fiberpassbackend.Funding.Records.{
  Source, FundingDb, source_hook, refresh_source_amounts, reclaimable_for, source_atomics,
  allocation_hook, refresh_allocation_amounts,
}
use fiberpassbackend.Funding.Sources.{
  find_source, new_connected_source, record_secured_funding_proof, insert_secured,
  secured_funding_source_id,
}
use fiberpassbackend.Funding.Allocations.{
  release_funding_allocation, allocate_funding_for_session, selected, reserve_source,
  spend_funding_allocation, spend_allocation, spend_source, write_back, save_both,
  top_up_funding_allocation, top_up_active, release_allocation, unreserve_source,
}
use fiberpassbackend.Funding.Refresh.{by_mode}
use fiberpassbackend.Funding.Balance.{outstanding_of, spent_of, released_of}
use fiberpassbackend.Funding.Operations.{FundingInv}
use fiberpassbackend.Funding.History.{
  Operation, perform, perform_all, reached, perform-Inv, reached-Inv, reached-counters,
}
use fiberpassbackend.Funding.Release.{release-release}

-- A hash for the examples.
abbrev first_id : List ℕ → ℕ
first_id [] = 0
first_id (n ∷ l) = 7 + n

abbrev opening : List Operation
opening =
    Operation.prove 3 4 100 11 12 1000 1000 false
    ∷ Operation.allocate 21 7 secured_autopay 3 5 60 2000
    ∷ Operation.spend 5 25 3000
    ∷ Operation.top_up 5 10 4000
    ∷ []

perform-Inv_example :
    FundingInv (perform first_id (Operation.release 5 5000) (reached first_id opening))
perform-Inv_example =
    perform-Inv first_id (Operation.release 5 5000) (reached first_id opening)
      (reached-Inv first_id opening)

abbrev or_blank : Option Source → Source
or_blank none = new_connected_source 0 0 0
or_blank (some s) = s

abbrev source_reached : Source
source_reached = or_blank (find_source 7 (reached first_id opening))

source_stands : find_source 7 (reached first_id opening) ≡ some source_reached
unfolding reached perform_all perform record_secured_funding_proof insert_secured
    secured_funding_source_id source_hook allocate_funding_for_session selected reserve_source
    refresh_source_amounts reclaimable_for source_atomics funding_source_state
    secured_reclaimable_minor allocation_remaining_minor checked_minor allocation_hook
    spend_funding_allocation spend_allocation spend_source write_back save_both
    refresh_allocation_amounts top_up_funding_allocation top_up_active release_funding_allocation
    release_allocation unreserve_source legacy_minor_to_atomic_amount atomic_amount_from_bigint
source_stands = refl

reached-counters_example :
    (source_reached.authorized_minor
      ≡ total (outstanding_of 7) (reached first_id opening).allocations)
    × (source_reached.reserved_minor
        ≡ by_mode source_reached.mode
            (total (outstanding_of 7) (reached first_id opening).allocations))
    × (source_reached.spent_minor ≡ total (spent_of 7) (reached first_id opening).allocations)
    × (source_reached.released_minor ≡ total (released_of 7) (reached first_id opening).allocations)
reached-counters_example = reached-counters first_id opening 7 source_stands

abbrev after_release : FundingDb
after_release = perform first_id (Operation.release 5 5000) (reached first_id opening)

released_once :
    release_funding_allocation 5 5000 (reached first_id opening) ≡ ok (45, after_release)
unfolding reached perform_all perform record_secured_funding_proof insert_secured
    secured_funding_source_id source_hook allocate_funding_for_session selected reserve_source
    refresh_source_amounts reclaimable_for source_atomics funding_source_state
    secured_reclaimable_minor allocation_remaining_minor checked_minor allocation_hook
    spend_funding_allocation spend_allocation spend_source write_back save_both
    refresh_allocation_amounts top_up_funding_allocation top_up_active release_funding_allocation
    release_allocation unreserve_source legacy_minor_to_atomic_amount atomic_amount_from_bigint
released_once = refl

release-release_example : release_funding_allocation 5 6000 after_release ≡ ok (0, after_release)
release-release_example = release-release 5 5000 6000 (reached first_id opening) released_once
