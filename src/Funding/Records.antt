-- ===== src/Funding/Records.antt =====
-- The documents of src/models/fundingSource.model.ts with their save hooks, and the two refresh
-- functions of src/services/fundingSource.service.ts. Identifiers, which the code only compares, are
-- numbers; fields that no operation reads (rail, network, asset, failure message) are left out.
use fiberpassbackend.Prelude.{
  ℕ, ◌+◌, ◌-◌, Bool, true, false, not, ◌&&◌, Option, List, ltb, Outcome, ok, err, ◌>>=◌, ◌>>◌,
  reject_if, Text,
}
use fiberpassbackend.Money.{MoneyError, legacy_minor_to_atomic_amount}
use fiberpassbackend.Funding.Domain.{
  FundingMode, connected_wallet, secured_autopay, FundingSourceKind, FundingGuarantee,
  FundingRiskLabel, FundingSourceState, FundingAllocationState, FundingError, is_some,
  secured_reclaimable_minor, allocation_remaining_minor, funding_source_state,
}

-- The decimal strings stored beside the amounts of a source.
pub record SourceAtomics : Type 0 where
  pub available : Text
  pub authorized : Text
  pub locked : Text
  pub reserved : Text
  pub spent : Text
  pub released : Text
  pub reclaimable : Text

pub record Source : Type 0 where
  pub source_id : ℕ
  pub owner_wallet_id : ℕ
  pub mode : FundingMode
  pub source_kind : FundingSourceKind
  pub source_reference : ℕ
  pub guarantee : FundingGuarantee
  pub risk_label : FundingRiskLabel
  pub state : FundingSourceState
  pub available_minor : ℕ
  pub authorized_minor : ℕ
  pub locked_minor : ℕ
  pub reserved_minor : ℕ
  pub spent_minor : ℕ
  pub released_minor : ℕ
  pub reclaimable_minor : ℕ
  pub atomics : SourceAtomics
  pub network_proof_id : Option ℕ
  pub network_proof_type : Option ℕ
  pub proof_observed_at : Option ℕ
  pub balance_observed_at : Option ℕ
  pub stale_at : Option ℕ
  pub failure_code : Option ℕ

pub record AllocationAtomics : Type 0 where
  pub authorized : Text
  pub spent : Text
  pub released : Text
  pub remaining : Text

pub record Allocation : Type 0 where
  pub allocation_id : ℕ
  pub source_id : ℕ
  pub session_id : ℕ
  pub owner_wallet_id : ℕ
  pub mode : FundingMode
  pub guarantee : FundingGuarantee
  pub risk_label : FundingRiskLabel
  pub state : FundingAllocationState
  pub authorized_minor : ℕ
  pub spent_minor : ℕ
  pub released_minor : ℕ
  pub remaining_minor : ℕ
  pub atomics : AllocationAtomics
  pub network_proof_id_at_allocation : Option ℕ
  pub activated_at : ℕ
  pub released_at : Option ℕ
  pub exhausted_at : Option ℕ

-- The two collections; a source is found by its id and an allocation by its session.
pub record FundingDb : Type 0 where
  pub sources : List Source
  pub allocations : List Allocation

-- An operation in a transaction: an error leaves the collections as they were.
abbrev pub Funding : Type 0 → Type 0
Funding A = FundingDb → Outcome FundingError (A × FundingDb)

abbrev pub convert : {A : Type 0} → Outcome MoneyError A → Outcome FundingError A
convert (ok a) = ok a
convert (err e) = err (FundingError.money e)

abbrev pub minor_atomic : ℕ → Outcome FundingError Text
minor_atomic n = convert (legacy_minor_to_atomic_amount n)

abbrev pub is_secured : FundingMode → Bool
is_secured connected_wallet = false
is_secured secured_autopay = true

unfoldable pub source_atomics : Source → Outcome FundingError SourceAtomics
source_atomics s = do
  available ← minor_atomic s.available_minor
  authorized ← minor_atomic s.authorized_minor
  locked ← minor_atomic s.locked_minor
  reserved ← minor_atomic s.reserved_minor
  spent ← minor_atomic s.spent_minor
  released ← minor_atomic s.released_minor
  reclaimable ← minor_atomic s.reclaimable_minor
  ok (record {
    available = available;
    authorized = authorized;
    locked = locked;
    reserved = reserved;
    spent = spent;
    released = released;
    reclaimable = reclaimable;
  })

-- `Math.max(0, available - authorized)` is the truncated difference.
unfoldable pub reclaimable_for : FundingMode → Source → Outcome FundingError ℕ
reclaimable_for secured_autopay s = secured_reclaimable_minor s.locked_minor s.reserved_minor
reclaimable_for connected_wallet s = ok (s.available_minor - s.authorized_minor)

unfoldable pub refresh_source_amounts : ℕ → Source → Outcome FundingError Source
refresh_source_amounts now source = do
  reclaimable ← reclaimable_for source.mode source
  let s = record source { reclaimable_minor = reclaimable }
  atomics ← source_atomics s
  state ←
      funding_source_state s.mode s.available_minor s.authorized_minor s.locked_minor
        s.reserved_minor (is_some s.network_proof_id) s.balance_observed_at s.stale_at now
  ok (record s { atomics = atomics; state = state })

unfoldable pub refresh_allocation_amounts : Allocation → Outcome FundingError Allocation
refresh_allocation_amounts a = do
  remaining ← allocation_remaining_minor a.authorized_minor a.spent_minor a.released_minor
  authorized_atomic ← minor_atomic a.authorized_minor
  spent_atomic ← minor_atomic a.spent_minor
  released_atomic ← minor_atomic a.released_minor
  remaining_atomic ← minor_atomic remaining
  ok (record a {
    remaining_minor = remaining;
    atomics = record {
      authorized = authorized_atomic;
      spent = spent_atomic;
      released = released_atomic;
      remaining = remaining_atomic;
    };
  })

-- `validateSecuredProof`
unfoldable pub source_hook : Source → Outcome FundingError (Unit {0})
source_hook s =
    reject_if (is_secured s.mode && ltb 0 s.locked_minor && not (is_some s.network_proof_id))
      FundingError.hook_proof_required

abbrev is_legacy : FundingRiskLabel → Bool
is_legacy FundingRiskLabel.legacy_operator_vault = true
is_legacy _ = false

-- `validateAllocation`
unfoldable pub allocation_hook : Allocation → Outcome FundingError (Unit {0})
allocation_hook a = do
  reject_if (ltb a.authorized_minor (a.spent_minor + a.released_minor))
      FundingError.hook_authorization
  reject_if
      (is_secured a.mode
        && not (is_some a.network_proof_id_at_allocation)
        && not (is_legacy a.risk_label))
      FundingError.hook_proof_required
