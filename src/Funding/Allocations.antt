-- ===== src/Funding/Allocations.antt =====
-- The operations of src/services/fundingSource.service.ts on allocations: a pass is given a part of a
-- source, which is topped up, spent and released.
use fiberpassbackend.Prelude.{
  ℕ, ◌+◌, ◌-◌, Bool, true, false, ◌&&◌, ◌||◌, Option, none, some, ltb, ◌==◌, if◌then◌else◌, Outcome,
  ok, err, ◌>>=◌, ◌>>◌, reject_if, require,
}
use fiberpassbackend.Prelude.Store.{find, put}
use fiberpassbackend.Funding.Domain.{
  FundingMode, connected_wallet, secured_autopay, FundingAllocationState, active, released,
  exhausted, FundingError, is_stale, is_some, secured_reclaimable_minor, allocation_remaining_minor,
}
use fiberpassbackend.Funding.Records.{
  Source, Allocation, AllocationAtomics, FundingDb, Funding, minor_atomic, refresh_source_amounts,
  refresh_allocation_amounts, source_hook, allocation_hook,
}
use fiberpassbackend.Funding.Sources.{find_source, save_source}

abbrev pub find_allocation : ℕ → FundingDb → Option Allocation
find_allocation session db = find Allocation.session_id session db.allocations

abbrev pub save_allocation : Allocation → FundingDb → FundingDb
save_allocation a db = record db { allocations = put Allocation.session_id a db.allocations }

abbrev pub is_active : FundingAllocationState → Bool
is_active active = true
is_active _ = false

-- `if (!value) throw error`
abbrev pub found : {A : Type 0} → Option A → FundingError → Outcome FundingError A
found none e = err e
found (some a) e = ok a

-- Saving runs the hook of the document.
unfoldable pub save_both : Source → Allocation → FundingDb → Outcome FundingError FundingDb
save_both source allocation db = do
  source_hook source
  allocation_hook allocation
  ok (save_allocation allocation (save_source source db))

abbrev pub exhaust : ℕ → Allocation → Allocation
exhaust now a =
    if a.remaining_minor == 0 then record a { state = exhausted; exhausted_at = some now } else a

-- The end of each operation: both documents are refreshed and saved. `finish` is what happens to the
-- allocation between the two refreshes.
unfoldable pub write_back :
    ℕ → (Allocation → Allocation) → Allocation → Source → FundingDb → Outcome FundingError FundingDb
write_back now finish allocation source db = do
  a ← refresh_allocation_amounts allocation
  s ← refresh_source_amounts now source
  save_both s (finish a) db

-- A secured source needs a fresh proof and enough unallocated funds, which are then reserved.
unfoldable pub reserve_source : FundingMode → ℕ → ℕ → Source → Outcome FundingError Source
reserve_source connected_wallet amount now s = ok s
reserve_source secured_autopay amount now s = do
  require (is_some s.network_proof_id) FundingError.proof_required
  reject_if (is_stale s.stale_at now) FundingError.proof_stale
  reclaimable ← secured_reclaimable_minor s.locked_minor s.reserved_minor
  reject_if (ltb reclaimable amount) FundingError.insufficient_funds
  ok (record s { reserved_minor = s.reserved_minor + amount })

abbrev pub same_mode : FundingMode → FundingMode → Bool
same_mode connected_wallet connected_wallet = true
same_mode connected_wallet secured_autopay = false
same_mode secured_autopay connected_wallet = false
same_mode secured_autopay secured_autopay = true

-- The query for an id, which is unique, with an owner and a mode.
unfoldable pub selected : ℕ → ℕ → FundingMode → FundingDb → Option Source
selected id owner mode db = elim (find_source id db) [
  | none ↦ none
  | some s ↦ if s.owner_wallet_id == owner && same_mode s.mode mode then some s else none
]

abbrev proof_for : FundingMode → Option ℕ → Option ℕ
proof_for connected_wallet proof = none
proof_for secured_autopay proof = proof

abbrev pub new_allocation : ℕ → Source → ℕ → ℕ → ℕ → AllocationAtomics → ℕ → Allocation
new_allocation id source session owner amount atomics now = record {
  allocation_id = id;
  source_id = source.source_id;
  session_id = session;
  owner_wallet_id = owner;
  mode = source.mode;
  guarantee = source.guarantee;
  risk_label = source.risk_label;
  state = active;
  authorized_minor = amount;
  spent_minor = 0;
  released_minor = 0;
  remaining_minor = amount;
  atomics = atomics;
  network_proof_id_at_allocation = proof_for source.mode source.network_proof_id;
  activated_at = now;
  released_at = none;
  exhausted_at = none;
}

-- `randomUUID` is the argument `id`. The session's id is unique among the allocations.
unfoldable pub allocate_funding_for_session :
    (id selected_source : ℕ) → FundingMode → (owner session amount now : ℕ) → Funding (Unit {0})
allocate_funding_for_session id selected_source mode owner session amount now db = do
  source ← found (selected selected_source owner mode db) FundingError.source_disappeared
  reserved ← reserve_source source.mode amount now source
  refreshed ←
      refresh_source_amounts now
        (record reserved { authorized_minor = reserved.authorized_minor + amount })
  source_hook refreshed
  amount_atomic ← minor_atomic amount
  zero_atomic ← minor_atomic 0
  let atomics : AllocationAtomics = record {
    authorized = amount_atomic;
    spent = zero_atomic;
    released = zero_atomic;
    remaining = amount_atomic;
  }
  let allocation = new_allocation id refreshed session owner amount atomics now
  allocation_hook allocation
  reject_if (is_some (find_allocation session db)) FundingError.duplicate_session
  ok (tt, save_allocation allocation (save_source refreshed db))

unfoldable pub top_up_active : Allocation → (amount now : ℕ) → Funding (Unit {0})
top_up_active allocation amount now db = do
  source ← found (find_source allocation.source_id db) FundingError.source_missing
  reserved ← reserve_source source.mode amount now source
  db' ←
      write_back now (λ a. a)
        (record allocation { authorized_minor = allocation.authorized_minor + amount })
        (record reserved { authorized_minor = reserved.authorized_minor + amount }) db
  ok (tt, db')

-- The query asks for an active allocation of the session, whose allocation is unique.
unfoldable pub top_up_funding_allocation : (session amount now : ℕ) → Funding (Unit {0})
top_up_funding_allocation session amount now db = elim (find_allocation session db) [
  | none ↦ ok (tt, db)
  | some allocation ↦
      if is_active allocation.state then top_up_active allocation amount now db else ok (tt, db)
]

-- The reserved and locked amounts of a secured source fall by the spend.
unfoldable pub spend_source : FundingMode → ℕ → Source → Outcome FundingError Source
spend_source connected_wallet amount s = ok s
spend_source secured_autopay amount s = do
  reject_if (ltb s.reserved_minor amount || ltb s.locked_minor amount) FundingError.counters_short
  let locked_minor = s.locked_minor - amount
  ok (record s {
    reserved_minor = s.reserved_minor - amount;
    locked_minor = locked_minor;
    available_minor = locked_minor;
  })

unfoldable pub spend_allocation : Allocation → (amount now : ℕ) → Funding Bool
spend_allocation allocation amount now db = do
  require (is_active allocation.state) FundingError.allocation_inactive
  remaining ←
      allocation_remaining_minor allocation.authorized_minor allocation.spent_minor
        allocation.released_minor
  reject_if (ltb remaining amount) FundingError.allocation_short
  source ← found (find_source allocation.source_id db) FundingError.source_missing
  debited ← spend_source source.mode amount source
  reject_if (ltb debited.authorized_minor amount) FundingError.authorization_short
  db' ←
      write_back now (exhaust now)
        (record allocation { spent_minor = allocation.spent_minor + amount })
        (record debited {
          authorized_minor = debited.authorized_minor - amount;
          spent_minor = debited.spent_minor + amount;
        })
        db
  ok (true, db')

unfoldable pub spend_funding_allocation : (session amount now : ℕ) → Funding Bool
spend_funding_allocation session amount now db = elim (find_allocation session db) [
  | none ↦ ok (false, db)
  | some allocation ↦ spend_allocation allocation amount now db
]

unfoldable pub unreserve_source : FundingMode → ℕ → Source → Outcome FundingError Source
unreserve_source connected_wallet remaining s = ok s
unreserve_source secured_autopay remaining s = do
  reject_if (ltb s.reserved_minor remaining) FundingError.counters_short
  ok (record s { reserved_minor = s.reserved_minor - remaining })

unfoldable pub release_allocation : Allocation → (now : ℕ) → Funding ℕ
release_allocation allocation now db = do
  remaining ←
      allocation_remaining_minor allocation.authorized_minor allocation.spent_minor
        allocation.released_minor
  source ← found (find_source allocation.source_id db) FundingError.source_missing
  freed ← unreserve_source source.mode remaining source
  reject_if (ltb freed.authorized_minor remaining) FundingError.authorization_short
  db' ←
      write_back now (λ a. a)
        (record allocation {
          released_minor = allocation.released_minor + remaining;
          state = released;
          released_at = some now;
        })
        (record freed {
          authorized_minor = freed.authorized_minor - remaining;
          released_minor = freed.released_minor + remaining;
        })
        db
  ok (remaining, db')

unfoldable pub release_funding_allocation : (session now : ℕ) → Funding ℕ
release_funding_allocation session now db = elim (find_allocation session db) [
  | none ↦ ok (0, db)
  | some allocation ↦
      if is_active allocation.state then release_allocation allocation now db else ok (0, db)
]
