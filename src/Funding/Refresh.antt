-- ===== src/Funding/Refresh.antt =====
-- What the refresh and reservation steps of src/services/fundingSource.service.ts keep and establish.
use fiberpassbackend.Prelude.{ℕ, ◌+◌, ◌-◌, ◌≤◌, ◌≡◌, arith, ok}
use fiberpassbackend.Funding.Domain.{
  FundingMode, connected_wallet, secured_autopay, secured_reclaimable_minor,
  allocation_remaining_minor,
}
use fiberpassbackend.Funding.Records.{
  Source, Allocation, reclaimable_for, refresh_source_amounts, refresh_allocation_amounts,
}
use fiberpassbackend.Funding.Allocations.{reserve_source, spend_source, unreserve_source}

-- A secured source never reserves more than is locked.
abbrev pub Covered : FundingMode → ℕ → ℕ → ℕ → Type 0
Covered connected_wallet reserved locked reclaimable = Unit
Covered secured_autopay reserved locked reclaimable =
    (reserved ≤ locked) × (reclaimable ≡ locked - reserved)

-- A refresh changes only derived fields.
pub record Refreshed (s s' : Source) : Type 0 where
  pub same_id : s'.source_id ≡ s.source_id
  pub same_mode : s'.mode ≡ s.mode
  pub same_available : s'.available_minor ≡ s.available_minor
  pub same_authorized : s'.authorized_minor ≡ s.authorized_minor
  pub same_locked : s'.locked_minor ≡ s.locked_minor
  pub same_reserved : s'.reserved_minor ≡ s.reserved_minor
  pub same_spent : s'.spent_minor ≡ s.spent_minor
  pub same_released : s'.released_minor ≡ s.released_minor
  pub covered : Covered s'.mode s'.reserved_minor s'.locked_minor s'.reclaimable_minor

reclaimable-Covered :
    (m : FundingMode) (s : Source) {r : ℕ}
    → reclaimable_for m s ≡ ok r
    → Covered m s.reserved_minor s.locked_minor r
unfolding reclaimable_for secured_reclaimable_minor
reclaimable-Covered connected_wallet s h = tt
reclaimable-Covered secured_autopay s h = ground arith

pub refresh_source_amounts-Refreshed :
    (now : ℕ) (s : Source) {s' : Source} → refresh_source_amounts now s ≡ ok s' → Refreshed s s'
unfolding refresh_source_amounts
refresh_source_amounts-Refreshed now s {s'} h =
    ground (arith, reclaimable-Covered s.mode s {r = s'.reclaimable_minor})

-- What is left of an allocation.
abbrev pub outstanding : Allocation → ℕ
outstanding a = a.authorized_minor - a.spent_minor - a.released_minor

pub record RefreshedAllocation (a a' : Allocation) : Type 0 where
  pub same_session : a'.session_id ≡ a.session_id
  pub same_source : a'.source_id ≡ a.source_id
  pub same_state : a'.state ≡ a.state
  pub same_authorized : a'.authorized_minor ≡ a.authorized_minor
  pub same_spent : a'.spent_minor ≡ a.spent_minor
  pub same_released : a'.released_minor ≡ a.released_minor
  pub remaining : a'.remaining_minor ≡ outstanding a'
  pub within : a'.spent_minor + a'.released_minor ≤ a'.authorized_minor

pub remaining-eq-ok :
    (authorized spent released : ℕ) {r : ℕ}
    → allocation_remaining_minor authorized spent released ≡ ok r
    → (r ≡ authorized - spent - released) × (spent + released ≤ authorized)
unfolding allocation_remaining_minor
remaining-eq-ok authorized spent released h = ground arith

pub refresh_allocation_amounts-Refreshed :
    (a : Allocation) {a' : Allocation}
    → refresh_allocation_amounts a ≡ ok a'
    → RefreshedAllocation a a'
unfolding refresh_allocation_amounts
refresh_allocation_amounts-Refreshed a {a'} h = ground (
  arith,
  remaining-eq-ok a.authorized_minor a.spent_minor a.released_minor {r = a'.remaining_minor},
)

-- Reserving, spending and freeing change the reserved amount of a secured source alone.
abbrev pub by_mode : FundingMode → ℕ → ℕ
by_mode connected_wallet n = 0
by_mode secured_autopay n = n

pub record Shifted (s s' : Source) (up down : ℕ) : Type 0 where
  pub same_id : s'.source_id ≡ s.source_id
  pub same_mode : s'.mode ≡ s.mode
  pub same_authorized : s'.authorized_minor ≡ s.authorized_minor
  pub same_spent : s'.spent_minor ≡ s.spent_minor
  pub same_released : s'.released_minor ≡ s.released_minor
  pub reserved : s'.reserved_minor + down ≡ s.reserved_minor + up

pub reserve_source-Shifted :
    (m : FundingMode) (amount now : ℕ) (s : Source) {s' : Source}
    → reserve_source m amount now s ≡ ok s'
    → Shifted s s' (by_mode m amount) 0
unfolding reserve_source
reserve_source-Shifted connected_wallet amount now s h = ground arith
reserve_source-Shifted secured_autopay amount now s h = ground arith

pub spend_source-Shifted :
    (m : FundingMode) (amount : ℕ) (s : Source) {s' : Source}
    → spend_source m amount s ≡ ok s'
    → Shifted s s' 0 (by_mode m amount)
unfolding spend_source
spend_source-Shifted connected_wallet amount s h = ground arith
spend_source-Shifted secured_autopay amount s h = ground arith

pub unreserve_source-Shifted :
    (m : FundingMode) (amount : ℕ) (s : Source) {s' : Source}
    → unreserve_source m amount s ≡ ok s'
    → Shifted s s' 0 (by_mode m amount)
unfolding unreserve_source
unreserve_source-Shifted connected_wallet amount s h = ground arith
unreserve_source-Shifted secured_autopay amount s h = ground arith
