-- ===== src/Funding/Domain.antt =====
-- The funding rules of src/domain/funding.ts. Amounts are non-negative integers, as the schema
-- requires; a date is its time in milliseconds.
use fiberpassbackend.Prelude.{
  ℕ, ◌+◌, ◌-◌, Bool, true, false, ◌&&◌, Option, none, some, ltb, leb, ◌==◌, if◌then◌else◌, Outcome,
  ok, err, ◌>>=◌, ◌>>◌, reject_if,
}
use fiberpassbackend.Money.{max_safe_integer, MoneyError}

pub data FundingMode : Type 0 where
  connected_wallet secured_autopay : FundingMode

pub data FundingSourceKind : Type 0 where
  external_wallet network_contract legacy_operator_vault : FundingSourceKind

pub data FundingGuarantee : Type 0 where
  authorization_only balance_observed network_locked : FundingGuarantee
  network_locked_operator_controlled : FundingGuarantee

pub data FundingRiskLabel : Type 0 where
  no_risk unaudited_operator_contract legacy_operator_vault : FundingRiskLabel

pub data FundingSourceState : Type 0 where
  unverified available fully_allocated insufficient stale failed revoked : FundingSourceState

pub data FundingAllocationState : Type 0 where
  active released exhausted : FundingAllocationState

-- The errors of the funding functions: thrown by the domain, by a conversion of money, by a schema
-- hook or by an operation.
pub data FundingError : Type 0 where
  unsafe_minor reservation_exceeds_locked allocation_exceeds_authorization : FundingError
  money : MoneyError → FundingError
  hook_proof_required hook_authorization duplicate_session : FundingError
  source_not_found mode_mismatch proof_required proof_stale insufficient_funds : FundingError
  source_missing allocation_inactive allocation_short counters_short : FundingError
  authorization_short source_disappeared : FundingError

unfoldable pub checked_minor : ℕ → Outcome FundingError ℕ
checked_minor value = if leb value max_safe_integer then ok value else err FundingError.unsafe_minor

unfoldable pub secured_reclaimable_minor : ℕ → ℕ → Outcome FundingError ℕ
unfolding checked_minor
secured_reclaimable_minor locked_minor reserved_minor = do
  locked ← checked_minor locked_minor
  reserved ← checked_minor reserved_minor
  reject_if (ltb locked reserved) FundingError.reservation_exceeds_locked
  ok (locked - reserved)

unfoldable pub allocation_remaining_minor : ℕ → ℕ → ℕ → Outcome FundingError ℕ
unfolding checked_minor
allocation_remaining_minor authorized_minor spent_minor released_minor = do
  authorized ← checked_minor authorized_minor
  spent ← checked_minor spent_minor
  returned ← checked_minor released_minor
  reject_if (ltb authorized (spent + returned)) FundingError.allocation_exceeds_authorization
  ok (authorized - spent - returned)

-- `staleAt && staleAt.getTime() <= now`
abbrev pub is_stale : Option ℕ → ℕ → Bool
is_stale none now = false
is_stale (some at) now = leb at now

abbrev pub is_some {ℓ} : {A : Type ℓ} → Option A → Bool
is_some none = false
is_some (some _) = true

secured_state : Bool → ℕ → ℕ → Outcome FundingError FundingSourceState
unfolding secured_reclaimable_minor
secured_state false locked reserved = ok unverified
secured_state true locked reserved = do
  reclaimable ← secured_reclaimable_minor locked reserved
  ok (if reclaimable == 0 then fully_allocated else available)

connected_state : Bool → ℕ → ℕ → Outcome FundingError FundingSourceState
unfolding checked_minor
connected_state false available_minor authorized_minor = ok unverified
connected_state true available_minor authorized_minor = do
  amount ← checked_minor available_minor
  authorized ← checked_minor authorized_minor
  ok (if ltb 0 amount && leb authorized amount then available else insufficient)

mode_state : FundingMode → ℕ → ℕ → ℕ → ℕ → Bool → Bool → Outcome FundingError FundingSourceState
mode_state secured_autopay amount authorized locked reserved proof observed =
    secured_state proof locked reserved
mode_state connected_wallet amount authorized locked reserved proof observed =
    connected_state observed amount authorized

-- The mode, the amounts available, authorized, locked and reserved, whether there is a network
-- proof, when the balance was observed and until when it is fresh, and the time now.
unfoldable pub funding_source_state :
    FundingMode
    → ℕ
    → ℕ
    → ℕ
    → ℕ
    → Bool
    → Option ℕ
    → Option ℕ
    → ℕ
    → Outcome FundingError FundingSourceState
unfolding mode_state secured_state connected_state
funding_source_state mode amount authorized locked reserved proof observed_at stale_at now =
    if is_stale stale_at now
    then ok stale
    else mode_state mode amount authorized locked reserved proof (is_some observed_at)
