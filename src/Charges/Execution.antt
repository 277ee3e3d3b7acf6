-- ===== src/Charges/Execution.antt =====
-- The steps of an attempt's execution (src/services/chargeReservation.service.ts): each is one update
-- whose filter says from which states it is taken. The result is the attempt after it, or none.
use fiberpassbackend.Prelude.{ℕ, ◌+◌, Bool, true, false, ◌&&◌, Option, none, some, List, ◌==◌}
use fiberpassbackend.Prelude.Store.{update_where}
use fiberpassbackend.Funding.Domain.{is_stale}
use fiberpassbackend.Charges.Records.{
  Attempt, ChargeAttemptStatus, ChargeReserveStatus, ChargeProviderStatus, ProofType,
  ChargeExecutionLayer, ChargeDb,
}
use fiberpassbackend.Charges.Reservation.{execution_lease_ms}

abbrev is_pending : ChargeAttemptStatus → Bool
is_pending ChargeAttemptStatus.pending = true
is_pending _ = false

-- `status: { $in: ['pending', 'uncertain'] }`
abbrev pub is_open : ChargeAttemptStatus → Bool
is_open ChargeAttemptStatus.pending = true
is_open ChargeAttemptStatus.uncertain = true
is_open _ = false

abbrev pub is_reserved : ChargeReserveStatus → Bool
is_reserved ChargeReserveStatus.reserved = true
is_reserved _ = false

abbrev is_not_started : ChargeProviderStatus → Bool
is_not_started ChargeProviderStatus.not_started = true
is_not_started _ = false

abbrev has_lease : ℕ → Option ℕ → Bool
has_lease lease none = false
has_lease lease (some l) = l == lease

abbrev pub apply_update : Option (Attempt × List Attempt) → ChargeDb → Option Attempt × ChargeDb
apply_update none db = (none, db)
apply_update (some (a, attempts)) db = (some a, record db { attempts = attempts })

unfoldable pub find_one_and_update :
    (Attempt → Bool) → (Attempt → Attempt) → ChargeDb → Option Attempt × ChargeDb
find_one_and_update filter change db = apply_update (update_where filter change db.attempts) db

abbrev awaits_provider : Attempt → Bool
awaits_provider a =
    is_pending a.status && is_reserved a.reserve_status && is_not_started a.provider_status

unfoldable pub claim_charge_execution :
    (attempt_id lease now : ℕ) → ChargeDb → Option Attempt × ChargeDb
unfolding find_one_and_update
claim_charge_execution attempt_id lease now db =
    find_one_and_update
      (λ a.
        a.attempt_id == attempt_id
        && awaits_provider a
        && is_stale a.execution_lease_expires_at now)
      (λ a. record a {
        execution_lease_id = some lease;
        execution_lease_expires_at = some (now + execution_lease_ms);
      })
      db

unfoldable pub mark_charge_provider_submitted :
    (attempt_id lease now : ℕ) → ChargeDb → Option Attempt × ChargeDb
unfolding find_one_and_update
mark_charge_provider_submitted attempt_id lease now db =
    find_one_and_update
      (λ a. a.attempt_id == attempt_id && has_lease lease a.execution_lease_id && awaits_provider a)
      (λ a. record a {
        provider_status = ChargeProviderStatus.submitted;
        provider_submitted_at = some now;
      })
      db

-- `...(value ? { field: value } : {})`
abbrev keep_or {ℓ} : {A : Type ℓ} → Option A → Option A → Option A
keep_or none old = old
keep_or (some a) old = some a

unfoldable pub set_charge_provider_correlation :
    (attempt_id lease correlation : ℕ) → Option ℕ → ChargeDb → Option Attempt × ChargeDb
unfolding find_one_and_update
set_charge_provider_correlation attempt_id lease correlation request_hash db =
    find_one_and_update
      (λ a. a.attempt_id == attempt_id && has_lease lease a.execution_lease_id && awaits_provider a)
      (λ a. record a {
        provider_correlation_id = some correlation;
        payment_request_hash = keep_or request_hash a.payment_request_hash;
      })
      db

pub record ProviderChargeResult : Type 0 where
  pub provider : ℕ
  pub network : ℕ
  pub proof_id : ℕ
  pub proof_type : ProofType
  pub execution_layer : ChargeExecutionLayer
  pub payment_request_hash : Option ℕ

abbrev with_result : ProviderChargeResult → ℕ → Attempt → Attempt
with_result r now a = record a {
  provider_status = ChargeProviderStatus.succeeded;
  provider_completed_at = some now;
  provider = some r.provider;
  network = some r.network;
  proof_id = some r.proof_id;
  proof_type = some r.proof_type;
  execution_layer = r.execution_layer;
  payment_request_hash = keep_or r.payment_request_hash a.payment_request_hash;
  failure_code = none;
}

unfoldable pub mark_charge_provider_succeeded :
    (attempt_id : ℕ) → ProviderChargeResult → (now : ℕ) → ChargeDb → Option Attempt × ChargeDb
unfolding find_one_and_update
mark_charge_provider_succeeded attempt_id result now db =
    find_one_and_update
      (λ a. a.attempt_id == attempt_id && is_open a.status && is_reserved a.reserve_status)
      (with_result result now) db

unfoldable pub mark_charge_outcome_uncertain :
    (attempt_id failure_code : ℕ) → ChargeDb → Option Attempt × ChargeDb
unfolding find_one_and_update
mark_charge_outcome_uncertain attempt_id failure_code db =
    find_one_and_update
      (λ a. a.attempt_id == attempt_id && is_open a.status && is_reserved a.reserve_status)
      (λ a. record a {
        status = ChargeAttemptStatus.uncertain;
        provider_status = ChargeProviderStatus.uncertain;
        failure_code = some failure_code;
      })
      db
