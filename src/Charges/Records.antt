-- ===== src/Charges/Records.antt =====
-- The documents of src/models/chargeAttempt.model.ts and src/models/chargeDailyCounter.model.ts, and
-- what the charge operations read and write of src/models/session.model.ts. Identifiers are numbers, a
-- date is its time in milliseconds and a day its number since 1970. The labels that no operation reads
-- (app, key, service reference, type, failure message) are left out.
use fiberpassbackend.Prelude.{ℕ, Bool, Option, List, Text}
use fiberpassbackend.Money.{MoneyError}
use fiberpassbackend.Funding.Domain.{FundingError}
use fiberpassbackend.Funding.Records.{FundingDb}

pub data ChargeAttemptStatus : Type 0 where
  pending uncertain succeeded failed : ChargeAttemptStatus

pub data ChargeReserveStatus : Type 0 where
  reserved debited released : ChargeReserveStatus

pub data ChargeExecutionLayer : Type 0 where
  fiber lightning ckb_vault : ChargeExecutionLayer

pub data ChargeProviderStatus : Type 0 where
  not_started submitted uncertain succeeded failed : ChargeProviderStatus

pub data ProofType : Type 0 where
  fiber_payment payment_hash : ProofType
  other_proof : ℕ → ProofType

pub record Metadata : Type 0 where
  pub occurrence_id : Option ℕ
  pub metered_receipt_id : Option ℕ
  pub recipient_id : Option ℕ

-- `amount`, which may be a fraction of a coin, counts hundred-millionths.
pub record Attempt : Type 0 where
  pub attempt_id : ℕ
  pub session_id : ℕ
  pub owner_wallet_id : Option ℕ
  pub idempotency_key : ℕ
  pub request_fingerprint : ℕ
  pub amount : ℕ
  pub amount_minor : Option ℕ
  pub amount_atomic : Option Text
  pub asset_id : ℕ
  pub status : ChargeAttemptStatus
  pub reserve_status : ChargeReserveStatus
  pub failure_code : Option ℕ
  pub provider : Option ℕ
  pub network : Option ℕ
  pub proof_id : Option ℕ
  pub proof_type : Option ProofType
  pub execution_layer : ChargeExecutionLayer
  pub payment_request_hash : Option ℕ
  pub provider_correlation_id : Option ℕ
  pub provider_status : ChargeProviderStatus
  pub provider_submitted_at : Option ℕ
  pub provider_completed_at : Option ℕ
  pub reservation_day : Option ℕ
  pub reserved_at : Option ℕ
  pub finalized_at : Option ℕ
  pub execution_lease_id : Option ℕ
  pub execution_lease_expires_at : Option ℕ
  pub metadata : Metadata
  pub created_at : ℕ

pub record DailyCounter : Type 0 where
  pub session_id : ℕ
  pub day : ℕ
  pub spent_minor : ℕ
  pub reserved_minor : ℕ

pub data SessionStatus : Type 0 where
  active paused settled revoked expired : SessionStatus

pub data SessionLifecycleState : Type 0 where
  idle top_up_pending revoke_pending settle_pending : SessionLifecycleState

-- A missing counter or limit is 0, as `$ifNull` reads it.
pub record Session : Type 0 where
  pub public_id : ℕ
  pub owner_wallet_id : ℕ
  pub status : SessionStatus
  pub lifecycle_state : Option SessionLifecycleState
  pub single_use : Bool
  pub spent : ℕ
  pub spent_minor : ℕ
  pub reserved_minor : ℕ
  pub limit_minor : ℕ
  pub last_charge_proof_id : Option ℕ
  pub fiber_provider : Option ℕ
  pub fiber_network : Option ℕ

pub data ReceiptSourceType : Type 0 where
  scheduled_occurrence usage_event charge_attempt : ReceiptSourceType

pub data PaymentRail : Type 0 where
  lightning bitcoin_onchain fiber ckb_onchain : PaymentRail

pub record PaymentReceipt : Type 0 where
  pub receipt_id : ℕ
  pub owner_wallet_id : ℕ
  pub recipient_id : Option ℕ
  pub source_type : ReceiptSourceType
  pub source_id : ℕ
  pub settlement_id : ℕ
  pub rail : PaymentRail
  pub network : ℕ
  pub asset_id : ℕ
  pub amount_atomic : Text
  pub fee_atomic : Text
  pub fee_known : Bool
  pub payment_hash : Option ℕ
  pub proof_kind : Option ProofType
  pub proof_reference : Option ℕ
  pub settled_at : ℕ
  pub receipt_hash : ℕ

pub record ChargeDb : Type 0 where
  pub sessions : List Session
  pub counters : List DailyCounter
  pub attempts : List Attempt
  pub receipts : List PaymentReceipt
  pub funding : FundingDb

pub data ChargeError : Type 0 where
  session_reservation_rejected daily_reservation_rejected : ChargeError
  duplicate_key not_releasable counters_inconsistent : ChargeError
  attempt_not_found owner_missing not_ready receipt_reused : ChargeError
  money : MoneyError → ChargeError
  funding : FundingError → ChargeError
