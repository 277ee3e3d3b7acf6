-- ===== src/Metered/Records.antt =====
-- The documents of src/models/meteredPayment.model.ts, the statuses of src/domain/meteredPayment.ts, and
-- what the metered operations read and write of src/models/session.model.ts. A stored atomic amount,
-- which the schema holds as a canonical decimal string, is its number. Identifiers are numbers and a
-- date is its time in milliseconds. Failure messages and metadata, which no operation reads, are left
-- out.
use fiberpassbackend.Prelude.{ℕ, Bool, Option, List}
use fiberpassbackend.Money.{MoneyError}
use fiberpassbackend.Funding.Domain.{FundingError}
use fiberpassbackend.Funding.Records.{FundingDb}
use fiberpassbackend.Receipts.{FeeError}
use fiberpassbackend.Charges.Records.{
  Attempt, SessionStatus, PaymentRail, PaymentReceipt, ProofType, ChargeError,
}

pub data MeteredGrantStatus : Type 0 where
  active revoked expired depleted : MeteredGrantStatus

pub data UsageEventStatus : Type 0 where
  reserved settling settled released failed : UsageEventStatus

pub data MeteredBatchStatus : Type 0 where
  collecting queued processing uncertain : MeteredBatchStatus
  retrying succeeded failed released : MeteredBatchStatus

pub data MeteredExecutor : Type 0 where
  nwc btcpay fiber : MeteredExecutor

pub record MeteredGrantRecord : Type 0 where
  pub grant_id : ℕ
  pub owner_wallet_id : ℕ
  pub app_id : ℕ
  pub session_id : ℕ
  pub recipient_id : ℕ
  pub destination_id : ℕ
  pub rail : PaymentRail
  pub network : ℕ
  pub asset_id : ℕ
  pub executor : MeteredExecutor
  pub connection_id : Option ℕ
  pub status : MeteredGrantStatus
  pub max_per_event_atomic : ℕ
  pub total_limit_atomic : ℕ
  pub reserved_atomic : ℕ
  pub spent_atomic : ℕ
  pub rate_limit_count : ℕ
  pub rate_limit_window_seconds : ℕ
  pub immediate_threshold_atomic : ℕ
  pub max_batch_atomic : ℕ
  pub max_batch_events : ℕ
  pub settlement_delay_ms : ℕ
  pub expires_at : ℕ
  pub revoked_at : Option ℕ

pub record UsageEventRecord : Type 0 where
  pub event_id : ℕ
  pub receipt_id : ℕ
  pub external_id : ℕ
  pub request_fingerprint : ℕ
  pub owner_wallet_id : ℕ
  pub app_id : ℕ
  pub grant_id : ℕ
  pub session_id : ℕ
  pub recipient_id : ℕ
  pub destination_id : ℕ
  pub rail : PaymentRail
  pub network : ℕ
  pub asset_id : ℕ
  pub amount_atomic : ℕ
  pub event_type : ℕ
  pub policy_reference : ℕ
  pub batch_id : ℕ
  pub status : UsageEventStatus
  pub accepted_at : ℕ
  pub settling_at : Option ℕ
  pub settled_at : Option ℕ
  pub released_at : Option ℕ
  pub proof_kind : Option ProofType
  pub proof_reference : Option ℕ
  pub payment_request_hash : Option ℕ
  pub failure_code : Option ℕ

pub record MeteredBatchRecord : Type 0 where
  pub batch_id : ℕ
  pub batch_key : ℕ
  pub accepting : Bool
  pub owner_wallet_id : ℕ
  pub app_id : ℕ
  pub grant_id : ℕ
  pub session_id : ℕ
  pub recipient_id : ℕ
  pub destination_id : ℕ
  pub rail : PaymentRail
  pub network : ℕ
  pub asset_id : ℕ
  pub executor : MeteredExecutor
  pub connection_id : Option ℕ
  pub status : MeteredBatchStatus
  pub total_atomic : ℕ
  pub event_count : ℕ
  pub run_after : ℕ
  pub attempts : ℕ
  pub max_attempts : ℕ
  pub lease_id : Option ℕ
  pub lease_expires_at : Option ℕ
  pub submitted_at : Option ℕ
  pub completed_at : Option ℕ
  pub payment_request_hash : Option ℕ
  pub payment_hash : Option ℕ
  pub provider_payment_id : Option ℕ
  pub proof_kind : Option ProofType
  pub proof_reference : Option ℕ
  pub failure_code : Option ℕ

pub record MeteredRateCounterRecord : Type 0 where
  pub grant_id : ℕ
  pub window_start : ℕ
  pub window_end : ℕ
  pub count : ℕ

-- An amount of a pass stands twice in its document, as an atomic amount and in minor units; either may
-- be missing.
pub record SessionRecord : Type 0 where
  pub public_id : ℕ
  pub owner_wallet_id : ℕ
  pub status : SessionStatus
  pub app_id : Option ℕ
  pub app_grant_owner_wallet_id : Option ℕ
  pub may_create_charges : Bool
  pub auto_micro_charges : Bool
  pub expiry_at : Option ℕ
  pub asset_id : ℕ
  pub limit_atomic : Option ℕ
  pub spent_atomic : Option ℕ
  pub reserved_atomic : Option ℕ
  pub limit_minor : Option ℕ
  pub spent_minor : Option ℕ
  pub reserved_minor : Option ℕ

pub data DestinationKind : Type 0 where
  address invoice endpoint bolt12_offer lnurl lightning_address : DestinationKind

-- What the metered operations read of a payment destination (src/models/identity.model.ts).
pub record PaymentDestinationRecord : Type 0 where
  pub destination_id : ℕ
  pub recipient_id : ℕ
  pub owner_wallet_id : ℕ
  pub is_active : Bool
  pub reusable : Bool
  pub kind : DestinationKind
  pub rail : PaymentRail
  pub network : ℕ
  pub asset_id : ℕ

pub data ScopeType : Type 0 where
  wallet pass app : ScopeType

-- What they read of a connection of a wallet.
pub record NwcConnectionRecord : Type 0 where
  pub connection_id : ℕ
  pub owner_wallet_id : ℕ
  pub is_active : Bool
  pub scope_type : ScopeType
  pub scope_id : ℕ
  pub network : ℕ
  pub asset_id : ℕ
  pub is_unattended : Bool
  pub allowance_enforced : Bool
  pub allowance_proof_event_id : Option ℕ
  pub methods : List ℕ
  pub allowance_atomic : ℕ
  pub allowance_used_atomic : ℕ

pub record BtcpayConnectionRecord : Type 0 where
  pub connection_id : ℕ
  pub owner_wallet_id : ℕ
  pub is_active : Bool
  pub scope_type : ScopeType
  pub scope_id : ℕ
  pub network : ℕ
  pub store_id : ℕ
  pub permissions : List ℕ

pub record MeteredDb : Type 0 where
  pub grants : List MeteredGrantRecord
  pub events : List UsageEventRecord
  pub batches : List MeteredBatchRecord
  pub rate_counters : List MeteredRateCounterRecord
  pub sessions : List SessionRecord
  pub attempts : List Attempt
  pub destinations : List PaymentDestinationRecord
  pub nwc_connections : List NwcConnectionRecord
  pub btcpay_connections : List BtcpayConnectionRecord
  pub receipts : List PaymentReceipt
  pub funding : FundingDb

pub data MeteredError : Type 0 where
  atomic_amount_invalid legacy_ledger_limit app_grant_invalid : MeteredError
  grant_owner_required grant_limits_invalid executor_mismatch : MeteredError
  rail_unsupported connection_required grant_expiry_invalid : MeteredError
  destination_not_found destination_inactive reusable_destination_required destination_mismatch :
      MeteredError
  session_asset_mismatch connection_scope_invalid nwc_capability_invalid : MeteredError
  nwc_allowance_insufficient btcpay_capability_invalid grant_above_session : MeteredError
  grant_not_found grant_inactive grant_expired : MeteredError
  per_event_limit_exceeded grant_limit_exceeded : MeteredError
  session_not_found session_limit_exceeded rate_limit_exceeded : MeteredError
  idempotency_conflict duplicate_key owner_state_missing : MeteredError
  counters_inconsistent batch_total_mismatch reservation_missing : MeteredError
  money : MoneyError → MeteredError
  funding : FundingError → MeteredError
  fee : FeeError → MeteredError
  receipt : ChargeError → MeteredError
