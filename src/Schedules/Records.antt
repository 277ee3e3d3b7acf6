-- ===== src/Schedules/Records.antt =====
-- The documents of src/models/schedule.model.ts and the statuses of src/domain/schedule.ts. A stored
-- atomic amount is its number; failure messages, fingerprints and the fields of requests that these
-- operations do not read are left out.
use fiberpassbackend.Prelude.{ℕ, Option, List}
use fiberpassbackend.Money.{MoneyError}
use fiberpassbackend.Charges.Records.{PaymentRail, PaymentReceipt, ProofType, ChargeError}
use fiberpassbackend.Metered.Records.{SessionRecord}

pub data ScheduleCadence : Type 0 where
  once daily weekly monthly custom : ScheduleCadence

pub data ScheduleStatus : Type 0 where
  active paused completed revoked depleted expired : ScheduleStatus

pub data OccurrenceStatus : Type 0 where
  resolving executing uncertain retrying succeeded failed blocked : OccurrenceStatus

pub data ReservationState : Type 0 where
  unreserved reserved released spent : ReservationState

-- The time zone is a number.
pub record CalendarSchedule : Type 0 where
  pub cadence : ScheduleCadence
  pub time_zone : ℕ
  pub anchor_day : Option ℕ
  pub custom_interval_seconds : Option ℕ

pub record PaymentScheduleRecord : Type 0 where
  pub schedule_id : ℕ
  pub session_id : ℕ
  pub owner_wallet_id : ℕ
  pub recipient_id : ℕ
  pub rail : PaymentRail
  pub network : ℕ
  pub asset_id : ℕ
  pub amount_atomic : ℕ
  pub spent_atomic : ℕ
  pub calendar : CalendarSchedule
  pub status : ScheduleStatus
  pub next_occurrence_at : ℕ
  pub last_occurrence_at : Option ℕ
  pub occurrence_limit : Option ℕ
  pub occurrence_count : ℕ
  pub completed_at : Option ℕ
  pub paused_at : Option ℕ
  pub failure_code : Option ℕ

pub record ScheduledOccurrenceRecord : Type 0 where
  pub occurrence_id : ℕ
  pub schedule_id : ℕ
  pub session_id : ℕ
  pub owner_wallet_id : ℕ
  pub recipient_id : ℕ
  pub due_at : ℕ
  pub rail : PaymentRail
  pub network : ℕ
  pub asset_id : ℕ
  pub amount_atomic : ℕ
  pub status : OccurrenceStatus
  pub reservation_state : ReservationState
  pub reserved_at : Option ℕ
  pub payment_request_hash : Option ℕ
  pub payment_hash : Option ℕ
  pub request_expires_at : Option ℕ
  pub executor_payment_id : Option ℕ
  pub proof_kind : Option ProofType
  pub proof_reference : Option ℕ
  pub execution_lease_id : Option ℕ
  pub execution_lease_expires_at : Option ℕ
  pub retry_count : ℕ
  pub next_attempt_at : Option ℕ
  pub resolved_at : Option ℕ
  pub submitted_at : Option ℕ
  pub reconciled_at : Option ℕ
  pub completed_at : Option ℕ
  pub failure_code : Option ℕ

pub record ScheduleDb : Type 0 where
  pub schedules : List PaymentScheduleRecord
  pub occurrences : List ScheduledOccurrenceRecord
  pub sessions : List SessionRecord
  pub receipts : List PaymentReceipt

pub data ScheduleError : Type 0 where
  bad_interval bad_anchor_day state_missing reservation_missing request_reused : ScheduleError
  money : MoneyError → ScheduleError
  receipt : ChargeError → ScheduleError
