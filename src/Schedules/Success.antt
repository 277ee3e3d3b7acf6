-- ===== src/Schedules/Success.antt =====
-- `finalizeOccurrenceSuccess` of src/services/paymentSchedule.service.ts. Notifications and the audit log,
-- which follow the transaction, are left out.
use fiberpassbackend.Prelude.{
  ℕ, ◌+◌, ◌-◌, Bool, true, false, ◌&&◌, Option, none, some, leb, ltb, if◌then◌else◌, Outcome, ok,
  err, ◌>>=◌, ◌>>◌, require, Text, codes,
}
use fiberpassbackend.Prelude.Store.{find_where}
use fiberpassbackend.Prelude.Documents.{given, save}
use fiberpassbackend.Money.{MoneyError, max_atomic_value, print_digits}
use fiberpassbackend.Charges.Records.{PaymentReceipt, ProofType, ReceiptSourceType, ChargeError}
use fiberpassbackend.Charges.Receipts.{create_payment_receipt}
use fiberpassbackend.Metered.Records.{SessionRecord}
use fiberpassbackend.Metered.Finalization.{only_receipts}
use fiberpassbackend.Schedules.Records.{
  ScheduleStatus, OccurrenceStatus, ReservationState, PaymentScheduleRecord,
  ScheduledOccurrenceRecord, ScheduleDb, ScheduleError,
}
use fiberpassbackend.Schedules.Calendar.{Calendar, next_occurrence_after}
use fiberpassbackend.Schedules.Budget.{
  has_occurrence_id, has_schedule_id, has_session_id, set_reserved, set_spent, is_reserved,
  limit_of, spent_of, reserved_of,
}

pub record OccurrenceSuccess : Type 0 where
  pub executor_payment_id : ℕ
  pub payment_hash : Option ℕ
  pub proof_kind : Option ProofType
  pub proof_reference : Option ℕ
  pub fee_atomic : Option Text
  pub session_already_debited : Bool
  pub now : ℕ

abbrev pub is_succeeded : OccurrenceStatus → Bool
is_succeeded OccurrenceStatus.succeeded = true
is_succeeded _ = false

abbrev spent_state : (debited : Bool) → ReservationState → ReservationState
spent_state true state = state
spent_state false state = ReservationState.spent

abbrev pub succeed : OccurrenceSuccess → ScheduledOccurrenceRecord → ScheduledOccurrenceRecord
succeed input o = record o {
  reservation_state = spent_state input.session_already_debited o.reservation_state;
  status = OccurrenceStatus.succeeded;
  executor_payment_id = some input.executor_payment_id;
  payment_hash = input.payment_hash;
  proof_kind = input.proof_kind;
  proof_reference = input.proof_reference;
  completed_at = some input.now;
  execution_lease_expires_at = some input.now;
  execution_lease_id = none;
  failure_code = none;
}

abbrev reached : Option ℕ → ℕ → Bool
reached none count = false
reached (some limit) count = leb limit count

abbrev at_or_after : ℕ → Option ℕ → Bool
at_or_after t none = false
at_or_after t (some e) = leb e t

abbrev is_closed : ScheduleStatus → Bool
is_closed ScheduleStatus.active = false
is_closed ScheduleStatus.paused = false
is_closed _ = true

-- The status and the time of the next occurrence, by the time that the calendar gives.
abbrev pub advance :
    (depleted limit_reached : Bool)
    → (expiry : Option ℕ) → Option ℕ
    → PaymentScheduleRecord
    → PaymentScheduleRecord
advance depleted limit_reached expiry none s = record s {
  status = if depleted then ScheduleStatus.depleted else ScheduleStatus.completed;
}
advance depleted limit_reached expiry (some next) s =
    if depleted
    then record s { status = ScheduleStatus.depleted }
    else if limit_reached
    then record s { status = ScheduleStatus.completed }
    else if at_or_after next expiry
    then record s { status = ScheduleStatus.expired }
    else record s { next_occurrence_at = next }

abbrev complete : (now : ℕ) → PaymentScheduleRecord → PaymentScheduleRecord
complete now s = if is_closed s.status then record s { completed_at = some now } else s

abbrev pub lift_receipt : {A : Type 0} → Outcome ChargeError A → Outcome ScheduleError A
lift_receipt (ok a) = ok a
lift_receipt (err e) = err (ScheduleError.receipt e)

abbrev within_256_bits : ℕ → Outcome ScheduleError (Unit {0})
within_256_bits n =
    require (leb n max_atomic_value) (ScheduleError.money MoneyError.amount_too_large)

unfoldable pub occurrence_receipt : ScheduledOccurrenceRecord → OccurrenceSuccess → PaymentReceipt
occurrence_receipt o input = record {
  receipt_id = 0;
  owner_wallet_id = o.owner_wallet_id;
  recipient_id = some o.recipient_id;
  source_type = ReceiptSourceType.scheduled_occurrence;
  source_id = o.occurrence_id;
  settlement_id = input.executor_payment_id;
  rail = o.rail;
  network = o.network;
  asset_id = o.asset_id;
  amount_atomic = print_digits o.amount_atomic;
  fee_atomic = codes "0";
  fee_known = false;
  payment_hash = input.payment_hash;
  proof_kind = input.proof_kind;
  proof_reference = input.proof_reference;
  settled_at = input.now;
  receipt_hash = 0;
}

module _ (limit_display spent_display : SessionRecord → ℕ) (calendar : Calendar)
    (receipt_id_for : ReceiptSourceType → ℕ → ℕ) (hash_receipt : PaymentReceipt → ℕ) where
  -- The session that pays, unless it was debited by a charge already.
  unfoldable pub debit_session :
      (debited : Bool)
      → ScheduledOccurrenceRecord
      → SessionRecord
      → Outcome ScheduleError SessionRecord
  debit_session true o s = ok s
  debit_session false o s = do
    require
        (is_reserved o.reservation_state
          && leb o.amount_atomic (reserved_of limit_display spent_display s))
        ScheduleError.reservation_missing
    within_256_bits (spent_of limit_display spent_display s + o.amount_atomic)
    ok (
        set_spent (spent_of limit_display spent_display s + o.amount_atomic)
          (set_reserved (reserved_of limit_display spent_display s - o.amount_atomic) s))

  unfoldable pub advance_schedule :
      OccurrenceSuccess
      → ScheduledOccurrenceRecord
      → SessionRecord
      → PaymentScheduleRecord
      → Outcome ScheduleError PaymentScheduleRecord
  unfolding next_occurrence_after
  advance_schedule input o s schedule = do
    let count = schedule.occurrence_count + 1
    let spent = schedule.spent_atomic + o.amount_atomic
    within_256_bits spent
    next ← next_occurrence_after calendar o.due_at schedule.calendar
    let depleted = ltb (limit_of limit_display spent_display s) (
        spent_of limit_display spent_display s
        + reserved_of limit_display spent_display s
        + o.amount_atomic)
    let counted : PaymentScheduleRecord = record schedule {
      occurrence_count = count;
      spent_atomic = spent;
      last_occurrence_at = some o.due_at;
      failure_code = none;
    }
    ok (
        complete input.now
          (advance depleted (reached schedule.occurrence_limit count) s.expiry_at next counted))

  unfoldable pub succeed_occurrence :
      OccurrenceSuccess → ScheduledOccurrenceRecord → ScheduleDb → Outcome ScheduleError ScheduleDb
  unfolding debit_session advance_schedule create_payment_receipt occurrence_receipt
  succeed_occurrence input o db = do
    schedule ←
        given (find_where (has_schedule_id o.schedule_id) db.schedules) ScheduleError.state_missing
    s ← given (find_where (has_session_id o.session_id) db.sessions) ScheduleError.state_missing
    s' ← debit_session input.session_already_debited o s
    schedule' ← advance_schedule input o s' schedule
    (id, after) ← lift_receipt (
        create_payment_receipt receipt_id_for hash_receipt (occurrence_receipt o input)
          input.fee_atomic (only_receipts db.receipts))
    ok (record db {
      sessions = save (has_session_id o.session_id) s' db.sessions;
      occurrences = save (has_occurrence_id o.occurrence_id) (succeed input o) db.occurrences;
      schedules = save (has_schedule_id o.schedule_id) schedule' db.schedules;
      receipts = after.receipts;
    })

  unfoldable pub succeed_found :
      OccurrenceSuccess
      → Option ScheduledOccurrenceRecord
      → ScheduleDb
      → Outcome ScheduleError ScheduleDb
  unfolding succeed_occurrence
  succeed_found input none db = ok db
  succeed_found input (some o) db =
      if is_succeeded o.status then ok db else succeed_occurrence input o db

  unfoldable pub finalize_occurrence_success :
      (occurrence_id : ℕ) → OccurrenceSuccess → ScheduleDb → Outcome ScheduleError ScheduleDb
  unfolding succeed_found
  finalize_occurrence_success occurrence_id input db =
      succeed_found input (find_where (has_occurrence_id occurrence_id) db.occurrences) db
