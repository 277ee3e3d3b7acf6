-- ===== src/Schedules/Tests.antt =====
-- An occurrence that reserves in its pass and is settled (src/domain/schedule.ts and
-- src/services/paymentSchedule.service.ts).
use fiberpassbackend.Prelude.{
  ℕ, ◌+◌, ◌*◌, ◌≤◌, ◌≡◌, refl, true, false, none, some, List, [], ◌∷◌, arith, ok, if◌then◌else◌,
  Bool-cases, inl, inr, ◌==◌, ◌/◌, ◌%◌, ◌-◌, min,
}
use fiberpassbackend.Charges.Records.{SessionStatus, PaymentRail}
use fiberpassbackend.Money.{as_atomic_amount}
use fiberpassbackend.Metered.Records.{SessionRecord}
use fiberpassbackend.Schedules.Records.{
  ScheduleCadence, ScheduleStatus, OccurrenceStatus, ReservationState, CalendarSchedule,
  PaymentScheduleRecord, ScheduledOccurrenceRecord, ScheduleDb,
}
use fiberpassbackend.Schedules.Calendar.{
  Calendar, next_by, next_occurrence_after, next_occurrence_after-Next, LocalDateTime, Laws, Next,
}
use fiberpassbackend.Charges.Receipts.{create_payment_receipt}
use fiberpassbackend.Schedules.Budget.{
  reserve_occurrence_budget, reserve_found, reserve_in, occurrence_retry_delay, exact,
}
use fiberpassbackend.Schedules.Execution.{ClosedStatus}
use fiberpassbackend.Schedules.Success.{
  OccurrenceSuccess, finalize_occurrence_success, succeed_found, succeed_occurrence, debit_session,
  advance_schedule, occurrence_receipt,
}
use fiberpassbackend.Schedules.Balance.{Held}
use fiberpassbackend.Schedules.Operations.{
  Operation, apply_one, apply_all, apply_all-Held, occurrence_retry_delay-bounds,
}

-- A calendar of months of thirty days, whose instants are days.
abbrev local_at : ℕ → LocalDateTime
local_at t = record { month = t / 30; day = t % 30 + 1; time = 0 }

abbrev calendar : Calendar
calendar = record {
  to_local = λ zone t. local_at t;
  from_local = λ zone l. l.month * 30 + (l.day - 1);
  add_days = λ n l. record (local_at (l.month * 30 + (l.day - 1) + n)) { time = l.time };
  add_months = λ n l. record l { month = l.month + n };
  with_day = λ d l. record l { day = min d 30 };
  days_in_month = λ l. 30;
  day_number = λ l. l.month * 30 + l.day;
}

calendar-Laws : Laws calendar
calendar-Laws = record {
  local_day = λ zone t. omega arith;
  later_day = λ n l h. omega (arith, h);
  same_time = λ n l. refl;
  with_day = λ d l h. (refl, refl, refl);
  add_months = λ n l h. (refl, refl);
  month_length = λ l. omega arith;
  same_length = λ l l' h. refl;
}

abbrev monthly : CalendarSchedule
monthly = record {
  cadence = ScheduleCadence.monthly;
  time_zone = 0;
  anchor_day = some 31;
  custom_interval_seconds = none;
}

-- From the thirtieth of a month to the thirtieth of the next one.
a_month_later : next_occurrence_after calendar 59 monthly ≡ ok (some 89)
unfolding next_occurrence_after next_by
a_month_later = refl

next_occurrence_after-Next_example : Next calendar ScheduleCadence.monthly 59 89 monthly
next_occurrence_after-Next_example =
    next_occurrence_after-Next calendar calendar-Laws 59 89 monthly a_month_later

abbrev weekly : CalendarSchedule
weekly = record {
  cadence = ScheduleCadence.weekly;
  time_zone = 0;
  anchor_day = none;
  custom_interval_seconds = none;
}

occurrence_retry_delay-bounds_example :
    (30000 ≤ occurrence_retry_delay 3)
    × (occurrence_retry_delay 3 ≤ 3600000)
    × (occurrence_retry_delay 3 ≤ occurrence_retry_delay (3 + 5))
occurrence_retry_delay-bounds_example = occurrence_retry_delay-bounds 3 5

abbrev pass : SessionRecord
pass = record {
  public_id = 5;
  owner_wallet_id = 3;
  status = SessionStatus.active;
  app_id = none;
  app_grant_owner_wallet_id = none;
  may_create_charges = false;
  auto_micro_charges = false;
  expiry_at = none;
  asset_id = 2;
  limit_atomic = some 200;
  spent_atomic = some 0;
  reserved_atomic = some 40;
  limit_minor = some 200;
  spent_minor = some 0;
  reserved_minor = some 40;
}

abbrev schedule : PaymentScheduleRecord
schedule = record {
  schedule_id = 6;
  session_id = 5;
  owner_wallet_id = 3;
  recipient_id = 8;
  rail = PaymentRail.fiber;
  network = 1;
  asset_id = 2;
  amount_atomic = 80;
  spent_atomic = 0;
  calendar = weekly;
  status = ScheduleStatus.active;
  next_occurrence_at = 1000;
  last_occurrence_at = none;
  occurrence_limit = none;
  occurrence_count = 0;
  completed_at = none;
  paused_at = none;
  failure_code = none;
}

abbrev occurrence : ScheduledOccurrenceRecord
occurrence = record {
  occurrence_id = 7;
  schedule_id = 6;
  session_id = 5;
  owner_wallet_id = 3;
  recipient_id = 8;
  due_at = 1000;
  rail = PaymentRail.fiber;
  network = 1;
  asset_id = 2;
  amount_atomic = 80;
  status = OccurrenceStatus.executing;
  reservation_state = ReservationState.unreserved;
  reserved_at = none;
  payment_request_hash = none;
  payment_hash = none;
  request_expires_at = none;
  executor_payment_id = none;
  proof_kind = none;
  proof_reference = none;
  execution_lease_id = none;
  execution_lease_expires_at = none;
  retry_count = 0;
  next_attempt_at = none;
  resolved_at = none;
  submitted_at = none;
  reconciled_at = none;
  completed_at = none;
  failure_code = none;
}

abbrev start : ScheduleDb
start = record {
  schedules = schedule ∷ [];
  occurrences = occurrence ∷ [];
  sessions = pass ∷ [];
  receipts = [];
}

abbrev no_display : SessionRecord → ℕ
no_display s = 0

abbrev success : OccurrenceSuccess
success = record {
  executor_payment_id = 11;
  payment_hash = none;
  proof_kind = none;
  proof_reference = none;
  fee_atomic = none;
  session_already_debited = false;
  now = 5000;
}

-- A charge holds 40 in the pass.
abbrev by_charges : ℕ → ℕ
by_charges session = if 5 == session then 40 else 0

abbrev occurrence_number : ℕ → ℕ → ℕ
occurrence_number schedule due = schedule + due

start-Held : Held no_display no_display by_charges start
unfolding exact
start-Held = record {
  per_session =
      λ i. elim (Bool-cases (5 == i)) [ inl here ↦ rw here refl | inr there ↦ rw there refl ];
}

abbrev everything : List Operation
everything =
    Operation.reserve 7 2000
    ∷ Operation.claim 7 9 3000
    ∷ Operation.start schedule 10 3200
    ∷ Operation.retry occurrence true 1 3500
    ∷ Operation.execute occurrence 3600
    ∷ Operation.suspend occurrence (record { payment_id = 4; payment_hash = none }) true 3700
    ∷ Operation.finalize 7 success
    ∷ Operation.release 7 6000
    ∷ Operation.deplete occurrence 6500
    ∷ Operation.block occurrence 2 7000
    ∷ Operation.close schedule ClosedStatus.revoked 3 8000
    ∷ []

apply_all-Held_example : Held no_display no_display by_charges (
    apply_all no_display no_display calendar
      (λ source id. id)
      (λ r. 1)
      occurrence_number
      everything
      start)
apply_all-Held_example =
    apply_all-Held no_display no_display calendar (λ source id. id) (λ r. 1) occurrence_number
      by_charges everything start start-Held

-- The pass after the reservation and the settlement.
held_then_spent :
    (apply_all no_display no_display calendar
      (λ source id. id)
      (λ r. 1)
      occurrence_number
      (Operation.reserve 7 2000 ∷ Operation.finalize 7 success ∷ [])
      start).sessions
    ≡ (record pass { spent_atomic = some 80; spent_minor = some 80 }) ∷ []
unfolding exact apply_all apply_one reserve_occurrence_budget reserve_found reserve_in
    finalize_occurrence_success succeed_found succeed_occurrence debit_session advance_schedule
    next_occurrence_after next_by create_payment_receipt occurrence_receipt as_atomic_amount
held_then_spent = refl
