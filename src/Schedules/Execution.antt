-- ===== src/Schedules/Execution.antt =====
-- The execution of an occurrence (`claimOccurrence`, `closeScheduleForPassState`, and the updates of
-- `reconcileExistingExecution`, `executeResolvedRequest` and `runDuePaymentSchedules` of
-- src/services/paymentSchedule.service.ts). `stableOccurrenceId`, a digest, is a parameter.
use fiberpassbackend.Prelude.{
  ℕ, ◌+◌, Bool, true, false, ◌&&◌, ◌||◌, not, Option, none, some, List, [], ◌∷◌, ◌++◌, ◌==◌,
  if◌then◌else◌, any, Outcome, ok, err,
}
use fiberpassbackend.Prelude.Store.{find_where, update_where}
use fiberpassbackend.Funding.Domain.{is_some}
use fiberpassbackend.Metered.Records.{SessionRecord}
use fiberpassbackend.Schedules.Records.{
  ScheduleStatus, OccurrenceStatus, ReservationState, PaymentScheduleRecord,
  ScheduledOccurrenceRecord, ScheduleDb, ScheduleError,
}
use fiberpassbackend.Schedules.Budget.{
  has_occurrence_id, has_schedule_id, is_leased, is_active_schedule, lease, past, update_one,
  block_occurrence, occurrence_lease_ms,
}

abbrev pub new_occurrence :
    PaymentScheduleRecord → (occurrence_id lease_id now : ℕ) → ScheduledOccurrenceRecord
new_occurrence s occurrence_id lease_id now = record {
  occurrence_id = occurrence_id;
  schedule_id = s.schedule_id;
  session_id = s.session_id;
  owner_wallet_id = s.owner_wallet_id;
  recipient_id = s.recipient_id;
  due_at = s.next_occurrence_at;
  rail = s.rail;
  network = s.network;
  asset_id = s.asset_id;
  amount_atomic = s.amount_atomic;
  status = OccurrenceStatus.resolving;
  reservation_state = ReservationState.unreserved;
  reserved_at = none;
  payment_request_hash = none;
  payment_hash = none;
  request_expires_at = none;
  executor_payment_id = none;
  proof_kind = none;
  proof_reference = none;
  execution_lease_id = some lease_id;
  execution_lease_expires_at = some (now + occurrence_lease_ms);
  retry_count = 0;
  next_attempt_at = none;
  resolved_at = none;
  submitted_at = none;
  reconciled_at = none;
  completed_at = none;
  failure_code = none;
}

-- The unique indexes of occurrences that a new one can meet.
abbrev pub occurrence_clash : ScheduledOccurrenceRecord → ScheduledOccurrenceRecord → Bool
occurrence_clash new o =
    o.occurrence_id == new.occurrence_id
    || (o.schedule_id == new.schedule_id && o.due_at == new.due_at)

abbrev pub is_unfinished : OccurrenceStatus → Bool
is_unfinished OccurrenceStatus.resolving = true
is_unfinished OccurrenceStatus.executing = true
is_unfinished OccurrenceStatus.uncertain = true
is_unfinished OccurrenceStatus.retrying = true
is_unfinished _ = false

abbrev pub can_claim : (occurrence_id now : ℕ) → ScheduledOccurrenceRecord → Bool
can_claim id now o =
    has_occurrence_id id o
    && is_unfinished o.status
    && past now o.execution_lease_expires_at
    && past now o.next_attempt_at

-- A new occurrence, or the one that stands there, where it can be claimed.
unfoldable pub claim_as :
    ScheduledOccurrenceRecord
    → (lease_id now : ℕ) → List ScheduledOccurrenceRecord
    → Option (ScheduledOccurrenceRecord × List ScheduledOccurrenceRecord)
claim_as new lease_id now l =
    if any (occurrence_clash new) l
    then update_where (can_claim new.occurrence_id now) (lease lease_id now) l
    else some (new, l ++ (new ∷ []))

abbrev pub is_unsubmitted : (occurrence_id : ℕ) → ScheduledOccurrenceRecord → Bool
is_unsubmitted id o =
    has_occurrence_id id o
    && (elim o.status [
      | OccurrenceStatus.resolving ↦ true
      | OccurrenceStatus.retrying ↦ true
      | _ ↦ false
    ])
    && not (is_some o.submitted_at)

abbrev is_open_schedule : ℕ → PaymentScheduleRecord → Bool
is_open_schedule id s =
    has_schedule_id id s
    && (elim s.status [ ScheduleStatus.active ↦ true | ScheduleStatus.paused ↦ true | _ ↦ false ])

-- The statuses that a schedule is closed with for the state of its pass.
pub data ClosedStatus : Type 0 where
  completed revoked expired : ClosedStatus

abbrev closed_status : ClosedStatus → ScheduleStatus
closed_status ClosedStatus.completed = ScheduleStatus.completed
closed_status ClosedStatus.revoked = ScheduleStatus.revoked
closed_status ClosedStatus.expired = ScheduleStatus.expired

abbrev close : ClosedStatus → (code now : ℕ) → PaymentScheduleRecord → PaymentScheduleRecord
close status code now s = record s {
  status = closed_status status;
  completed_at = some now;
  failure_code = some code;
}

abbrev deplete_schedule : (now : ℕ) → PaymentScheduleRecord → PaymentScheduleRecord
deplete_schedule now s = record s { status = ScheduleStatus.depleted; completed_at = some now }

-- 'SCHEDULE_PASS_DEPLETED'
abbrev depleted_code : ℕ
depleted_code = 30

abbrev pub deplete_occurrence : (now : ℕ) → ScheduledOccurrenceRecord → ScheduledOccurrenceRecord
deplete_occurrence now o = record o {
  status = OccurrenceStatus.blocked;
  failure_code = some depleted_code;
  completed_at = some now;
}

unfoldable pub mark_depleted : ScheduledOccurrenceRecord → (now : ℕ) → ScheduleDb → ScheduleDb
mark_depleted o now db = record db {
  schedules = update_one (is_active_schedule o.schedule_id) (deplete_schedule now) db.schedules;
  occurrences =
      update_one (has_occurrence_id o.occurrence_id) (deplete_occurrence now) db.occurrences;
}

pub record ResolvedRequest : Type 0 where
  pub payment_request_hash : ℕ
  pub payment_hash : Option ℕ
  pub expires_at : Option ℕ

-- A field that is given as undefined is left as it was.
abbrev kept_field : Option ℕ → Option ℕ → Option ℕ
kept_field none old = old
kept_field (some h) old = some h

abbrev pub resolve :
    ResolvedRequest → (now : ℕ) → ScheduledOccurrenceRecord → ScheduledOccurrenceRecord
resolve r now o = record o {
  payment_request_hash = some r.payment_request_hash;
  payment_hash = kept_field r.payment_hash o.payment_hash;
  request_expires_at = kept_field r.expires_at o.request_expires_at;
  resolved_at = some now;
  status = OccurrenceStatus.executing;
  failure_code = none;
  next_attempt_at = none;
}

abbrev pub has_request : ℕ → ScheduledOccurrenceRecord → ScheduledOccurrenceRecord → Bool
has_request hash o p =
    not (p.occurrence_id == o.occurrence_id)
    && (elim p.payment_request_hash [ some h ↦ h == hash | none ↦ false ])

-- The request is stored under a unique index; an occurrence whose lease is lost is left alone.
unfoldable pub store_request :
    ScheduledOccurrenceRecord
    → ResolvedRequest
    → (now : ℕ) → ScheduleDb
    → Outcome ScheduleError ScheduleDb
store_request o r now db =
    if any (has_request r.payment_request_hash o) db.occurrences
    then err ScheduleError.request_reused
    else ok (record db { occurrences = update_one (is_leased o) (resolve r now) db.occurrences })

abbrev pub submit : (now : ℕ) → ScheduledOccurrenceRecord → ScheduledOccurrenceRecord
submit now o = record o { status = OccurrenceStatus.executing; submitted_at = some now }

unfoldable pub mark_executing : ScheduledOccurrenceRecord → (now : ℕ) → ScheduleDb → ScheduleDb
mark_executing o now db = record db {
  occurrences = update_one (is_leased o) (submit now) db.occurrences;
}

-- What an executor that has not settled the payment yet is known by.
pub record PendingPayment : Type 0 where
  pub payment_id : ℕ
  pub payment_hash : Option ℕ

-- Reconciliation sets its time as well.
abbrev pub suspend :
    PendingPayment
    → (reconciled : Bool) → (now : ℕ) → ScheduledOccurrenceRecord
    → ScheduledOccurrenceRecord
suspend p reconciled now o = record o {
  status = OccurrenceStatus.uncertain;
  executor_payment_id = some p.payment_id;
  payment_hash = kept_field p.payment_hash o.payment_hash;
  reconciled_at = if reconciled then some now else o.reconciled_at;
  execution_lease_expires_at = some now;
  execution_lease_id = none;
}

unfoldable pub mark_uncertain :
    ScheduledOccurrenceRecord
    → PendingPayment
    → (reconciled : Bool) → (now : ℕ) → ScheduleDb
    → ScheduleDb
mark_uncertain o p reconciled now db = record db {
  occurrences =
      update_one (has_occurrence_id o.occurrence_id) (suspend p reconciled now) db.occurrences;
}

module _ (stable_occurrence_id : (schedule_id due_at : ℕ) → ℕ) where
  unfoldable pub claim_occurrence :
      PaymentScheduleRecord
      → (lease_id now : ℕ) → List ScheduledOccurrenceRecord
      → Option (ScheduledOccurrenceRecord × List ScheduledOccurrenceRecord)
  unfolding claim_as
  claim_occurrence s lease_id now l =
      claim_as
        (new_occurrence s (stable_occurrence_id s.schedule_id s.next_occurrence_at) lease_id now)
        lease_id now l

  module _ (limit_display spent_display : SessionRecord → ℕ) where
    unfoldable pub block_if :
        Option ScheduledOccurrenceRecord → (code now : ℕ) → ScheduleDb → ScheduleDb
    unfolding block_occurrence
    block_if none code now db = db
    block_if (some o) code now db = block_occurrence limit_display spent_display o code now db

    unfoldable pub close_schedule_for_pass_state :
        PaymentScheduleRecord → ClosedStatus → (code now : ℕ) → ScheduleDb → ScheduleDb
    unfolding block_if
    close_schedule_for_pass_state s status code now db =
        let id = stable_occurrence_id s.schedule_id s.next_occurrence_at in
        let db' = block_if (find_where (is_unsubmitted id) db.occurrences) code now db in
        record db' {
          schedules =
              update_one (is_open_schedule s.schedule_id) (close status code now) db'.schedules;
        }
