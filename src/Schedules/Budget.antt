-- ===== src/Schedules/Budget.antt =====
-- What an occurrence reserves in its pass (`setAtomicCompatibility`, `reserveOccurrenceBudget`,
-- `releaseOccurrenceBudget`, `markOccurrenceRetry`, `blockOccurrence`, `claimInFlightOccurrence` of
-- src/services/paymentSchedule.service.ts). The display amounts of a pass that has no minor amounts are
-- parameters.
use fiberpassbackend.Prelude.{
  ℕ, ◌+◌, ◌-◌, ◌*◌, ◌^◌, min, Bool, true, false, ◌&&◌, ◌||◌, not, Option, none, some, List, ◌==◌,
  leb, ltb, if◌then◌else◌,
}
use fiberpassbackend.Prelude.Store.{find_where, update_where}
use fiberpassbackend.Prelude.Documents.{save}
use fiberpassbackend.Money.{max_safe_integer}
use fiberpassbackend.Charges.Records.{SessionStatus}
use fiberpassbackend.Charges.Receipts.{or_else}
use fiberpassbackend.Metered.Records.{SessionRecord}
use fiberpassbackend.Schedules.Records.{
  ScheduleStatus, OccurrenceStatus, ReservationState, PaymentScheduleRecord,
  ScheduledOccurrenceRecord, ScheduleDb,
}

abbrev pub occurrence_lease_ms : ℕ
occurrence_lease_ms = 90000

abbrev pub retry_base_ms : ℕ
retry_base_ms = 30000

abbrev pub has_occurrence_id : ℕ → ScheduledOccurrenceRecord → Bool
has_occurrence_id id o = o.occurrence_id == id

abbrev pub has_schedule_id : ℕ → PaymentScheduleRecord → Bool
has_schedule_id id s = s.schedule_id == id

abbrev pub has_session_id : ℕ → SessionRecord → Bool
has_session_id id s = s.public_id == id

-- The atomic amount, or else the minor one where it is a safe integer, or else the display amount.
unfoldable pub exact : (atomic minor : Option ℕ) → (display : ℕ) → ℕ
exact (some atomic) minor display = atomic
exact none (some minor) display = if leb minor max_safe_integer then minor else display
exact none none display = display

-- `setAtomicCompatibility` leaves a minor amount that would not be a safe integer as it was.
abbrev compatible : ℕ → Option ℕ → Option ℕ
compatible value minor = if leb value max_safe_integer then some value else minor

abbrev pub set_reserved : ℕ → SessionRecord → SessionRecord
set_reserved value s = record s {
  reserved_atomic = some value;
  reserved_minor = compatible value s.reserved_minor;
}

abbrev pub set_spent : ℕ → SessionRecord → SessionRecord
set_spent value s = record s {
  spent_atomic = some value;
  spent_minor = compatible value s.spent_minor;
}

abbrev pub set_limit : ℕ → SessionRecord → SessionRecord
set_limit value s = record s {
  limit_atomic = some value;
  limit_minor = compatible value s.limit_minor;
}

abbrev pub is_active : SessionStatus → Bool
is_active SessionStatus.active = true
is_active _ = false

abbrev pub ended : ℕ → Option ℕ → Bool
ended now none = false
ended now (some t) = leb t now

abbrev pub is_reserved : ReservationState → Bool
is_reserved ReservationState.reserved = true
is_reserved _ = false

abbrev pub is_spent : ReservationState → Bool
is_spent ReservationState.spent = true
is_spent _ = false

pub data BudgetResult : Type 0 where
  reserved depleted inactive : BudgetResult

abbrev pub hold : ℕ → ScheduledOccurrenceRecord → ScheduledOccurrenceRecord
hold now o = record o { reservation_state = ReservationState.reserved; reserved_at = some now }

abbrev pub free : ScheduledOccurrenceRecord → ScheduledOccurrenceRecord
free o = record o { reservation_state = ReservationState.released }

module _ (limit_display spent_display : SessionRecord → ℕ) where
  abbrev pub limit_of : SessionRecord → ℕ
  unfolding exact
  limit_of s = exact s.limit_atomic s.limit_minor (limit_display s)

  abbrev pub spent_of : SessionRecord → ℕ
  unfolding exact
  spent_of s = exact s.spent_atomic s.spent_minor (spent_display s)

  -- A reserved minor amount that is stored is a safe integer.
  abbrev pub reserved_of : SessionRecord → ℕ
  reserved_of s = or_else s.reserved_atomic (or_else s.reserved_minor 0)

  -- The session with every amount in both forms, and the occurrence's amount in reserve.
  abbrev pub reserve_session : ℕ → SessionRecord → SessionRecord
  reserve_session amount s =
      set_reserved (reserved_of s + amount) (set_spent (spent_of s) (set_limit (limit_of s) s))

  unfoldable pub reserve_in :
      Option SessionRecord
      → ScheduledOccurrenceRecord
      → (now : ℕ) → ScheduleDb
      → BudgetResult × ScheduleDb
  reserve_in none o now db = (BudgetResult.inactive, db)
  reserve_in (some s) o now db =
      if not (is_active s.status) || ended now s.expiry_at
      then (BudgetResult.inactive, db)
      else if ltb (limit_of s) (spent_of s + reserved_of s + o.amount_atomic)
      then (BudgetResult.depleted, db)
      else (
        BudgetResult.reserved,
        record db {
          sessions =
              save (has_session_id o.session_id) (reserve_session o.amount_atomic s) db.sessions;
          occurrences = save (has_occurrence_id o.occurrence_id) (hold now o) db.occurrences;
        },
      )

  unfoldable pub reserve_found :
      Option ScheduledOccurrenceRecord → (now : ℕ) → ScheduleDb → BudgetResult × ScheduleDb
  unfolding reserve_in
  reserve_found none now db = (BudgetResult.inactive, db)
  reserve_found (some o) now db =
      if is_reserved o.reservation_state || is_spent o.reservation_state
      then (BudgetResult.reserved, db)
      else reserve_in (find_where (has_session_id o.session_id) db.sessions) o now db

  unfoldable pub reserve_occurrence_budget :
      (occurrence_id now : ℕ) → ScheduleDb → BudgetResult × ScheduleDb
  unfolding reserve_found
  reserve_occurrence_budget occurrence_id now db =
      reserve_found (find_where (has_occurrence_id occurrence_id) db.occurrences) now db

  -- `reserved >= amount ? reserved - amount : 0`
  unfoldable pub release_session :
      Option SessionRecord → ScheduledOccurrenceRecord → List SessionRecord → List SessionRecord
  release_session none o sessions = sessions
  release_session (some s) o sessions =
      save (has_session_id o.session_id) (set_reserved (reserved_of s - o.amount_atomic) s) sessions

  unfoldable pub release_found : Option ScheduledOccurrenceRecord → ScheduleDb → ScheduleDb
  unfolding release_session
  release_found none db = db
  release_found (some o) db = if not (is_reserved o.reservation_state) then db else record db {
    sessions = release_session (find_where (has_session_id o.session_id) db.sessions) o db.sessions;
    occurrences = save (has_occurrence_id o.occurrence_id) (free o) db.occurrences;
  }

  unfoldable pub release_occurrence_budget : (occurrence_id : ℕ) → ScheduleDb → ScheduleDb
  unfolding release_found
  release_occurrence_budget occurrence_id db =
      release_found (find_where (has_occurrence_id occurrence_id) db.occurrences) db

abbrev pub after_update : {A : Type 0} → Option (A × List A) → List A → List A
after_update none l = l
after_update (some (b, l')) l = l'

abbrev pub update_one : {A : Type 0} → (A → Bool) → (A → A) → List A → List A
update_one p f l = after_update (update_where p f l) l

abbrev same_lease : Option ℕ → Option ℕ → Bool
same_lease none none = true
same_lease (some a) (some b) = a == b
same_lease _ _ = false

abbrev pub is_leased : ScheduledOccurrenceRecord → ScheduledOccurrenceRecord → Bool
is_leased o p =
    p.occurrence_id == o.occurrence_id && same_lease p.execution_lease_id o.execution_lease_id

unfoldable pub occurrence_retry_delay : (retry_count : ℕ) → ℕ
occurrence_retry_delay retry_count =
    min (retry_base_ms * 2 ^ min (retry_count - 1) 7) (60 * 60 * 1000)

abbrev pub retry_status : (uncertain : Bool) → OccurrenceStatus
retry_status true = OccurrenceStatus.uncertain
retry_status false = OccurrenceStatus.retrying

abbrev pub retried :
    (uncertain : Bool)
    → (count delay code now : ℕ) → ScheduledOccurrenceRecord
    → ScheduledOccurrenceRecord
retried uncertain count delay code now o = record o {
  status = retry_status uncertain;
  retry_count = count;
  next_attempt_at = some (now + delay);
  failure_code = some code;
  execution_lease_expires_at = some now;
  execution_lease_id = none;
}

unfoldable pub mark_occurrence_retry :
    ScheduledOccurrenceRecord → (uncertain : Bool) → (code now : ℕ) → ScheduleDb → ScheduleDb
unfolding occurrence_retry_delay
mark_occurrence_retry o uncertain code now db =
    let count = o.retry_count + 1 in
    record db {
      occurrences =
          update_one (is_leased o) (retried uncertain count (occurrence_retry_delay count) code now)
            db.occurrences;
    }

abbrev pub blocked : (code now : ℕ) → ScheduledOccurrenceRecord → ScheduledOccurrenceRecord
blocked code now o = record o {
  status = OccurrenceStatus.blocked;
  failure_code = some code;
  completed_at = some now;
  execution_lease_expires_at = some now;
  execution_lease_id = none;
}

abbrev pub is_active_schedule : ℕ → PaymentScheduleRecord → Bool
is_active_schedule id s =
    has_schedule_id id s && (elim s.status [ ScheduleStatus.active ↦ true | _ ↦ false ])

abbrev pause : (code now : ℕ) → PaymentScheduleRecord → PaymentScheduleRecord
pause code now s = record s {
  status = ScheduleStatus.paused;
  paused_at = some now;
  failure_code = some code;
}

unfoldable pub block_occurrence :
    (limit_display spent_display : SessionRecord → ℕ)
    → ScheduledOccurrenceRecord
    → (code now : ℕ) → ScheduleDb
    → ScheduleDb
unfolding release_occurrence_budget
block_occurrence limit_display spent_display o code now db =
    let db' = release_occurrence_budget limit_display spent_display o.occurrence_id db in
    record db' {
      occurrences =
          update_one (has_occurrence_id o.occurrence_id) (blocked code now) db'.occurrences;
      schedules = update_one (is_active_schedule o.schedule_id) (pause code now) db'.schedules;
    }

abbrev is_in_flight : OccurrenceStatus → Bool
is_in_flight OccurrenceStatus.executing = true
is_in_flight OccurrenceStatus.uncertain = true
is_in_flight _ = false

abbrev pub past : ℕ → Option ℕ → Bool
past now none = true
past now (some t) = leb t now

abbrev pub can_claim_in_flight : (id now : ℕ) → ScheduledOccurrenceRecord → Bool
can_claim_in_flight id now o =
    has_occurrence_id id o
    && is_in_flight o.status
    && past now o.execution_lease_expires_at
    && past now o.next_attempt_at

abbrev pub lease : (lease_id now : ℕ) → ScheduledOccurrenceRecord → ScheduledOccurrenceRecord
lease lease_id now o = record o {
  execution_lease_id = some lease_id;
  execution_lease_expires_at = some (now + occurrence_lease_ms);
}

-- The claimed occurrence with the collection after the claim, or nothing.
unfoldable pub claim_in_flight_occurrence :
    (occurrence_id lease_id now : ℕ)
    → List ScheduledOccurrenceRecord
    → Option (ScheduledOccurrenceRecord × List ScheduledOccurrenceRecord)
claim_in_flight_occurrence occurrence_id lease_id now occurrences =
    update_where (can_claim_in_flight occurrence_id now) (lease lease_id now) occurrences
