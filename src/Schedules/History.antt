-- ===== src/Schedules/History.antt =====
-- What passes hold in reserve through any history of occurrences
-- (src/services/paymentSchedule.service.ts).
use fiberpassbackend.Prelude.{
  ℕ, ◌+◌, ◌-◌, ◌≤◌, ◌≡◌, refl, subst, Bool, true, false, ◌&&◌, Option, none, some, List, arith, leb,
  Bool-cases, inl, inr, ==_iff, ok, >>=-eq-ok, require-bind,
}
use fiberpassbackend.Prelude.Store.{find_where, total, update_where, update_where-eq-some}
use fiberpassbackend.Prelude.Documents.{save, given, given-eq-ok, ok-same}
use fiberpassbackend.Charges.Records.{PaymentReceipt, ReceiptSourceType}
use fiberpassbackend.Charges.Preservation.{find_where-passes}
use fiberpassbackend.Charges.Receipts.{create_payment_receipt}
use fiberpassbackend.Metered.Records.{SessionRecord}
use fiberpassbackend.Metered.Finalization.{only_receipts}
use fiberpassbackend.Schedules.Records.{ScheduledOccurrenceRecord, ScheduleDb, ScheduleError}
use fiberpassbackend.Schedules.Calendar.{Calendar}
use fiberpassbackend.Schedules.Budget.{
  has_occurrence_id, has_session_id, has_schedule_id, is_reserved, spent_of, reserved_of, exact,
  update_one, after_update, is_leased, retried, occurrence_retry_delay, mark_occurrence_retry,
  blocked, block_occurrence, claim_in_flight_occurrence, can_claim_in_flight, lease,
  reserve_occurrence_budget, release_occurrence_budget, set_reserved, set_spent,
}
use fiberpassbackend.Schedules.Success.{
  OccurrenceSuccess, debit_session, succeed, succeed_occurrence, succeed_found, is_succeeded,
  lift_receipt, advance_schedule, occurrence_receipt,
}
use fiberpassbackend.Schedules.Balance.{
  held, held-own, held-idle, own_occurrence, booked, Held, together-Held, reserve_found-Held,
  release_found-Held,
}

pub one-total :
    {A : Type 0} (w : A → ℕ) (p : A → Bool) (f : A → A) (l : List A) {b : A} {l' : List A}
    → update_where p f l ≡ some (b, l')
    → ((a : A) → w (f a) ≡ w a)
    → total w l' ≡ total w l
one-total w p f l e keeps =
    let u = update_where-eq-some p f l e in omega (arith, u.sums w, keeps u.before)

total-after_update :
    {A : Type 0} (w : A → ℕ) (p : A → Bool) (f : A → A) (l : List A) (r : Option (A × List A))
    → update_where p f l ≡ r
    → ((a : A) → w (f a) ≡ w a)
    → total w (after_update r l) ≡ total w l
total-after_update w p f l none e keeps = refl
total-after_update w p f l (some (b, l')) e keeps = one-total w p f l e keeps

pub total-update_one :
    {A : Type 0} (w : A → ℕ) (p : A → Bool) (f : A → A) (l : List A)
    → ((a : A) → w (f a) ≡ w a)
    → total w (update_one p f l) ≡ total w l
total-update_one w p f l keeps = total-after_update w p f l (update_where p f l) refl keeps

module _ (limit_display spent_display : SessionRecord → ℕ) (other : (session : ℕ) → ℕ) where
  -- A change of the occurrences that keeps what each holds.
  pub same-Held :
      (db db' : ScheduleDb)
      → db'.sessions ≡ db.sessions
      → ((i : ℕ) → total (held i) db'.occurrences ≡ total (held i) db.occurrences)
      → Held limit_display spent_display other db
      → Held limit_display spent_display other db'
  same-Held db db' hs ho h = record {
    per_session = λ i. rw hs (omega (arith, ho i, h.per_session i));
  }

  pub mark_occurrence_retry-Held :
      (o : ScheduledOccurrenceRecord) (uncertain : Bool) (code now : ℕ) (db : ScheduleDb)
      → Held limit_display spent_display other db
      → Held limit_display spent_display other (mark_occurrence_retry o uncertain code now db)
  unfolding mark_occurrence_retry
  mark_occurrence_retry-Held o uncertain code now db h =
      same-Held db (mark_occurrence_retry o uncertain code now db) refl
        (λ i.
          total-update_one (held i) (is_leased o)
            (retried uncertain (o.retry_count + 1) (occurrence_retry_delay (o.retry_count + 1)) code
              now)
            db.occurrences (λ a. refl))
        h

  pub release_occurrence_budget-Held :
      (id : ℕ) (db : ScheduleDb)
      → Held limit_display spent_display other db
      → Held limit_display spent_display other
          (release_occurrence_budget limit_display spent_display id db)
  unfolding release_occurrence_budget
  release_occurrence_budget-Held id db h =
      release_found-Held limit_display spent_display other
        (find_where (has_occurrence_id id) db.occurrences) id db refl h

  pub reserve_occurrence_budget-Held :
      (id now : ℕ) (db : ScheduleDb)
      → Held limit_display spent_display other db
      → Held limit_display spent_display other
          (reserve_occurrence_budget limit_display spent_display id now db).1
  unfolding reserve_occurrence_budget
  reserve_occurrence_budget-Held id now db h =
      reserve_found-Held limit_display spent_display other
        (find_where (has_occurrence_id id) db.occurrences) id now db refl h

  pub block_occurrence-Held :
      (o : ScheduledOccurrenceRecord) (code now : ℕ) (db : ScheduleDb)
      → Held limit_display spent_display other db
      → Held limit_display spent_display other
          (block_occurrence limit_display spent_display o code now db)
  unfolding block_occurrence
  block_occurrence-Held o code now db h =
      let db' = release_occurrence_budget limit_display spent_display o.occurrence_id db in
      same-Held db' (block_occurrence limit_display spent_display o code now db) refl
        (λ i.
          total-update_one (held i) (has_occurrence_id o.occurrence_id) (blocked code now)
            db'.occurrences (λ a. refl))
        (release_occurrence_budget-Held o.occurrence_id db h)

  pub claimed-Held :
      (id lease_id now : ℕ) (db : ScheduleDb) {r : ScheduledOccurrenceRecord}
      {l : List ScheduledOccurrenceRecord}
      → claim_in_flight_occurrence id lease_id now db.occurrences ≡ some (r, l)
      → Held limit_display spent_display other db
      → Held limit_display spent_display other (record db { occurrences = l })
  unfolding claim_in_flight_occurrence
  claimed-Held id lease_id now db {r} {l} e h =
      same-Held db (record db { occurrences = l }) refl
        (λ i.
          one-total (held i) (can_claim_in_flight id now) (lease lease_id now) db.occurrences e
            (λ a. refl))
        h

  module _ (calendar : Calendar) (receipt_id_for : ReceiptSourceType → ℕ → ℕ)
      (hash_receipt : PaymentReceipt → ℕ) where
    debited-Held :
        (input : OccurrenceSuccess) (o : ScheduledOccurrenceRecord) (s s' : SessionRecord)
        (db db' : ScheduleDb) (debited : Bool)
        → input.session_already_debited ≡ debited
        → find_where (has_session_id o.session_id) db.sessions ≡ some s
        → find_where (has_occurrence_id o.occurrence_id) db.occurrences ≡ some o
        → debit_session limit_display spent_display calendar receipt_id_for hash_receipt debited o s
          ≡ ok s'
        → db'.sessions ≡ save (has_session_id o.session_id) s' db.sessions
        → db'.occurrences
          ≡ save (has_occurrence_id o.occurrence_id) (succeed input o) db.occurrences
        → Held limit_display spent_display other db
        → Held limit_display spent_display other db'
    unfolding debit_session exact
    debited-Held input o s s' db db' true e fs fo d hs ho h =
        let its : s.public_id ≡ o.session_id =
          (==_iff s.public_id o.session_id).0
            (find_where-passes (has_session_id o.session_id) db.sessions fs) in
        let same : s ≡ s' = ok-same d in
        let its' : s'.public_id ≡ o.session_id =
          subst (λ (x : SessionRecord). x.public_id ≡ o.session_id) same its in
        together-Held limit_display spent_display other db db' s s' o (succeed input o) fs fo hs ho
          its' refl
          (subst
            (λ (x : SessionRecord).
              booked limit_display spent_display (some x) + held o.session_id o
              ≡ booked limit_display spent_display (some s) + held o.session_id (succeed input o))
            same (rw e refl))
          h
    debited-Held input o s s' db db' false e fs fo d hs ho h =
        let its : s.public_id ≡ o.session_id =
          (==_iff s.public_id o.session_id).0
            (find_where-passes (has_session_id o.session_id) db.sessions fs) in
        let (guarded, d1) =
          require-bind
            (is_reserved o.reservation_state
              && leb o.amount_atomic (reserved_of limit_display spent_display s))
            ScheduleError.reservation_missing _ d in
        let (small, d2) = require-bind _ _ _ d1 in
        let same : set_spent (spent_of limit_display spent_display s + o.amount_atomic)
              (set_reserved (reserved_of limit_display spent_display s - o.amount_atomic) s)
            ≡ s' =
          ok-same d2 in
        let covered : o.amount_atomic ≤ reserved_of limit_display spent_display s =
          ground (arith, guarded) in
        let mine = held-own o (ground (arith, guarded)) in
        let idle : held o.session_id (succeed input o) ≡ 0 =
          held-idle o.session_id (succeed input o) (rw e refl) in
        let its' : s'.public_id ≡ o.session_id =
          subst (λ (x : SessionRecord). x.public_id ≡ o.session_id) same its in
        let left : booked limit_display spent_display (some s')
            ≡ reserved_of limit_display spent_display s - o.amount_atomic =
          subst
            (λ (x : SessionRecord).
              booked limit_display spent_display (some x)
              ≡ reserved_of limit_display spent_display s - o.amount_atomic)
            same refl in
        together-Held limit_display spent_display other db db' s s' o (succeed input o) fs fo hs ho
          its' refl (omega (arith, left, idle, mine, covered)) h

    succeed_occurrence-Held :
        (input : OccurrenceSuccess) (o : ScheduledOccurrenceRecord) (db : ScheduleDb)
        {db' : ScheduleDb}
        → find_where (has_occurrence_id o.occurrence_id) db.occurrences ≡ some o
        → succeed_occurrence limit_display spent_display calendar receipt_id_for hash_receipt input
            o db
          ≡ ok db'
        → Held limit_display spent_display other db
        → Held limit_display spent_display other db'
    unfolding succeed_occurrence
    succeed_occurrence-Held input o db {db'} fo e h =
        let (schedule, e0, e1) =
          >>=-eq-ok
            (given (find_where (has_schedule_id o.schedule_id) db.schedules)
              ScheduleError.state_missing)
            _ e in
        let (s, e2, e3) =
          >>=-eq-ok
            (given (find_where (has_session_id o.session_id) db.sessions)
              ScheduleError.state_missing)
            _ e1 in
        let (s', e4, e5) =
          >>=-eq-ok
            (debit_session limit_display spent_display calendar receipt_id_for hash_receipt
              input.session_already_debited o s)
            _ e3 in
        let (schedule', e6, e7) =
          >>=-eq-ok
            (advance_schedule limit_display spent_display calendar receipt_id_for hash_receipt input
              o s' schedule)
            _ e5 in
        let (written, e8, e9) =
          >>=-eq-ok
            (lift_receipt (
              create_payment_receipt receipt_id_for hash_receipt (occurrence_receipt o input)
                input.fee_atomic (only_receipts db.receipts)))
            _ e7 in
        let same = ok-same e9 in
        debited-Held input o s s' db db' input.session_already_debited refl
          (given-eq-ok (find_where (has_session_id o.session_id) db.sessions)
            ScheduleError.state_missing e2)
          fo e4
          (subst
            (λ (x : ScheduleDb). x.sessions ≡ save (has_session_id o.session_id) s' db.sessions)
            same refl)
          (subst
            (λ (x : ScheduleDb).
              x.occurrences
              ≡ save (has_occurrence_id o.occurrence_id) (succeed input o) db.occurrences)
            same refl)
          h

    pub succeed_found-Held :
        (input : OccurrenceSuccess) (id : ℕ) (found : Option ScheduledOccurrenceRecord)
        (db : ScheduleDb) {db' : ScheduleDb}
        → find_where (has_occurrence_id id) db.occurrences ≡ found
        → succeed_found limit_display spent_display calendar receipt_id_for hash_receipt input found
            db
          ≡ ok db'
        → Held limit_display spent_display other db
        → Held limit_display spent_display other db'
    unfolding succeed_found
    succeed_found-Held input id none db {db'} fo e h =
        subst (λ x. Held limit_display spent_display other x) (ok-same e) h
    succeed_found-Held input id (some o) db {db'} fo e h =
        elim (Bool-cases (is_succeeded o.status)) [
          | inl already ↦
              let same : db ≡ db' = ground (arith, already) in
              subst (λ x. Held limit_display spent_display other x) same h
          | inr first ↦
              succeed_occurrence-Held input o db {db' = db'} (own_occurrence id db.occurrences fo)
                (ground (arith, first)) h
        ]
