-- ===== src/Schedules/Operations.antt =====
-- Sequences of what the worker does with occurrences (src/services/paymentSchedule.service.ts).
use fiberpassbackend.Prelude.{
  ℕ, ◌+◌, ◌-◌, ◌^◌, ◌≤◌, ◌≡◌, refl, min, Bool, Option, none, some, List, [], ◌∷◌, arith, Outcome,
  ok, err,
}
use native.Mathlib.Nat.{pow-le-pow_right}
use fiberpassbackend.Prelude.Store.{find_where}
use fiberpassbackend.Charges.Records.{PaymentReceipt, ReceiptSourceType}
use fiberpassbackend.Metered.Records.{SessionRecord}
use fiberpassbackend.Schedules.Records.{
  ScheduledOccurrenceRecord, PaymentScheduleRecord, ScheduleDb, ScheduleError,
}
use fiberpassbackend.Schedules.Calendar.{Calendar}
use fiberpassbackend.Schedules.Budget.{
  has_occurrence_id, occurrence_retry_delay, reserve_occurrence_budget, release_occurrence_budget,
  mark_occurrence_retry, block_occurrence, claim_in_flight_occurrence,
}
use fiberpassbackend.Schedules.Success.{OccurrenceSuccess, finalize_occurrence_success}
use fiberpassbackend.Schedules.Balance.{Held}
use fiberpassbackend.Schedules.Execution.{
  ClosedStatus, ResolvedRequest, PendingPayment, claim_occurrence, mark_depleted, mark_executing,
  store_request, mark_uncertain, close_schedule_for_pass_state,
}
use fiberpassbackend.Schedules.Steps.{
  claim_occurrence-Held, mark_depleted-Held, mark_executing-Held, store_request-Held,
  mark_uncertain-Held, close_schedule_for_pass_state-Held,
}
use fiberpassbackend.Schedules.History.{
  mark_occurrence_retry-Held, release_occurrence_budget-Held, reserve_occurrence_budget-Held,
  block_occurrence-Held, claimed-Held, succeed_found-Held,
}

-- The delay before another try is at least half a minute and at most an hour, and does not fall as the
-- tries go on.
pub occurrence_retry_delay-bounds :
    (count more : ℕ)
    → (30000 ≤ occurrence_retry_delay count)
      × (occurrence_retry_delay count ≤ 3600000)
      × (occurrence_retry_delay count ≤ occurrence_retry_delay (count + more))
unfolding occurrence_retry_delay
occurrence_retry_delay-bounds count more =
    let k = min (count - 1) 7 in
    let k' = min (count + more - 1) 7 in
    let power : 2 ^ 0 ≤ 2 ^ k =
      pow-le-pow_right {n = 2} (omega arith) {i = 0} {j = k} (omega arith) in
    let grows : 2 ^ k ≤ 2 ^ k' =
      pow-le-pow_right {n = 2} (omega arith) {i = k} {j = k'} (omega arith) in
    (omega (arith, power), omega arith, omega (arith, grows))

-- One call, with what it is given and the time.
pub data Operation : Type 0 where
  reserve release : (occurrence_id now : ℕ) → Operation
  claim : (occurrence_id lease_id now : ℕ) → Operation
  retry : (occurrence : ScheduledOccurrenceRecord) (uncertain : Bool) (code now : ℕ) → Operation
  block : (occurrence : ScheduledOccurrenceRecord) (code now : ℕ) → Operation
  finalize : (occurrence_id : ℕ) (input : OccurrenceSuccess) → Operation
  start : (schedule : PaymentScheduleRecord) (lease_id now : ℕ) → Operation
  deplete execute : (occurrence : ScheduledOccurrenceRecord) (now : ℕ) → Operation
  resolve : (occurrence : ScheduledOccurrenceRecord) (r : ResolvedRequest) (now : ℕ) → Operation
  suspend :
      (occurrence : ScheduledOccurrenceRecord) (p : PendingPayment) (reconciled : Bool) (now : ℕ)
      → Operation
  close : (schedule : PaymentScheduleRecord) (status : ClosedStatus) (code now : ℕ) → Operation

-- A call that throws leaves the collections as they were.
abbrev pub committed : Outcome ScheduleError ScheduleDb → ScheduleDb → ScheduleDb
committed (ok db') db = db'
committed (err e) db = db

abbrev pub with_claim :
    Option (ScheduledOccurrenceRecord × List ScheduledOccurrenceRecord) → ScheduleDb → ScheduleDb
with_claim none db = db
with_claim (some (o, l)) db = record db { occurrences = l }

module _ (limit_display spent_display : SessionRecord → ℕ) (calendar : Calendar)
    (receipt_id_for : ReceiptSourceType → ℕ → ℕ) (hash_receipt : PaymentReceipt → ℕ)
    (stable_occurrence_id : (schedule_id due_at : ℕ) → ℕ) where
  unfoldable pub apply_one : Operation → ScheduleDb → ScheduleDb
  unfolding reserve_occurrence_budget release_occurrence_budget mark_occurrence_retry
      block_occurrence claim_in_flight_occurrence finalize_occurrence_success claim_occurrence
      mark_depleted mark_executing store_request mark_uncertain close_schedule_for_pass_state
  apply_one (Operation.reserve id now) db =
      (reserve_occurrence_budget limit_display spent_display id now db).1
  apply_one (Operation.release id now) db =
      release_occurrence_budget limit_display spent_display id db
  apply_one (Operation.claim id lease_id now) db =
      with_claim (claim_in_flight_occurrence id lease_id now db.occurrences) db
  apply_one (Operation.retry o uncertain code now) db =
      mark_occurrence_retry o uncertain code now db
  apply_one (Operation.block o code now) db =
      block_occurrence limit_display spent_display o code now db
  apply_one (Operation.finalize id input) db =
      committed
        (finalize_occurrence_success limit_display spent_display calendar receipt_id_for
          hash_receipt id input db)
        db
  apply_one (Operation.start s lease_id now) db =
      with_claim (claim_occurrence stable_occurrence_id s lease_id now db.occurrences) db
  apply_one (Operation.deplete o now) db = mark_depleted o now db
  apply_one (Operation.execute o now) db = mark_executing o now db
  apply_one (Operation.resolve o r now) db = committed (store_request o r now db) db
  apply_one (Operation.suspend o p reconciled now) db = mark_uncertain o p reconciled now db
  apply_one (Operation.close s status code now) db =
      close_schedule_for_pass_state stable_occurrence_id limit_display spent_display s status code
        now db

  unfoldable pub apply_all : List Operation → ScheduleDb → ScheduleDb
  unfolding apply_one
  apply_all [] db = db
  apply_all (op ∷ ops) db = apply_all ops (apply_one op db)

  module _ (other : (session : ℕ) → ℕ) where
    with_claim-Held :
        (r : Option (ScheduledOccurrenceRecord × List ScheduledOccurrenceRecord)) (db : ScheduleDb)
        → ((o : ScheduledOccurrenceRecord) (l : List ScheduledOccurrenceRecord)
            → r ≡ some (o, l)
            → Held limit_display spent_display other (record db { occurrences = l }))
        → Held limit_display spent_display other db
        → Held limit_display spent_display other (with_claim r db)
    with_claim-Held none db k h = h
    with_claim-Held (some (o, l)) db k h = k o l refl

    committed-Held :
        (r : Outcome ScheduleError ScheduleDb) (db : ScheduleDb)
        → ((db' : ScheduleDb) → r ≡ ok db' → Held limit_display spent_display other db')
        → Held limit_display spent_display other db
        → Held limit_display spent_display other (committed r db)
    committed-Held (ok db') db k h = k db' refl
    committed-Held (err e) db k h = h

    apply_one-Held :
        (op : Operation) (db : ScheduleDb)
        → Held limit_display spent_display other db
        → Held limit_display spent_display other (apply_one op db)
    unfolding apply_one reserve_occurrence_budget release_occurrence_budget mark_occurrence_retry
        block_occurrence claim_in_flight_occurrence finalize_occurrence_success claim_occurrence
        mark_depleted mark_executing store_request mark_uncertain close_schedule_for_pass_state
    apply_one-Held (Operation.reserve id now) db h =
        reserve_occurrence_budget-Held limit_display spent_display other id now db h
    apply_one-Held (Operation.release id now) db h =
        release_occurrence_budget-Held limit_display spent_display other id db h
    apply_one-Held (Operation.claim id lease_id now) db h =
        with_claim-Held (claim_in_flight_occurrence id lease_id now db.occurrences) db
          (λ o l e. claimed-Held limit_display spent_display other id lease_id now db e h) h
    apply_one-Held (Operation.retry o uncertain code now) db h =
        mark_occurrence_retry-Held limit_display spent_display other o uncertain code now db h
    apply_one-Held (Operation.block o code now) db h =
        block_occurrence-Held limit_display spent_display other o code now db h
    apply_one-Held (Operation.finalize id input) db h =
        committed-Held
          (finalize_occurrence_success limit_display spent_display calendar receipt_id_for
            hash_receipt id input db)
          db
          (λ db' e.
            succeed_found-Held limit_display spent_display other calendar receipt_id_for
              hash_receipt input id (find_where (has_occurrence_id id) db.occurrences) db refl e h)
          h
    apply_one-Held (Operation.start s lease_id now) db h =
        with_claim-Held (claim_occurrence stable_occurrence_id s lease_id now db.occurrences) db
          (λ o l e.
            claim_occurrence-Held limit_display spent_display other stable_occurrence_id s lease_id
              now db e h)
          h
    apply_one-Held (Operation.deplete o now) db h =
        mark_depleted-Held limit_display spent_display other stable_occurrence_id o now db h
    apply_one-Held (Operation.execute o now) db h =
        mark_executing-Held limit_display spent_display other stable_occurrence_id o now db h
    apply_one-Held (Operation.resolve o r now) db h =
        committed-Held (store_request o r now db) db
          (λ db' e.
            store_request-Held limit_display spent_display other stable_occurrence_id o r now db e
              h)
          h
    apply_one-Held (Operation.suspend o p reconciled now) db h =
        mark_uncertain-Held limit_display spent_display other stable_occurrence_id o p reconciled
          now db h
    apply_one-Held (Operation.close s status code now) db h =
        close_schedule_for_pass_state-Held limit_display spent_display other stable_occurrence_id s
          status code now db h

    -- Over any sequence of these operations on the occurrences of schedules, errors included, whose
    -- updates come with any occurrence, time and executor's answer: a new claim and a claim in flight, the
    -- reservation in the pass and its release, the updates to depleted, to executing (when a request is
    -- stored and when it is submitted), to uncertain and to another try, the blocking, the settlement, and
    -- the closing of a schedule for the state of its pass. When before them every pass holds in reserve
    -- the amounts of its reserved occurrences and some other amount, for charges or usage events, it holds
    -- after them the amounts of the then reserved occurrences and the same other amount. The charge by
    -- which the Fiber executor pays is not one of these operations.
    pub apply_all-Held :
        (ops : List Operation) (db : ScheduleDb)
        → Held limit_display spent_display other db
        → Held limit_display spent_display other (apply_all ops db)
    unfolding apply_all
    apply_all-Held [] db h = h
    apply_all-Held (op ∷ ops) db h = apply_all-Held ops (apply_one op db) (apply_one-Held op db h)
