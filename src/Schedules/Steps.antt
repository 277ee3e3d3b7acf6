-- ===== src/Schedules/Steps.antt =====
-- The steps of an execution (src/services/paymentSchedule.service.ts) keep what occurrences hold.
use fiberpassbackend.Prelude.{
  ℕ, ◌≡◌, refl, sym, ap, ◌∙◌, Bool, Option, none, some, List, [], ◌∷◌, ◌++◌, arith, any, Bool-cases,
  inl, inr, ok,
}
use fiberpassbackend.Prelude.Store.{find_where, total}
use fiberpassbackend.Prelude.Documents.{ok-same, total-append}
use fiberpassbackend.Charges.Preservation.{same-some}
use fiberpassbackend.Metered.Records.{SessionRecord}
use fiberpassbackend.Schedules.Records.{
  ScheduledOccurrenceRecord, PaymentScheduleRecord, ScheduleDb,
}
use fiberpassbackend.Schedules.Budget.{is_leased, has_occurrence_id, lease}
use fiberpassbackend.Schedules.Execution.{
  new_occurrence, occurrence_clash, can_claim, claim_as, claim_occurrence, ClosedStatus,
  deplete_occurrence, mark_depleted, ResolvedRequest, resolve, has_request, store_request, submit,
  mark_executing, PendingPayment, suspend, mark_uncertain, block_if, close_schedule_for_pass_state,
  is_unsubmitted,
}
use fiberpassbackend.Schedules.Balance.{held, Held, held-idle}
use fiberpassbackend.Schedules.History.{
  one-total, total-update_one, same-Held, block_occurrence-Held,
}

-- What is claimed anew holds nothing.
claim_as-total :
    (i : ℕ) (new : ScheduledOccurrenceRecord) (lease_id now : ℕ)
    (l : List ScheduledOccurrenceRecord) {r : ScheduledOccurrenceRecord}
    {l' : List ScheduledOccurrenceRecord}
    → held i new ≡ 0
    → claim_as new lease_id now l ≡ some (r, l')
    → total (held i) l' ≡ total (held i) l
unfolding claim_as
claim_as-total i new lease_id now l {r} {l'} idle h =
    elim (Bool-cases (any (occurrence_clash new) l)) [
      | inl stands ↦
          one-total (held i) (can_claim new.occurrence_id now) (lease lease_id now) l {b = r}
            {l' = l'} (rw stands at h) (λ a. refl)
      | inr fresh ↦
          let written : some (new, l ++ (new ∷ [])) ≡ some (r, l') = rw fresh at h in
          let same : l ++ (new ∷ []) ≡ l' =
            ap (λ (x : ScheduledOccurrenceRecord × List ScheduledOccurrenceRecord). x.1)
              (same-some written) in
          sym (ap (total (held i)) same) ∙ omega (arith, total-append (held i) l new, idle)
    ]

module _ (limit_display spent_display : SessionRecord → ℕ) (other : (session : ℕ) → ℕ)
    (stable_occurrence_id : (schedule_id due_at : ℕ) → ℕ) where
  pub claim_occurrence-Held :
      (s : PaymentScheduleRecord) (lease_id now : ℕ) (db : ScheduleDb)
      {r : ScheduledOccurrenceRecord} {l : List ScheduledOccurrenceRecord}
      → claim_occurrence stable_occurrence_id s lease_id now db.occurrences ≡ some (r, l)
      → Held limit_display spent_display other db
      → Held limit_display spent_display other (record db { occurrences = l })
  unfolding claim_occurrence
  claim_occurrence-Held s lease_id now db {r} {l} e h =
      let new =
        new_occurrence s (stable_occurrence_id s.schedule_id s.next_occurrence_at) lease_id now in
      same-Held limit_display spent_display other db (record db { occurrences = l }) refl
        (λ i.
          claim_as-total i new lease_id now db.occurrences {r = r} {l' = l} (held-idle i new refl)
            e)
        h

  pub mark_depleted-Held :
      (o : ScheduledOccurrenceRecord) (now : ℕ) (db : ScheduleDb)
      → Held limit_display spent_display other db
      → Held limit_display spent_display other (mark_depleted o now db)
  unfolding mark_depleted
  mark_depleted-Held o now db h =
      same-Held limit_display spent_display other db (mark_depleted o now db) refl
        (λ i.
          total-update_one (held i) (has_occurrence_id o.occurrence_id) (deplete_occurrence now)
            db.occurrences (λ a. refl))
        h

  pub store_request-Held :
      (o : ScheduledOccurrenceRecord) (r : ResolvedRequest) (now : ℕ) (db : ScheduleDb)
      {db' : ScheduleDb}
      → store_request o r now db ≡ ok db'
      → Held limit_display spent_display other db
      → Held limit_display spent_display other db'
  unfolding store_request
  store_request-Held o r now db {db'} e h =
      elim (Bool-cases (any (has_request r.payment_request_hash o) db.occurrences)) [
        | inl reused ↦ ground arith
        | inr fresh ↦
            let same = ok-same (rw fresh at e) in
            same-Held limit_display spent_display other db db' (sym (ap ScheduleDb.sessions same))
              (λ i.
                ap (λ (x : ScheduleDb). total (held i) x.occurrences) (sym same)
                ∙ total-update_one (held i) (is_leased o) (resolve r now) db.occurrences
                    (λ a. refl))
              h
      ]

  pub mark_executing-Held :
      (o : ScheduledOccurrenceRecord) (now : ℕ) (db : ScheduleDb)
      → Held limit_display spent_display other db
      → Held limit_display spent_display other (mark_executing o now db)
  unfolding mark_executing
  mark_executing-Held o now db h =
      same-Held limit_display spent_display other db (mark_executing o now db) refl
        (λ i. total-update_one (held i) (is_leased o) (submit now) db.occurrences (λ a. refl)) h

  pub mark_uncertain-Held :
      (o : ScheduledOccurrenceRecord) (p : PendingPayment) (reconciled : Bool) (now : ℕ)
      (db : ScheduleDb)
      → Held limit_display spent_display other db
      → Held limit_display spent_display other (mark_uncertain o p reconciled now db)
  unfolding mark_uncertain
  mark_uncertain-Held o p reconciled now db h =
      same-Held limit_display spent_display other db (mark_uncertain o p reconciled now db) refl
        (λ i.
          total-update_one (held i) (has_occurrence_id o.occurrence_id) (suspend p reconciled now)
            db.occurrences (λ a. refl))
        h

  block_if-Held :
      (o : Option ScheduledOccurrenceRecord) (code now : ℕ) (db : ScheduleDb)
      → Held limit_display spent_display other db
      → Held limit_display spent_display other
          (block_if stable_occurrence_id limit_display spent_display o code now db)
  unfolding block_if
  block_if-Held none code now db h = h
  block_if-Held (some o) code now db h =
      block_occurrence-Held limit_display spent_display other o code now db h

  pub close_schedule_for_pass_state-Held :
      (s : PaymentScheduleRecord) (status : ClosedStatus) (code now : ℕ) (db : ScheduleDb)
      → Held limit_display spent_display other db
      → Held limit_display spent_display other (
          close_schedule_for_pass_state stable_occurrence_id limit_display spent_display s status
            code now db)
  unfolding close_schedule_for_pass_state
  close_schedule_for_pass_state-Held s status code now db h =
      let id = stable_occurrence_id s.schedule_id s.next_occurrence_at in
      let found = find_where (is_unsubmitted id) db.occurrences in
      same-Held limit_display spent_display other
        (block_if stable_occurrence_id limit_display spent_display found code now db)
        (close_schedule_for_pass_state stable_occurrence_id limit_display spent_display s status
          code now db)
        refl (λ i. refl) (block_if-Held found code now db h)
