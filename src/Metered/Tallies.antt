-- ===== src/Metered/Tallies.antt =====
-- A round of the worker counts what it does (`runMeteredPaymentWorker` of
-- src/services/meteredPaymentWorker.service.ts).
use fiberpassbackend.Prelude.{
  ℕ, ◌≡◌, refl, subst, Bool, true, ◌&&◌, not, Option, none, some, List, arith, ltb, any, Bool-cases,
  Option-cases, inl, inr, Outcome, ok, err,
}
use fiberpassbackend.Prelude.Store.{find_where, update_where}
use fiberpassbackend.Prelude.Documents.{ok-same, save, total-save}
use fiberpassbackend.Funding.Domain.{is_some}
use fiberpassbackend.Charges.Receipts.{or_else}
use fiberpassbackend.Charges.Records.{ReceiptSourceType, PaymentReceipt}
use fiberpassbackend.Metered.Records.{
  MeteredGrantRecord, MeteredBatchRecord, PaymentDestinationRecord, MeteredDb,
}
use fiberpassbackend.Metered.Batches.{has_batch_id}
use fiberpassbackend.Metered.Release.{FinalStatus, has_grant_id}
use fiberpassbackend.Metered.Finalization.{
  ExecutionStatus, MeteredExecutionResult, is_succeeded, settle_batch, finalize_found,
  finalize_metered_batch,
}
use fiberpassbackend.Metered.Worker.{
  first_claimable, claim, updated, claim_metered_batch, is_leased, retry_metered_batch, resolved,
  mark_settling,
}
use fiberpassbackend.Metered.Run.{
  Failure, Resolved, Execution, MeteredBatchExecutor, Tally, add_succeeded, add_pending,
  add_retried, add_skipped, Run, has_request, conclude, executed, execute_stored, pay,
  resolve_and_pay, settle_again, process_granted, recover, claimed_as, uncertain_code,
  inactive_code, failed_code, run_claimed, public_failure, is_inactive, is_destination_of, matches,
  was_submitted,
}
use fiberpassbackend.Metered.Preservation.{own_batch}
use fiberpassbackend.Metered.Settled.{settle_open-Settlement}
use fiberpassbackend.Metered.Counts.{
  success_of, release_of, Within, Round, Fair, one-succeeded, one-pending, one-retried, one-skipped,
  idle-Round, if-Fair, batches-Within, retry_metered_batch-Within, mark_settling-Within,
  submit_if-Within, after-Fair, release-Fair,
}

module _ (s c : ℕ) (receipt_id_for : ReceiptSourceType → ℕ → ℕ)
    (hash_receipt : PaymentReceipt → ℕ) where
  -- A batch that is saved as settled counts as one.
  finalize_found-Round :
      (id : ℕ) (o : Option MeteredBatchRecord) (result : MeteredExecutionResult) (now : ℕ)
      (db : MeteredDb) {db' : MeteredDb}
      → find_where (has_batch_id id) db.batches ≡ o
      → finalize_found receipt_id_for hash_receipt o result now db ≡ ok db'
      → Within s c db
      → Round s c add_succeeded db'
  unfolding finalize_found
  finalize_found-Round id none result now db {db'} f e h =
      subst (Round s c add_succeeded) (ok-same e) (idle-Round s c add_succeeded db one-succeeded h)
  finalize_found-Round id (some b) result now db {db'} f e h =
      elim (Bool-cases (is_succeeded receipt_id_for hash_receipt b.status)) [
        | inl done ↦
            let same : ok db ≡ ok db' = rw done at e in
            subst (Round s c add_succeeded) (ok-same same)
              (idle-Round s c add_succeeded db one-succeeded h)
        | inr unpaid ↦
            let own = own_batch id db.batches f in
            let t =
              settle_open-Settlement receipt_id_for hash_receipt b result now db own
                (rw unpaid at e) in
            let b' = settle_batch result now b in
            let batches : db'.batches ≡ save (has_batch_id b.batch_id) b' db.batches =
              subst (λ x. db'.batches ≡ save (has_batch_id b.batch_id) x db.batches) t.is_batch
                t.closed.batches in
            let moved =
              total-save (λ x. success_of x.status) (has_batch_id b.batch_id) b' db.batches own in
            let moved' =
              total-save (λ x. release_of x.status) (has_batch_id b.batch_id) b' db.batches own in
            record {
              once = λ r. omega arith;
              claims = λ r. refl;
              paid = λ r. rw batches (omega (arith, moved, h.paid));
              freed = λ r. rw batches (omega (arith, moved', h.freed));
            }
      ]

  conclude-Fair :
      (k : ExecutionStatus) (b : MeteredBatchRecord) (result : MeteredExecutionResult)
      (submitted : Bool) (now : ℕ) (db : MeteredDb)
      → Within s c db
      → Fair s c (conclude receipt_id_for hash_receipt k b result submitted now db)
  unfolding conclude finalize_metered_batch
  conclude-Fair ExecutionStatus.succeeded b result submitted now db h =
      after-Fair s c (finalize_metered_batch receipt_id_for hash_receipt b.batch_id result now db)
        add_succeeded db
        (λ x e.
          finalize_found-Round b.batch_id (find_where (has_batch_id b.batch_id) db.batches) result
            now db refl e h)
        h
  conclude-Fair ExecutionStatus.failed b result submitted now db h =
      release-Fair s c b.batch_id FinalStatus.failed (or_else result.failure_code failed_code) now
        db h
  conclude-Fair ExecutionStatus.pending b result submitted now db h =
      idle-Round s c add_pending (retry_metered_batch b submitted uncertain_code now db) one-pending
        (retry_metered_batch-Within s c b submitted uncertain_code now db h)

  executed-Fair :
      (o : Outcome Failure MeteredExecutionResult) (b : MeteredBatchRecord) (submitted : Bool)
      (now : ℕ) (db : MeteredDb)
      → Within s c db
      → Fair s c (executed receipt_id_for hash_receipt o b submitted now db)
  unfolding executed
  executed-Fair (err f) b submitted now db h = h
  executed-Fair (ok result) b submitted now db h =
      conclude-Fair result.status b result submitted now db h

  execute_stored-Fair :
      (o : Option (MeteredBatchRecord × List MeteredBatchRecord)) (b : MeteredBatchRecord)
      (r : Resolved) (e : Execution) (now : ℕ) (db : MeteredDb)
      → update_where (is_leased b) (resolved r.payment_request_hash r.payment_hash) db.batches ≡ o
      → Within s c db
      → Fair s c (execute_stored receipt_id_for hash_receipt o b e now db)
  unfolding execute_stored
  execute_stored-Fair none b r e now db is h = idle-Round s c add_skipped db one-skipped h
  execute_stored-Fair (some (b', l)) b r e now db is h =
      let stored =
        batches-Within s c (is_leased b) (resolved r.payment_request_hash r.payment_hash) db
          {b = b'} {l = l} is (λ a. omega arith) (λ a. omega arith) h in
      let settling = mark_settling-Within s c b.batch_id now (record db { batches = l }) stored in
      let sent =
        submit_if-Within s c e.submitted b now
          (mark_settling b.batch_id now (record db { batches = l })) settling in
      executed-Fair e.outcome b (is_some e.submitted) now _ sent

  pay-Fair :
      (executor : MeteredBatchExecutor) (o : Outcome Failure Resolved) (b : MeteredBatchRecord)
      (now : ℕ) (db : MeteredDb)
      → Within s c db
      → Fair s c (pay receipt_id_for hash_receipt executor o b now db)
  unfolding pay
  pay-Fair executor (err f) b now db h = h
  pay-Fair executor (ok r) b now db h =
      if-Fair s c (any (has_request r.payment_request_hash b) db.batches) _ _ h
        (execute_stored-Fair _ b r (executor.execute b r) now db refl h)

  resolve_and_pay-Fair :
      (executor : MeteredBatchExecutor) (o : Option PaymentDestinationRecord)
      (b : MeteredBatchRecord) (now : ℕ) (db : MeteredDb)
      → Within s c db
      → Fair s c (resolve_and_pay receipt_id_for hash_receipt executor o b now db)
  unfolding resolve_and_pay
  resolve_and_pay-Fair executor none b now db h = h
  resolve_and_pay-Fair executor (some d) b now db h =
      if-Fair s c (not (matches b d)) _ _ h (pay-Fair executor (executor.resolve b d) b now db h)

  settle_again-Fair :
      (executor : MeteredBatchExecutor) (o : Outcome Failure (Option MeteredExecutionResult))
      (b : MeteredBatchRecord) (now : ℕ) (db : MeteredDb)
      → Within s c db
      → Fair s c (settle_again receipt_id_for hash_receipt executor o b now db)
  unfolding settle_again
  settle_again-Fair executor (err f) b now db h = h
  settle_again-Fair executor (ok none) b now db h =
      resolve_and_pay-Fair executor (find_where (is_destination_of b) db.destinations) b now db h
  settle_again-Fair executor (ok (some result)) b now db h =
      conclude-Fair result.status b result true now db h

  process_granted-Fair :
      (executor : MeteredBatchExecutor) (o : Option MeteredGrantRecord) (b : MeteredBatchRecord)
      (now : ℕ) (db : MeteredDb)
      → Within s c db
      → Fair s c (process_granted receipt_id_for hash_receipt executor o b now db)
  unfolding process_granted
  process_granted-Fair executor none b now db h = h
  process_granted-Fair executor (some g) b now db h =
      if-Fair s c (is_inactive g.status && not (is_some b.submitted_at)) _ _
        (release-Fair s c b.batch_id FinalStatus.released inactive_code now db h)
        (if-Fair s c (is_some b.submitted_at) _ _
          (settle_again-Fair executor (executor.lookup b) b now db h)
          (resolve_and_pay-Fair executor (find_where (is_destination_of b) db.destinations) b now db
            h))

  recover-Fair :
      (b : MeteredBatchRecord) (now : ℕ) (r : Run Tally)
      → Fair s c r
      → Fair s c (recover receipt_id_for hash_receipt b now r)
  unfolding recover
  recover-Fair b now (ok t, db) h = h
  recover-Fair b now (err e, db) h =
      let f = public_failure e in
      let sent =
        was_submitted receipt_id_for hash_receipt
          (find_where (has_batch_id b.batch_id) db.batches) in
      if-Fair s c (f.retryable && ltb b.attempts b.max_attempts) _ _
        (idle-Round s c add_retried (retry_metered_batch b sent f.code now db) one-retried
          (retry_metered_batch-Within s c b sent f.code now db h))
        (release-Fair s c b.batch_id FinalStatus.failed f.code now db h)

  claimed-Within :
      (o : Option (MeteredBatchRecord × List MeteredBatchRecord)) (b : MeteredBatchRecord)
      (lease now : ℕ) (db : MeteredDb)
      → update_where (has_batch_id b.batch_id) (claim lease now) db.batches ≡ o
      → Within s c db
      → Within s c (updated o db).1
  claimed-Within none b lease now db e h = h
  claimed-Within (some (b', l)) b lease now db e h =
      batches-Within s c (has_batch_id b.batch_id) (claim lease now) db {b = b'} {l = l} e
        (λ a. omega arith) (λ a. omega arith) h

  pub claim_metered_batch-Within :
      (lease now : ℕ) (db : MeteredDb)
      → Within s c db
      → Within s c (claim_metered_batch lease now db).1
  unfolding claim_metered_batch
  claim_metered_batch-Within lease now db h = elim (Option-cases (first_claimable now db.batches)) [
    | inl absent ↦ rw (absent, claim_metered_batch) h
    | inr (b, is) ↦
        rw (is, claim_metered_batch)
          (claimed-Within (update_where (has_batch_id b.batch_id) (claim lease now) db.batches) b
            lease now db refl h)
  ]

  -- A round, or the end of the loop.
  abbrev pub Ends : Run (Option Tally) → Type 0
  Ends (ok none, db) = Within s c db
  Ends (ok (some add), db) = Round s c add db
  Ends (err e, db) = Within s c db

  claimed_as-Ends : (r : Run Tally) → Fair s c r → Ends (claimed_as r)
  claimed_as-Ends (ok t, db) h = h
  claimed_as-Ends (err e, db) h = h

  pub run_claimed-Ends :
      (executor : MeteredBatchExecutor) (now : ℕ) (k : Option MeteredBatchRecord × MeteredDb)
      → Within s c k.1
      → Ends (run_claimed receipt_id_for hash_receipt executor now k)
  unfolding run_claimed
  run_claimed-Ends executor now (none, db) h = h
  run_claimed-Ends executor now (some b, db) h = claimed_as-Ends _ (
      recover-Fair b now _
        (process_granted-Fair executor (find_where (has_grant_id b.grant_id) db.grants) b now db h))
