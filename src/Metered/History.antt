-- ===== src/Metered/History.antt =====
-- The rounds of the worker (src/services/meteredPaymentWorker.service.ts) and what grants hold in reserve.
use fiberpassbackend.Prelude.{
  ℕ, ◌≡◌, refl, Bool, true, false, ◌&&◌, not, Option, none, some, List, if◌then◌else◌, Outcome, ok,
  err, any, ltb,
}
use fiberpassbackend.Prelude.Store.{find_where, update_where}
use fiberpassbackend.Funding.Domain.{is_some}
use fiberpassbackend.Charges.Receipts.{or_else}
use fiberpassbackend.Charges.Records.{ReceiptSourceType, PaymentReceipt}
use fiberpassbackend.Metered.Records.{
  MeteredGrantRecord, MeteredBatchRecord, PaymentDestinationRecord, MeteredDb, MeteredError,
}
use fiberpassbackend.Metered.Release.{FinalStatus, has_grant_id, release_metered_batch_reservation}
use fiberpassbackend.Metered.Finalization.{
  ExecutionStatus, MeteredExecutionResult, finalize_metered_batch,
}
use fiberpassbackend.Metered.Worker.{is_leased, resolved}
use fiberpassbackend.Metered.Run.{
  Failure, Resolved, Execution, MeteredBatchExecutor, Tally, add_released, add_succeeded, Run,
  after, submit_if, has_request, conclude, executed, execute_stored, pay, resolve_and_pay,
  settle_again, process_granted, recover, claimed_as, uncertain_code, inactive_code, failed_code,
  run_claimed, public_failure, is_inactive, is_destination_of, matches,
}
use fiberpassbackend.Metered.Balance.{Held}
use fiberpassbackend.Metered.Preservation.{release_metered_batch_reservation-Held}
use fiberpassbackend.Metered.Settled.{finalize_metered_batch-Held}
use fiberpassbackend.Metered.Steps.{
  update-Follows, batches-Held, retry_metered_batch-Held, mark_submitted-Held, mark_settling-Held,
}

after-Held :
    (o : Outcome MeteredError MeteredDb) (t : Tally) (db : MeteredDb)
    → ((x : MeteredDb) → o ≡ ok x → Held x)
    → Held db
    → Held (after o t db).1
after-Held (ok x) t db k h = k x refl
after-Held (err e) t db k h = h

submit_if-Held :
    (o : Option (Option ℕ)) (b : MeteredBatchRecord) (now : ℕ) (db : MeteredDb)
    → Held db
    → Held (submit_if o b now db)
submit_if-Held none b now db h = h
submit_if-Held (some id) b now db h = mark_submitted-Held b id now db h

pub if-Held :
    {E A : Type 0} (b : Bool) (x y : Outcome E A × MeteredDb)
    → Held x.1
    → Held y.1
    → Held (if b then x else y).1
if-Held true x y hx hy = hx
if-Held false x y hx hy = hy

released-Held :
    (id : ℕ) (final : FinalStatus) (code now : ℕ) (t : Tally) (db : MeteredDb)
    → Held db
    → Held (after (release_metered_batch_reservation id final code now db) t db).1
released-Held id final code now t db h =
    after-Held (release_metered_batch_reservation id final code now db) t db
      (λ x e. release_metered_batch_reservation-Held id final code now db e h) h

claimed_as-Held : (r : Run Tally) → Held r.1 → Held (claimed_as r).1
claimed_as-Held (ok t, db) h = h
claimed_as-Held (err e, db) h = h

module _ (receipt_id_for : ReceiptSourceType → ℕ → ℕ) (hash_receipt : PaymentReceipt → ℕ) where
  conclude-Held :
      (s : ExecutionStatus) (b : MeteredBatchRecord) (result : MeteredExecutionResult)
      (submitted : Bool) (now : ℕ) (db : MeteredDb)
      → Held db
      → Held (conclude receipt_id_for hash_receipt s b result submitted now db).1
  unfolding conclude
  conclude-Held ExecutionStatus.succeeded b result submitted now db h =
      after-Held (finalize_metered_batch receipt_id_for hash_receipt b.batch_id result now db)
        add_succeeded db
        (λ x e.
          finalize_metered_batch-Held receipt_id_for hash_receipt b.batch_id result now db e h)
        h
  conclude-Held ExecutionStatus.failed b result submitted now db h =
      released-Held b.batch_id FinalStatus.failed (or_else result.failure_code failed_code) now
        add_released db h
  conclude-Held ExecutionStatus.pending b result submitted now db h =
      retry_metered_batch-Held b submitted uncertain_code now db h

  executed-Held :
      (o : Outcome Failure MeteredExecutionResult) (b : MeteredBatchRecord) (submitted : Bool)
      (now : ℕ) (db : MeteredDb)
      → Held db
      → Held (executed receipt_id_for hash_receipt o b submitted now db).1
  unfolding executed
  executed-Held (err f) b submitted now db h = h
  executed-Held (ok result) b submitted now db h =
      conclude-Held result.status b result submitted now db h

  stored-Held :
      (o : Option (MeteredBatchRecord × List MeteredBatchRecord)) (b : MeteredBatchRecord)
      (r : Resolved) (e : Execution) (now : ℕ) (db : MeteredDb)
      → update_where (is_leased b) (resolved r.payment_request_hash r.payment_hash) db.batches ≡ o
      → Held db
      → Held (execute_stored receipt_id_for hash_receipt o b e now db).1
  unfolding execute_stored
  stored-Held none b r e now db is h = h
  stored-Held (some (c, l)) b r e now db is h =
      executed-Held e.outcome b (is_some e.submitted) now _ (
        submit_if-Held e.submitted b now _ (
          mark_settling-Held b.batch_id now _ (
            batches-Held db l
              (update-Follows (is_leased b) (resolved r.payment_request_hash r.payment_hash)
                db.batches (λ x. (refl, refl)) is)
              h)))

  pay-Held :
      (executor : MeteredBatchExecutor) (o : Outcome Failure Resolved) (b : MeteredBatchRecord)
      (now : ℕ) (db : MeteredDb)
      → Held db
      → Held (pay receipt_id_for hash_receipt executor o b now db).1
  unfolding pay
  pay-Held executor (err f) b now db h = h
  pay-Held executor (ok r) b now db h =
      if-Held (any (has_request r.payment_request_hash b) db.batches) _ _ h
        (stored-Held _ b r (executor.execute b r) now db refl h)

  resolve_and_pay-Held :
      (executor : MeteredBatchExecutor) (o : Option PaymentDestinationRecord)
      (b : MeteredBatchRecord) (now : ℕ) (db : MeteredDb)
      → Held db
      → Held (resolve_and_pay receipt_id_for hash_receipt executor o b now db).1
  unfolding resolve_and_pay
  resolve_and_pay-Held executor none b now db h = h
  resolve_and_pay-Held executor (some d) b now db h =
      if-Held (not (matches b d)) _ _ h (pay-Held executor (executor.resolve b d) b now db h)

  settle_again-Held :
      (executor : MeteredBatchExecutor) (o : Outcome Failure (Option MeteredExecutionResult))
      (b : MeteredBatchRecord) (now : ℕ) (db : MeteredDb)
      → Held db
      → Held (settle_again receipt_id_for hash_receipt executor o b now db).1
  unfolding settle_again
  settle_again-Held executor (err f) b now db h = h
  settle_again-Held executor (ok none) b now db h =
      resolve_and_pay-Held executor (find_where (is_destination_of b) db.destinations) b now db h
  settle_again-Held executor (ok (some result)) b now db h =
      conclude-Held result.status b result true now db h

  process_granted-Held :
      (executor : MeteredBatchExecutor) (o : Option MeteredGrantRecord) (b : MeteredBatchRecord)
      (now : ℕ) (db : MeteredDb)
      → Held db
      → Held (process_granted receipt_id_for hash_receipt executor o b now db).1
  unfolding process_granted
  process_granted-Held executor none b now db h = h
  process_granted-Held executor (some g) b now db h =
      if-Held (is_inactive g.status && not (is_some b.submitted_at)) _ _
        (released-Held b.batch_id FinalStatus.released inactive_code now add_released db h)
        (if-Held (is_some b.submitted_at) _ _
          (settle_again-Held executor (executor.lookup b) b now db h)
          (resolve_and_pay-Held executor (find_where (is_destination_of b) db.destinations) b now db
            h))

  recover-Held :
      (b : MeteredBatchRecord) (now : ℕ) (r : Run Tally)
      → Held r.1
      → Held (recover receipt_id_for hash_receipt b now r).1
  unfolding recover
  recover-Held b now (ok t, db) h = h
  recover-Held b now (err e, db) h =
      if-Held ((public_failure e).retryable && ltb b.attempts b.max_attempts) _ _
        (retry_metered_batch-Held b _ (public_failure e).code now db h)
        (released-Held b.batch_id FinalStatus.failed (public_failure e).code now add_released db h)

  pub run_claimed-Held :
      (executor : MeteredBatchExecutor) (now : ℕ) (c : Option MeteredBatchRecord × MeteredDb)
      → Held c.1
      → Held (run_claimed receipt_id_for hash_receipt executor now c).1
  unfolding run_claimed
  run_claimed-Held executor now (none, db) h = h
  run_claimed-Held executor now (some b, db) h = claimed_as-Held _ (
      recover-Held b now _
        (process_granted-Held executor (find_where (has_grant_id b.grant_id) db.grants) b now db h))
