-- ===== src/Metered/Run.antt =====
-- The worker loop (`runMeteredPaymentWorker`, `publicFailure` of
-- src/services/meteredPaymentWorker.service.ts). The connectors behind `MeteredBatchExecutor` and the
-- resolver of payment requests are parameters; each call that they make out of the process returns or
-- throws.
use fiberpassbackend.Prelude.{
  ℕ, zero, suc, ◌+◌, Bool, true, false, ◌&&◌, not, Option, none, some, List, ◌==◌, ltb,
  if◌then◌else◌, Outcome, ok, err, any, min, max,
}
use fiberpassbackend.Prelude.Store.{find_where, update_where}
use fiberpassbackend.Funding.Domain.{is_some}
use fiberpassbackend.Charges.Receipts.{or_else}
use fiberpassbackend.Charges.Records.{ReceiptSourceType, PaymentReceipt, PaymentRail}
use fiberpassbackend.Metered.Records.{
  MeteredGrantStatus, MeteredGrantRecord, MeteredBatchRecord, PaymentDestinationRecord, MeteredDb,
  MeteredError,
}
use fiberpassbackend.Metered.Batches.{has_batch_id}
use fiberpassbackend.Metered.Release.{FinalStatus, has_grant_id, release_metered_batch_reservation}
use fiberpassbackend.Metered.Finalization.{
  ExecutionStatus, MeteredExecutionResult, finalize_metered_batch,
}
use fiberpassbackend.Metered.Worker.{
  claim_metered_batch, is_leased, retry_metered_batch, mark_settling, mark_submitted, resolved,
}

pub record Failure : Type 0 where
  pub code : ℕ
  pub retryable : Bool

-- An error of the metered operations, or of a connector with what `publicFailure` reads of it.
pub data WorkerError : Type 0 where
  metered : MeteredError → WorkerError
  outside : Failure → WorkerError

-- The codes that the worker itself gives.
abbrev code_of : MeteredError → ℕ
code_of MeteredError.duplicate_key = 10
code_of _ = 11

-- An `ApiError` below 500 is final; a duplicate key and a plain `Error` are not.
abbrev is_retryable : MeteredError → Bool
is_retryable MeteredError.legacy_ledger_limit = false
is_retryable MeteredError.atomic_amount_invalid = false
is_retryable MeteredError.grant_not_found = false
is_retryable MeteredError.destination_inactive = false
is_retryable MeteredError.destination_mismatch = false
is_retryable _ = true

abbrev pub public_failure : WorkerError → Failure
public_failure (WorkerError.metered e) = record { code = code_of e; retryable = is_retryable e }
public_failure (WorkerError.outside f) = f

pub record Resolved : Type 0 where
  pub payment_request_hash : ℕ
  pub payment_hash : Option ℕ

-- What a call of `execute` does: whether it has called `markSubmitted`, with which provider id, and how
-- it ends.
pub record Execution : Type 0 where
  pub submitted : Option (Option ℕ)
  pub outcome : Outcome Failure MeteredExecutionResult

pub record MeteredBatchExecutor : Type 0 where
  pub execute : MeteredBatchRecord → Resolved → Execution
  pub lookup : MeteredBatchRecord → Outcome Failure (Option MeteredExecutionResult)
  pub resolve : MeteredBatchRecord → PaymentDestinationRecord → Outcome Failure Resolved

pub record MeteredWorkerResult : Type 0 where
  pub claimed : ℕ
  pub succeeded : ℕ
  pub pending : ℕ
  pub retried : ℕ
  pub released : ℕ
  pub skipped : ℕ

-- What a round adds to the counters of the output, after the count of the claim.
abbrev pub Tally : Type 0
Tally = MeteredWorkerResult → MeteredWorkerResult

abbrev pub add_succeeded : Tally
add_succeeded r = record r { succeeded = r.succeeded + 1 }

abbrev pub add_pending : Tally
add_pending r = record r { pending = r.pending + 1 }

abbrev pub add_retried : Tally
add_retried r = record r { retried = r.retried + 1 }

abbrev pub add_released : Tally
add_released r = record r { released = r.released + 1 }

abbrev pub add_skipped : Tally
add_skipped r = record r { skipped = r.skipped + 1 }

-- A run of several writes: an error keeps what the earlier ones have written.
abbrev pub Run : Type 0 → Type 0
Run A = Outcome WorkerError A × MeteredDb

abbrev pub after : Outcome MeteredError MeteredDb → Tally → MeteredDb → Run Tally
after (ok db') t db = (ok t, db')
after (err e) t db = (err (WorkerError.metered e), db)

abbrev pub claimed_as : Run Tally → Run (Option Tally)
claimed_as (ok t, db) = (ok (some t), db)
claimed_as (err e, db) = (err e, db)

abbrev pub is_inactive : MeteredGrantStatus → Bool
is_inactive MeteredGrantStatus.revoked = true
is_inactive MeteredGrantStatus.expired = true
is_inactive _ = false

-- 'METERED_SETTLEMENT_UNCERTAIN', 'METERED_SETTLEMENT_FAILED', 'METERED_GRANT_INACTIVE'
abbrev pub uncertain_code : ℕ
uncertain_code = 20

abbrev pub failed_code : ℕ
failed_code = 21

abbrev pub inactive_code : ℕ
inactive_code = 22

abbrev pub same_rail : PaymentRail → PaymentRail → Bool
same_rail PaymentRail.lightning PaymentRail.lightning = true
same_rail PaymentRail.bitcoin_onchain PaymentRail.bitcoin_onchain = true
same_rail PaymentRail.fiber PaymentRail.fiber = true
same_rail PaymentRail.ckb_onchain PaymentRail.ckb_onchain = true
same_rail _ _ = false

abbrev pub is_destination_of : MeteredBatchRecord → PaymentDestinationRecord → Bool
is_destination_of b d =
    d.destination_id == b.destination_id
    && d.recipient_id == b.recipient_id
    && d.owner_wallet_id == b.owner_wallet_id
    && d.is_active
    && d.reusable

abbrev pub matches : MeteredBatchRecord → PaymentDestinationRecord → Bool
matches b d = same_rail d.rail b.rail && d.network == b.network && d.asset_id == b.asset_id

abbrev pub has_request : ℕ → MeteredBatchRecord → MeteredBatchRecord → Bool
has_request hash b c =
    not (c.batch_id == b.batch_id)
    && (elim c.payment_request_hash [ some h ↦ h == hash | none ↦ false ])

abbrev pub submit_if : Option (Option ℕ) → MeteredBatchRecord → ℕ → MeteredDb → MeteredDb
submit_if none b now db = db
submit_if (some id) b now db = mark_submitted b id now db

abbrev pub nothing_done : MeteredWorkerResult
nothing_done = record {
  claimed = 0;
  succeeded = 0;
  pending = 0;
  retried = 0;
  released = 0;
  skipped = 0;
}

abbrev pub tallied : Tally → MeteredWorkerResult → MeteredWorkerResult
tallied add r = add (record r { claimed = r.claimed + 1 })

-- What follows a round: an end of the loop, or the next round.
abbrev pub continued :
    Run (Option Tally)
    → MeteredWorkerResult
    → (Tally → MeteredDb → Run MeteredWorkerResult)
    → Run MeteredWorkerResult
continued (ok none, db) output next = (ok output, db)
continued (ok (some t), db) output next = next t db
continued (err e, db) output next = (err e, db)

-- Between 1 and 100 rounds, 10 by default.
abbrev pub rounds : Option ℕ → ℕ
rounds limit = max 1 (min 100 (or_else limit 10))

module _ (receipt_id_for : ReceiptSourceType → ℕ → ℕ) (hash_receipt : PaymentReceipt → ℕ) where
  -- A result of the executor, by its status.
  unfoldable pub conclude :
      ExecutionStatus
      → MeteredBatchRecord
      → MeteredExecutionResult
      → (submitted : Bool) → (now : ℕ) → MeteredDb
      → Run Tally
  unfolding finalize_metered_batch release_metered_batch_reservation retry_metered_batch
  conclude ExecutionStatus.succeeded b result submitted now db =
      after (finalize_metered_batch receipt_id_for hash_receipt b.batch_id result now db)
        add_succeeded db
  conclude ExecutionStatus.failed b result submitted now db =
      after
        (release_metered_batch_reservation b.batch_id FinalStatus.failed
          (or_else result.failure_code failed_code) now db)
        add_released db
  conclude ExecutionStatus.pending b result submitted now db =
      (ok add_pending, retry_metered_batch b submitted uncertain_code now db)

  unfoldable pub executed :
      Outcome Failure MeteredExecutionResult
      → MeteredBatchRecord
      → (submitted : Bool) → (now : ℕ) → MeteredDb
      → Run Tally
  unfolding conclude
  executed (err f) b submitted now db = (err (WorkerError.outside f), db)
  executed (ok result) b submitted now db = conclude result.status b result submitted now db

  -- A worker that has lost its lease finds no batch to store the request in, and skips.
  unfoldable pub execute_stored :
      Option (MeteredBatchRecord × List MeteredBatchRecord)
      → MeteredBatchRecord
      → Execution
      → (now : ℕ) → MeteredDb
      → Run Tally
  unfolding executed mark_settling mark_submitted
  execute_stored none b e now db = (ok add_skipped, db)
  execute_stored (some (stored, batches)) b e now db =
      executed e.outcome b (is_some e.submitted) now (
        submit_if e.submitted b now
          (mark_settling b.batch_id now (record db { batches = batches })))

  -- The payment request is stored under a unique index.
  unfoldable pub pay :
      MeteredBatchExecutor
      → Outcome Failure Resolved
      → MeteredBatchRecord
      → (now : ℕ) → MeteredDb
      → Run Tally
  unfolding execute_stored
  pay executor (err f) b now db = (err (WorkerError.outside f), db)
  pay executor (ok r) b now db =
      if any (has_request r.payment_request_hash b) db.batches
      then (err (WorkerError.metered MeteredError.duplicate_key), db)
      else execute_stored
          (update_where (is_leased b) (resolved r.payment_request_hash r.payment_hash) db.batches) b
          (executor.execute b r) now db

  unfoldable pub resolve_and_pay :
      MeteredBatchExecutor
      → Option PaymentDestinationRecord
      → MeteredBatchRecord
      → (now : ℕ) → MeteredDb
      → Run Tally
  unfolding pay
  resolve_and_pay executor none b now db =
      (err (WorkerError.metered MeteredError.destination_inactive), db)
  resolve_and_pay executor (some d) b now db =
      if not (matches b d)
      then (err (WorkerError.metered MeteredError.destination_mismatch), db)
      else pay executor (executor.resolve b d) b now db

  -- A batch that was submitted before is looked up first; where the provider does not know it, it is
  -- paid again.
  unfoldable pub settle_again :
      MeteredBatchExecutor
      → Outcome Failure (Option MeteredExecutionResult)
      → MeteredBatchRecord
      → (now : ℕ) → MeteredDb
      → Run Tally
  unfolding conclude resolve_and_pay
  settle_again executor (err f) b now db = (err (WorkerError.outside f), db)
  settle_again executor (ok none) b now db =
      resolve_and_pay executor (find_where (is_destination_of b) db.destinations) b now db
  settle_again executor (ok (some result)) b now db = conclude result.status b result true now db

  unfoldable pub process_granted :
      MeteredBatchExecutor
      → Option MeteredGrantRecord
      → MeteredBatchRecord
      → (now : ℕ) → MeteredDb
      → Run Tally
  unfolding settle_again resolve_and_pay release_metered_batch_reservation
  process_granted executor none b now db =
      (err (WorkerError.metered MeteredError.grant_not_found), db)
  process_granted executor (some grant) b now db =
      if is_inactive grant.status && not (is_some b.submitted_at)
      then after
          (release_metered_batch_reservation b.batch_id FinalStatus.released inactive_code now db)
          add_released db
      else if is_some b.submitted_at
      then settle_again executor (executor.lookup b) b now db
      else resolve_and_pay executor (find_where (is_destination_of b) db.destinations) b now db

  abbrev pub was_submitted : Option MeteredBatchRecord → Bool
  was_submitted none = false
  was_submitted (some b) = is_some b.submitted_at

  -- The `catch` of a round: another try, or the release of the batch.
  unfoldable pub recover : MeteredBatchRecord → (now : ℕ) → Run Tally → Run Tally
  unfolding retry_metered_batch release_metered_batch_reservation
  recover b now (ok t, db) = (ok t, db)
  recover b now (err e, db) =
      let f = public_failure e in
      if f.retryable && ltb b.attempts b.max_attempts
      then (
        ok add_retried,
        retry_metered_batch b (was_submitted (find_where (has_batch_id b.batch_id) db.batches))
            f.code now db,
      )
      else after (release_metered_batch_reservation b.batch_id FinalStatus.failed f.code now db)
          add_released db

  -- One round: nothing where no batch is to be claimed.
  unfoldable pub run_claimed :
      MeteredBatchExecutor → (now : ℕ) → Option MeteredBatchRecord × MeteredDb → Run (Option Tally)
  unfolding process_granted recover
  run_claimed executor now (none, db) = (ok none, db)
  run_claimed executor now (some b, db) = claimed_as (
      recover b now
        (process_granted executor (find_where (has_grant_id b.grant_id) db.grants) b now db))

  -- The loop, with the rounds that are left; a round draws its lease at random.
  unfoldable pub run_rounds :
      ℕ
      → MeteredBatchExecutor
      → (lease_of : ℕ → ℕ) → (now : ℕ) → MeteredWorkerResult
      → MeteredDb
      → Run MeteredWorkerResult
  unfolding claim_metered_batch run_claimed
  run_rounds zero executor lease_of now output db = (ok output, db)
  run_rounds (suc left) executor lease_of now output db =
      continued (run_claimed executor now (claim_metered_batch (lease_of left) now db)) output
        (λ t db'. run_rounds left executor lease_of now (tallied t output) db')

  unfoldable pub run_metered_payment_worker :
      Option ℕ
      → MeteredBatchExecutor
      → (lease_of : ℕ → ℕ) → (now : ℕ) → MeteredDb
      → Run MeteredWorkerResult
  unfolding run_rounds
  run_metered_payment_worker limit executor lease_of now db =
      run_rounds (rounds limit) executor lease_of now nothing_done db
