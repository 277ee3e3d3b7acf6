-- ===== src/Metered/Totals.antt =====
-- A run of the worker counts what its rounds do (`runMeteredPaymentWorker` of
-- src/services/meteredPaymentWorker.service.ts).
use fiberpassbackend.Prelude.{
  ℕ, zero, suc, ◌+◌, ◌≤◌, ◌≡◌, refl, ap, subst, Option, none, some, arith, ok, err,
}
use fiberpassbackend.Prelude.Documents.{ok-same}
use fiberpassbackend.Charges.Records.{ReceiptSourceType, PaymentReceipt}
use fiberpassbackend.Metered.Records.{MeteredDb}
use fiberpassbackend.Metered.Worker.{claim_metered_batch}
use fiberpassbackend.Metered.Run.{
  MeteredBatchExecutor, MeteredWorkerResult, Tally, Run, run_claimed, continued, tallied, rounds,
  nothing_done, run_rounds, run_metered_payment_worker,
}
use fiberpassbackend.Metered.Counts.{successes, releases, outcomes, Within}
use fiberpassbackend.Metered.Tallies.{Ends, run_claimed-Ends, claim_metered_batch-Within}

-- What the counters of a run say, from an output and a database to others.
pub record Counted (out : MeteredWorkerResult) (db : MeteredDb) (left : ℕ) (r : MeteredWorkerResult)
    (db' : MeteredDb) : Type 0 where
  pub once : r.claimed + outcomes out ≡ out.claimed + outcomes r
  pub bounded : r.claimed ≤ out.claimed + left
  pub paid : successes db' + out.succeeded ≤ successes db + r.succeeded
  pub freed : releases db' + out.released ≤ releases db + r.released

module _ (receipt_id_for : ReceiptSourceType → ℕ → ℕ) (hash_receipt : PaymentReceipt → ℕ) where
  continued-Counted :
      (k : Run (Option Tally)) (left : ℕ) (out : MeteredWorkerResult) (db : MeteredDb)
      (next : Tally → MeteredDb → Run MeteredWorkerResult) (r : MeteredWorkerResult)
      (db' : MeteredDb)
      → Ends (successes db) (releases db) receipt_id_for hash_receipt k
      → ((add : Tally) (mid : MeteredDb)
          → next add mid ≡ (ok r, db')
          → Counted (tallied add out) mid left r db')
      → continued k out next ≡ (ok r, db')
      → Counted out db (suc left) r db'
  continued-Counted (ok none, mid) left out db next r db' h more e =
      let same : out ≡ r = ok-same (ap (λ (x : Run MeteredWorkerResult). x.0) e) in
      let same_db : mid ≡ db' = ap (λ (x : Run MeteredWorkerResult). x.1) e in
      subst (λ x. Counted out db (suc left) x db') same
        (subst (λ x. Counted out db (suc left) out x) same_db
          (record {
            once = refl;
            bounded = omega arith;
            paid = omega (arith, h.paid);
            freed = omega (arith, h.freed);
          }))
  continued-Counted (ok (some add), mid) left out db next r db' h more e =
      let rest = more add mid e in
      let claimed : MeteredWorkerResult = record out { claimed = out.claimed + 1 } in
      record {
        once = omega (arith, rest.once, h.once claimed, h.claims claimed);
        bounded = omega (arith, rest.bounded, h.claims claimed);
        paid = omega (arith, rest.paid, h.paid claimed);
        freed = omega (arith, rest.freed, h.freed claimed);
      }
  continued-Counted (err x, mid) left out db next r db' h more e =
      let never : err x ≡ ok r = ap (λ (x : Run MeteredWorkerResult). x.0) e in cc

  run_rounds-Counted :
      (left : ℕ) (executor : MeteredBatchExecutor) (lease_of : ℕ → ℕ) (now : ℕ)
      (out : MeteredWorkerResult) (db : MeteredDb) (r : MeteredWorkerResult) (db' : MeteredDb)
      → run_rounds receipt_id_for hash_receipt left executor lease_of now out db ≡ (ok r, db')
      → Counted out db left r db'
  unfolding run_rounds
  run_rounds-Counted zero executor lease_of now out db r db' e =
      let same : out ≡ r = ok-same (ap (λ (x : Run MeteredWorkerResult). x.0) e) in
      let same_db : db ≡ db' = ap (λ (x : Run MeteredWorkerResult). x.1) e in
      subst (λ x. Counted out db zero x db') same
        (subst (λ x. Counted out db zero out x) same_db
          (record { once = refl; bounded = omega arith; paid = omega arith; freed = omega arith }))
  run_rounds-Counted (suc left) executor lease_of now out db r db' e =
      let s = successes db in
      let c = releases db in
      let start : Within s c db = record { paid = omega arith; freed = omega arith } in
      continued-Counted
        (run_claimed receipt_id_for hash_receipt executor now
          (claim_metered_batch (lease_of left) now db))
        left out db
        (λ add mid.
          run_rounds receipt_id_for hash_receipt left executor lease_of now (tallied add out) mid)
        r db'
        (run_claimed-Ends s c receipt_id_for hash_receipt executor now
          (claim_metered_batch (lease_of left) now db)
          (claim_metered_batch-Within s c receipt_id_for hash_receipt (lease_of left) now db start))
        (λ add mid e'. run_rounds-Counted left executor lease_of now (tallied add out) mid r db' e')
        e

  -- A run of the worker that ends without an error counts every batch that it has claimed exactly once,
  -- as succeeded, pending, to be tried again, released or skipped, and claims at most a hundred and at
  -- most the limit that it is given, where that is positive. However the connectors answer, it has
  -- counted as succeeded at least as many as there are succeeded batches more than before, and as
  -- released at least as many as there are released and failed ones more.
  pub run_metered_payment_worker-counts :
      (limit : ℕ) (executor : MeteredBatchExecutor) (lease_of : ℕ → ℕ) (now : ℕ)
      (db db' : MeteredDb) (r : MeteredWorkerResult)
      → 1 ≤ limit
      → run_metered_payment_worker receipt_id_for hash_receipt (some limit) executor lease_of now db
        ≡ (ok r, db')
      → (r.claimed ≡ r.succeeded + r.pending + r.retried + r.released + r.skipped)
        × (r.claimed ≤ limit)
        × (r.claimed ≤ 100)
        × (successes db' ≤ successes db + r.succeeded)
        × (releases db' ≤ releases db + r.released)
  unfolding run_metered_payment_worker
  run_metered_payment_worker-counts limit executor lease_of now db db' r positive e =
      let k =
        run_rounds-Counted (rounds (some limit)) executor lease_of now nothing_done db r db' e in
      (
        omega (arith, k.once),
        omega (arith, k.bounded, positive),
        omega (arith, k.bounded),
        omega (arith, k.paid),
        omega (arith, k.freed),
      )
