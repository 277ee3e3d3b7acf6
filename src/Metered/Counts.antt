-- ===== src/Metered/Counts.antt =====
-- The counters of a run of the worker (`runMeteredPaymentWorker` of
-- src/services/meteredPaymentWorker.service.ts) and the batches that it settles and releases.
use fiberpassbackend.Prelude.{
  ℕ, ◌+◌, ◌≤◌, ◌≡◌, refl, subst, Bool, true, false, Option, none, some, List, arith, Bool-cases,
  inl, inr, if◌then◌else◌, Outcome, ok, err,
}
use fiberpassbackend.Prelude.Store.{find_where, total, update_where, update_where-eq-some}
use fiberpassbackend.Prelude.Documents.{ok-same, total-save}
use fiberpassbackend.Metered.Records.{
  MeteredBatchStatus, MeteredBatchRecord, MeteredDb, MeteredError,
}
use fiberpassbackend.Metered.Batches.{has_batch_id}
use fiberpassbackend.Metered.Release.{
  FinalStatus, is_final_batch, release_batch, release_found, release_metered_batch_reservation,
}
use fiberpassbackend.Metered.Worker.{
  is_leased, retry_delay, retried, retry_metered_batch, mark_settling, submitted_with,
  mark_submitted,
}
use fiberpassbackend.Metered.Run.{
  MeteredWorkerResult, Tally, add_succeeded, add_pending, add_retried, add_released, add_skipped,
  Run, after, submit_if,
}
use fiberpassbackend.Metered.Preservation.{own_batch}
use fiberpassbackend.Metered.Final.{release_open-writes}

abbrev pub success_of : MeteredBatchStatus → ℕ
success_of MeteredBatchStatus.succeeded = 1
success_of _ = 0

abbrev pub release_of : MeteredBatchStatus → ℕ
release_of MeteredBatchStatus.failed = 1
release_of MeteredBatchStatus.released = 1
release_of _ = 0

-- The batches that have succeeded, and those that were released or have failed.
abbrev pub successes : MeteredDb → ℕ
successes db = total (λ b. success_of b.status) db.batches

abbrev pub releases : MeteredDb → ℕ
releases db = total (λ b. release_of b.status) db.batches

abbrev pub outcomes : MeteredWorkerResult → ℕ
outcomes r = r.succeeded + r.pending + r.retried + r.released + r.skipped

pub record Within (s c : ℕ) (db : MeteredDb) : Type 0 where
  pub paid : successes db ≤ s
  pub freed : releases db ≤ c

-- What a round adds: one batch, and every batch that has succeeded or was released since there were
-- so many.
pub record Round (s c : ℕ) (add : Tally) (db : MeteredDb) : Type 0 where
  pub once : (r : MeteredWorkerResult) → outcomes (add r) ≡ outcomes r + 1
  pub claims : (r : MeteredWorkerResult) → (add r).claimed ≡ r.claimed
  pub paid : (r : MeteredWorkerResult) → successes db + r.succeeded ≤ s + (add r).succeeded
  pub freed : (r : MeteredWorkerResult) → releases db + r.released ≤ c + (add r).released

abbrev pub Fair : (s c : ℕ) → Run Tally → Type 0
Fair s c (ok add, db) = Round s c add db
Fair s c (err e, db) = Within s c db

one-le :
    {A : Type 0} (w : A → ℕ) (p : A → Bool) (f : A → A) (l : List A) {b : A} {l' : List A}
    → update_where p f l ≡ some (b, l')
    → ((a : A) → w (f a) ≤ w a)
    → total w l' ≤ total w l
one-le w p f l e fewer =
    let u = update_where-eq-some p f l e in omega (arith, u.sums w, fewer u.before)

retried-none :
    (submitted : Bool) (code delay now : ℕ) (b : MeteredBatchRecord)
    → (success_of (retried submitted code delay now b).status ≡ 0)
      × (release_of (retried submitted code delay now b).status ≡ 0)
retried-none true code delay now b = (refl, refl)
retried-none false code delay now b = (refl, refl)

pub record Once (add : Tally) : Type 0 where
  pub once : (r : MeteredWorkerResult) → outcomes (add r) ≡ outcomes r + 1
  pub claims : (r : MeteredWorkerResult) → (add r).claimed ≡ r.claimed
  pub paid : (r : MeteredWorkerResult) → r.succeeded ≤ (add r).succeeded
  pub freed : (r : MeteredWorkerResult) → r.released ≤ (add r).released

pub one-released : Once add_released
one-released = record {
  once = λ r. omega arith;
  claims = λ r. refl;
  paid = λ r. omega arith;
  freed = λ r. omega arith;
}

pub one-succeeded : Once add_succeeded
one-succeeded = record {
  once = λ r. omega arith;
  claims = λ r. refl;
  paid = λ r. omega arith;
  freed = λ r. omega arith;
}

pub one-pending : Once add_pending
one-pending = record {
  once = λ r. omega arith;
  claims = λ r. refl;
  paid = λ r. omega arith;
  freed = λ r. omega arith;
}

pub one-retried : Once add_retried
one-retried = record {
  once = λ r. omega arith;
  claims = λ r. refl;
  paid = λ r. omega arith;
  freed = λ r. omega arith;
}

pub one-skipped : Once add_skipped
one-skipped = record {
  once = λ r. omega arith;
  claims = λ r. refl;
  paid = λ r. omega arith;
  freed = λ r. omega arith;
}

release_batch-weights :
    (final : FinalStatus) (code now : ℕ) (b : MeteredBatchRecord)
    → (success_of (release_batch final code now b).status ≡ 0)
      × (release_of (release_batch final code now b).status ≡ 1)
release_batch-weights FinalStatus.released code now b = (refl, refl)
release_batch-weights FinalStatus.failed code now b = (refl, refl)

module _ (s c : ℕ) where
  pub idle-Round : (add : Tally) (db : MeteredDb) → Once add → Within s c db → Round s c add db
  idle-Round add db o h = record {
    once = o.once;
    claims = o.claims;
    paid = λ r. omega (arith, o.paid r, h.paid);
    freed = λ r. omega (arith, o.freed r, h.freed);
  }

  pub if-Fair :
      (b : Bool) (x y : Run Tally) → Fair s c x → Fair s c y → Fair s c (if b then x else y)
  if-Fair true x y hx hy = hx
  if-Fair false x y hx hy = hy

  pub batches-Within :
      (p : MeteredBatchRecord → Bool) (f : MeteredBatchRecord → MeteredBatchRecord) (db : MeteredDb)
      {b : MeteredBatchRecord} {l : List MeteredBatchRecord}
      → update_where p f db.batches ≡ some (b, l)
      → ((a : MeteredBatchRecord) → success_of (f a).status ≤ success_of a.status)
      → ((a : MeteredBatchRecord) → release_of (f a).status ≤ release_of a.status)
      → Within s c db
      → Within s c (record db { batches = l })
  batches-Within p f db {b} {l} e fs fc h = record {
    paid =
        omega
          (arith, one-le (λ b. success_of b.status) p f db.batches {b = b} {l' = l} e fs, h.paid);
    freed =
        omega
          (arith, one-le (λ b. release_of b.status) p f db.batches {b = b} {l' = l} e fc, h.freed);
  }

  updated-Within :
      (o : Option (MeteredBatchRecord × List MeteredBatchRecord)) (p : MeteredBatchRecord → Bool)
      (f : MeteredBatchRecord → MeteredBatchRecord) (db : MeteredDb)
      → update_where p f db.batches ≡ o
      → ((a : MeteredBatchRecord) → success_of (f a).status ≤ success_of a.status)
      → ((a : MeteredBatchRecord) → release_of (f a).status ≤ release_of a.status)
      → Within s c db
      → Within s c (record db { batches = elim o [ some (b, l') ↦ l' | none ↦ db.batches ] })
  updated-Within none p f db e fs fc h = record { paid = h.paid; freed = h.freed }
  updated-Within (some (b, l)) p f db e fs fc h = batches-Within p f db {b = b} {l = l} e fs fc h

  pub retry_metered_batch-Within :
      (b : MeteredBatchRecord) (submitted : Bool) (code now : ℕ) (db : MeteredDb)
      → Within s c db
      → Within s c (retry_metered_batch b submitted code now db)
  unfolding retry_metered_batch
  retry_metered_batch-Within b submitted code now db h =
      let f = retried submitted code (retry_delay b.attempts) now in
      updated-Within (update_where (is_leased b) f db.batches) (is_leased b) f db refl
        (λ a. omega (arith, (retried-none submitted code (retry_delay b.attempts) now a).0))
        (λ a. omega (arith, (retried-none submitted code (retry_delay b.attempts) now a).1)) h

  mark_submitted-Within :
      (b : MeteredBatchRecord) (id : Option ℕ) (now : ℕ) (db : MeteredDb)
      → Within s c db
      → Within s c (mark_submitted b id now db)
  unfolding mark_submitted
  mark_submitted-Within b id now db h =
      updated-Within (update_where (is_leased b) (submitted_with id now) db.batches) (is_leased b)
        (submitted_with id now) db refl (λ a. omega arith) (λ a. omega arith) h

  pub mark_settling-Within :
      (id now : ℕ) (db : MeteredDb) → Within s c db → Within s c (mark_settling id now db)
  unfolding mark_settling
  mark_settling-Within id now db h = record { paid = h.paid; freed = h.freed }

  pub submit_if-Within :
      (o : Option (Option ℕ)) (b : MeteredBatchRecord) (now : ℕ) (db : MeteredDb)
      → Within s c db
      → Within s c (submit_if o b now db)
  submit_if-Within none b now db h = h
  submit_if-Within (some id) b now db h = mark_submitted-Within b id now db h

  pub after-Fair :
      (o : Outcome MeteredError MeteredDb) (add : Tally) (db : MeteredDb)
      → ((x : MeteredDb) → o ≡ ok x → Round s c add x)
      → Within s c db
      → Fair s c (after o add db)
  after-Fair (ok x) add db k h = k x refl
  after-Fair (err e) add db k h = h

  -- A batch that is saved as released counts as one.
  release_found-Round :
      (id : ℕ) (o : Option MeteredBatchRecord) (final : FinalStatus) (code now : ℕ) (db : MeteredDb)
      {db' : MeteredDb}
      → find_where (has_batch_id id) db.batches ≡ o
      → release_found o final code now db ≡ ok db'
      → Within s c db
      → Round s c add_released db'
  unfolding release_found
  release_found-Round id none final code now db {db'} f e h =
      subst (Round s c add_released) (ok-same e) (idle-Round add_released db one-released h)
  release_found-Round id (some b) final code now db {db'} f e h =
      elim (Bool-cases (is_final_batch b.status)) [
        | inl done ↦
            let same : ok db ≡ ok db' = rw done at e in
            subst (Round s c add_released) (ok-same same)
              (idle-Round add_released db one-released h)
        | inr unfinal ↦
            let (events, batches) = release_open-writes b final code now db (rw unfinal at e) in
            let b' = release_batch final code now b in
            let (unpaid, freed) = release_batch-weights final code now b in
            let own = own_batch id db.batches f in
            let moved =
              total-save (λ x. success_of x.status) (has_batch_id b.batch_id) b' db.batches own in
            let moved' =
              total-save (λ x. release_of x.status) (has_batch_id b.batch_id) b' db.batches own in
            record {
              once = λ r. omega arith;
              claims = λ r. refl;
              paid = λ r. rw batches (omega (arith, moved, unpaid, h.paid));
              freed = λ r. rw batches (omega (arith, moved', freed, h.freed));
            }
      ]

  pub release-Fair :
      (id : ℕ) (final : FinalStatus) (code now : ℕ) (db : MeteredDb)
      → Within s c db
      → Fair s c (after (release_metered_batch_reservation id final code now db) add_released db)
  unfolding release_metered_batch_reservation
  release-Fair id final code now db h =
      after-Fair (release_metered_batch_reservation id final code now db) add_released db
        (λ x e.
          release_found-Round id (find_where (has_batch_id id) db.batches) final code now db refl e
            h)
        h
