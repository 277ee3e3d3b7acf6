-- ===== src/Metered/Operations.antt =====
-- Any sequence of grants, usage events, revocations and runs of the worker
-- (src/services/meteredPayment.service.ts, src/services/meteredPaymentWorker.service.ts).
use fiberpassbackend.Prelude.{
  ℕ, zero, suc, ◌≡◌, refl, Bool, not, Option, none, some, List, [], ◌∷◌, arith, Outcome-cases, inl,
  inr, Outcome, ok, err,
}
use fiberpassbackend.Prelude.Store.{find_where, update_where, update_where-eq-some}
use fiberpassbackend.Prelude.Documents.{filter}
use fiberpassbackend.Funding.Domain.{is_some}
use fiberpassbackend.Charges.Records.{ReceiptSourceType, PaymentReceipt}
use fiberpassbackend.Metered.Records.{
  MeteredGrantRecord, MeteredBatchRecord, MeteredDb, MeteredError,
}
use fiberpassbackend.Metered.Usage.{
  MeteredActor, SubmitUsageEventInput, UsageRequest, MeteredBatchIdentity, NewIds, is_actor_grant,
}
use fiberpassbackend.Metered.Acceptance.{accept_usage_event_once}
use fiberpassbackend.Metered.Release.{
  FinalStatus, release_metered_batch_reservation, revoke_metered_grant, release_each, can_revoke,
  revoke, is_releasable, revoked_code, revoke_found,
}
use fiberpassbackend.Metered.Worker.{claim_metered_batch}
use fiberpassbackend.Metered.Grants.{CreateMeteredGrantInput, create_metered_grant}
use fiberpassbackend.Metered.Granted.{create_metered_grant-Held}
use fiberpassbackend.Metered.Run.{
  MeteredBatchExecutor, Tally, Run, run_rounds, run_metered_payment_worker, MeteredWorkerResult,
  tallied, rounds, nothing_done, continued,
}
use fiberpassbackend.Metered.Balance.{Held, booked, excess}
use fiberpassbackend.Metered.Preservation.{
  accept_usage_event_once-Held, release_metered_batch_reservation-Held,
}
use fiberpassbackend.Metered.Steps.{claim_metered_batch-Held}
use fiberpassbackend.Metered.History.{run_claimed-Held, if-Held}

continued-Held :
    (r : Run (Option Tally)) (output : MeteredWorkerResult)
    (next : Tally → MeteredDb → Run MeteredWorkerResult)
    → Held r.1
    → ((t : Tally) (db : MeteredDb) → Held db → Held (next t db).1)
    → Held (continued r output next).1
continued-Held (ok none, db) output next h k = h
continued-Held (ok (some t), db) output next h k = k t db h
continued-Held (err e, db) output next h k = h

releases-Held :
    (l : List MeteredBatchRecord) (now : ℕ) (db : MeteredDb)
    → Held db
    → Held (release_each l now db).1
unfolding release_each
releases-Held [] now db h = h
releases-Held (b ∷ l) now db h =
    elim (Outcome-cases
      (release_metered_batch_reservation b.batch_id FinalStatus.released revoked_code now db)) [
        | inl (db', is) ↦
            rw (is, release_each)
              (releases-Held l now db' (
                release_metered_batch_reservation-Held b.batch_id FinalStatus.released revoked_code
                  now db is h))
        | inr (e, is) ↦ rw (is, release_each) h
      ]

grants-Held :
    (change : MeteredGrantRecord → MeteredGrantRecord) (p : MeteredGrantRecord → Bool)
    (db : MeteredDb) {g : MeteredGrantRecord} {l : List MeteredGrantRecord}
    → ((i : ℕ) (a : MeteredGrantRecord) → booked i (change a) ≡ booked i a)
    → ((a : MeteredGrantRecord) → excess (change a) ≡ excess a)
    → update_where p change db.grants ≡ some (g, l)
    → Held db
    → Held (record db { grants = l })
grants-Held change p db kb ke is h =
    let u = update_where-eq-some p change db.grants is in
    record {
      per_grant = λ i. omega (arith, u.sums (booked i), kb i u.before, h.per_grant i);
      within_grants = omega (arith, u.sums excess, ke u.before, h.within_grants);
      within_sessions = h.within_sessions;
      at_home = h.at_home;
      unique = h.unique;
    }

revoke_found-Held :
    (o : Option (MeteredGrantRecord × List MeteredGrantRecord)) (actor : MeteredActor) (id now : ℕ)
    (db : MeteredDb)
    → update_where (can_revoke actor id) (revoke now) db.grants ≡ o
    → Held db
    → Held (revoke_found o actor id now db).1
unfolding revoke_found
revoke_found-Held (some (g, l)) actor id now db is h =
    releases-Held (filter (is_releasable id) db.batches) now (record db { grants = l })
      (grants-Held (revoke now) (can_revoke actor id) db (λ i a. refl) (λ a. refl) is h)
revoke_found-Held none actor id now db is h =
    if-Held (is_some (find_where (is_actor_grant actor id) db.grants)) _ _ h h

pub data Operation : Type 0 where
  create_grant : MeteredActor → CreateMeteredGrantInput → (grant_id now : ℕ) → Operation
  accept : MeteredActor → SubmitUsageEventInput → NewIds → (now : ℕ) → Operation
  revoke_grant : MeteredActor → (grant_id now : ℕ) → Operation
  work : (limit : Option ℕ) → MeteredBatchExecutor → (lease_of : ℕ → ℕ) → (now : ℕ) → Operation

-- What is in the collections after a transaction.
abbrev after_transaction :
    {A : Type 0} → MeteredDb → Outcome MeteredError (A × MeteredDb) → MeteredDb
after_transaction db (ok (e, db')) = db'
after_transaction db (err e) = db

after_transaction-Held :
    {A : Type 0} (db : MeteredDb) (o : Outcome MeteredError (A × MeteredDb))
    → ((r : A × MeteredDb) → o ≡ ok r → Held r.1)
    → Held db
    → Held (after_transaction db o)
after_transaction-Held db (ok (e, db')) k h = k (e, db') refl
after_transaction-Held db (err e) k h = h

module _ (receipt_id_for : ReceiptSourceType → ℕ → ℕ) (hash_receipt : PaymentReceipt → ℕ)
    (batch_key_of : MeteredBatchIdentity → ℕ) (fingerprint_of : UsageRequest → ℕ)
    (usage_key : (app external : ℕ) → ℕ)
    (required_btcpay_permissions : (store_id : ℕ) → List ℕ) where
  run_rounds-Held :
      (left : ℕ) (executor : MeteredBatchExecutor) (lease_of : ℕ → ℕ) (now : ℕ)
      (output : MeteredWorkerResult) (db : MeteredDb)
      → Held db
      → Held (run_rounds receipt_id_for hash_receipt left executor lease_of now output db).1
  unfolding run_rounds
  run_rounds-Held zero executor lease_of now output db h = h
  run_rounds-Held (suc left) executor lease_of now output db h =
      continued-Held _ output
        (λ t db'.
          run_rounds receipt_id_for hash_receipt left executor lease_of now (tallied t output) db')
        (run_claimed-Held receipt_id_for hash_receipt executor now
          (claim_metered_batch (lease_of left) now db)
          (claim_metered_batch-Held (lease_of left) now db h))
        (λ t db' h'. run_rounds-Held left executor lease_of now (tallied t output) db' h')

  unfoldable pub perform : Operation → MeteredDb → MeteredDb
  unfolding create_metered_grant accept_usage_event_once revoke_metered_grant
      run_metered_payment_worker
  perform (Operation.create_grant actor input id now) db =
      after_transaction db (create_metered_grant required_btcpay_permissions actor input id now db)
  perform (Operation.accept actor input ids now) db =
      after_transaction db
        (accept_usage_event_once batch_key_of fingerprint_of usage_key actor input ids now db)
  perform (Operation.revoke_grant actor id now) db = (revoke_metered_grant actor id now db).1
  perform (Operation.work limit executor lease_of now) db =
      (run_metered_payment_worker receipt_id_for hash_receipt limit executor lease_of now db).1

  unfoldable pub perform_all : List Operation → MeteredDb → MeteredDb
  unfolding perform
  perform_all [] db = db
  perform_all (o ∷ l) db = perform_all l (perform o db)

  perform-Held : (o : Operation) (db : MeteredDb) → Held db → Held (perform o db)
  unfolding perform revoke_metered_grant run_metered_payment_worker
  perform-Held (Operation.create_grant actor input id now) db h =
      after_transaction-Held db
        (create_metered_grant required_btcpay_permissions actor input id now db)
        (λ r e. create_metered_grant-Held required_btcpay_permissions actor input id now db e h) h
  perform-Held (Operation.accept actor input ids now) db h =
      after_transaction-Held db
        (accept_usage_event_once batch_key_of fingerprint_of usage_key actor input ids now db)
        (λ r e.
          accept_usage_event_once-Held batch_key_of fingerprint_of usage_key actor input ids now db
            e h)
        h
  perform-Held (Operation.revoke_grant actor id now) db h = if-Held (not actor.is_wallet) _ _ h (
      revoke_found-Held (update_where (can_revoke actor id) (revoke now) db.grants) actor id now db
        refl h)
  perform-Held (Operation.work limit executor lease_of now) db h =
      run_rounds-Held (rounds limit) executor lease_of now nothing_done db h

  -- Whatever grants are created, usage events arrive, grants are revoked and workers run, in any order and with any answers
  -- of the connectors, errors included: if before them every grant holds in reserve the amount of its
  -- open usage events, no grant and no session has spent and reserved more than its limit, every event
  -- is in a batch of its own grant and batch ids are unique, all of this holds after them.
  pub perform_all-Held : (l : List Operation) (db : MeteredDb) → Held db → Held (perform_all l db)
  unfolding perform_all
  perform_all-Held [] db h = h
  perform_all-Held (o ∷ l) db h = perform_all-Held l (perform o db) (perform-Held o db h)
