-- ===== src/Metered/Submission.antt =====
-- The retries of `submitUsageEvent` (src/services/meteredPayment.service.ts), after its check that the
-- app is active. A try draws ids and a time. What other requests do to the collections in the meantime,
-- before a try and before the lookup that follows a duplicate key, is a parameter.
use fiberpassbackend.Prelude.{
  ℕ, zero, suc, ◌+◌, ◌*◌, ◌≡◌, refl, ap, ◌∙◌, subst, Option, none, some, arith, ◌==◌, Outcome, ok,
  err, ◌>>=◌, >>=-eq-ok, require-bind,
}
use fiberpassbackend.Prelude.Store.{find_where}
use fiberpassbackend.Metered.Records.{UsageEventRecord, MeteredDb, MeteredError}
use fiberpassbackend.Metered.Usage.{
  MeteredActor, SubmitUsageEventInput, UsageRequest, MeteredBatchIdentity, NewIds, is_event_for,
}
use fiberpassbackend.Prelude.Documents.{ok-same}
use fiberpassbackend.Metered.Repeat.{Stands, accept_usage_event_once-Stands}
use fiberpassbackend.Metered.Acceptance.{accept_usage_event_once, usage_request, replay_usage_event}

-- `MAX_TRANSACTION_RETRIES`
abbrev pub max_transaction_retries : ℕ
max_transaction_retries = 5

pub record Draw : Type 0 where
  pub ids : NewIds
  pub now : ℕ

abbrev pub Accepted : Type 0
Accepted = Outcome MeteredError (UsageEventRecord × MeteredDb)

module _ (batch_key_of : MeteredBatchIdentity → ℕ) (fingerprint_of : UsageRequest → ℕ)
    (usage_key : (app external : ℕ) → ℕ) where
  -- After a duplicate key the event may stand there already; where it does not, the next try follows.
  unfoldable pub retry_after :
      Accepted
      → Option UsageEventRecord
      → MeteredActor
      → SubmitUsageEventInput
      → MeteredDb
      → (next : Unit {0} → Accepted) → Accepted
  unfolding usage_request replay_usage_event
  retry_after (ok r) existing actor input db next = ok r
  retry_after (err MeteredError.duplicate_key) none actor input db next = next tt
  retry_after (err MeteredError.duplicate_key) (some e) actor input db next = do
    request ← usage_request batch_key_of fingerprint_of usage_key actor input
    e' ← replay_usage_event e (fingerprint_of request)
    ok (e', db)
  retry_after (err e) existing actor input db next = err e

  -- The lookup reads the collections as they are after the failed try.
  unfoldable pub submit_from :
      (left attempt : ℕ)
      → MeteredActor
      → SubmitUsageEventInput
      → (draw : ℕ → Draw) → (others : ℕ → MeteredDb → MeteredDb) → MeteredDb
      → Accepted
  unfolding accept_usage_event_once retry_after
  submit_from zero attempt actor input draw others db = err MeteredError.duplicate_key
  submit_from (suc left) attempt actor input draw others db =
      let before = others (2 * attempt) db in
      let later = others (2 * attempt + 1) before in
      retry_after
        (accept_usage_event_once batch_key_of fingerprint_of usage_key actor input
          (draw attempt).ids (draw attempt).now before)
        (find_where (is_event_for actor.app_id input.external_id) later.events) actor input later
        (λ u. submit_from left (attempt + 1) actor input draw others later)

  unfoldable pub submit_usage_event :
      MeteredActor
      → SubmitUsageEventInput
      → (draw : ℕ → Draw) → (others : ℕ → MeteredDb → MeteredDb) → MeteredDb
      → Accepted
  unfolding submit_from
  submit_usage_event actor input draw others db =
      submit_from max_transaction_retries 0 actor input draw others db

  retry_after-Stands :
      (o : Accepted) (existing : Option UsageEventRecord) (actor : MeteredActor)
      (input : SubmitUsageEventInput) (db : MeteredDb) (next : Unit {0} → Accepted)
      {r : UsageEventRecord × MeteredDb}
      → find_where (is_event_for actor.app_id input.external_id) db.events ≡ existing
      → (o ≡ ok r → Stands batch_key_of fingerprint_of usage_key actor input r.0 r.1)
      → (next tt ≡ ok r → Stands batch_key_of fingerprint_of usage_key actor input r.0 r.1)
      → retry_after o existing actor input db next ≡ ok r
      → Stands batch_key_of fingerprint_of usage_key actor input r.0 r.1
  unfolding retry_after replay_usage_event
  retry_after-Stands (ok x) existing actor input db next f accepted again h = accepted h
  retry_after-Stands (err MeteredError.duplicate_key) none actor input db next f accepted again h =
      again h
  retry_after-Stands (err MeteredError.duplicate_key) (some e) actor input db next {r} f accepted
        again h =
      let (request, hq, h1) =
        >>=-eq-ok (usage_request batch_key_of fingerprint_of usage_key actor input) _ h in
      let (e', hr, h2) = >>=-eq-ok (replay_usage_event e (fingerprint_of request)) _ h1 in
      let (agrees, h3) =
        require-bind (e.request_fingerprint == fingerprint_of request)
          MeteredError.idempotency_conflict _ hr in
      let is : (e, db) ≡ r = ap (λ x. (x, db)) (ok-same h3) ∙ ok-same h2 in
      subst
        (λ (x : UsageEventRecord × MeteredDb).
          Stands batch_key_of fingerprint_of usage_key actor input x.0 x.1)
        is (record { request = request; requested = hq; found = f; agrees = agrees })
  retry_after-Stands (err e) existing actor input db next f accepted again h = ground arith

  submit_from-Stands :
      (left attempt : ℕ) (actor : MeteredActor) (input : SubmitUsageEventInput) (draw : ℕ → Draw)
      (others : ℕ → MeteredDb → MeteredDb) (db : MeteredDb) {r : UsageEventRecord × MeteredDb}
      → submit_from left attempt actor input draw others db ≡ ok r
      → Stands batch_key_of fingerprint_of usage_key actor input r.0 r.1
  unfolding submit_from
  submit_from-Stands zero attempt actor input draw others db h = ground arith
  submit_from-Stands (suc left) attempt actor input draw others db h =
      let before = others (2 * attempt) db in
      let later = others (2 * attempt + 1) before in
      retry_after-Stands
        (accept_usage_event_once batch_key_of fingerprint_of usage_key actor input
          (draw attempt).ids (draw attempt).now before)
        (find_where (is_event_for actor.app_id input.external_id) later.events) actor input later
        (λ u. submit_from left (attempt + 1) actor input draw others later) refl
        (λ e.
          accept_usage_event_once-Stands batch_key_of fingerprint_of usage_key actor input
            (draw attempt).ids (draw attempt).now before e)
        (λ e. submit_from-Stands left (attempt + 1) actor input draw others later e) h

  -- Whatever other requests do to the collections before each try and before the lookup after each
  -- duplicate key: an event that a submission returns is the one that is stored then for the app and the
  -- external id, whether this request or another one has stored it, and it carries the fingerprint of
  -- this request.
  pub submit_usage_event-Stands :
      (actor : MeteredActor) (input : SubmitUsageEventInput) (draw : ℕ → Draw)
      (others : ℕ → MeteredDb → MeteredDb) (db : MeteredDb) (e : UsageEventRecord) (db' : MeteredDb)
      → submit_usage_event actor input draw others db ≡ ok (e, db')
      → Stands batch_key_of fingerprint_of usage_key actor input e db'
  unfolding submit_usage_event
  submit_usage_event-Stands actor input draw others db e db' h =
      submit_from-Stands max_transaction_retries 0 actor input draw others db h
