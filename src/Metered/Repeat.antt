-- ===== src/Metered/Repeat.antt =====
-- A repeated usage event (`acceptUsageEventOnce` of src/services/meteredPayment.service.ts).
use fiberpassbackend.Prelude.{
  ℕ, ◌≡◌, refl, sym, ap, ◌∙◌, subst, true, Option, none, some, arith, ◌==◌, if◌then◌else◌, ok, err,
  >>=-eq-ok, require-bind, Bool-cases, inl, inr,
}
use fiberpassbackend.Prelude.Store.{find_where}
use fiberpassbackend.Prelude.Documents.{ok-same, find_where-append}
use fiberpassbackend.Charges.Preservation.{find_where-passes}
use fiberpassbackend.Metered.Records.{UsageEventRecord, MeteredDb, MeteredError}
use fiberpassbackend.Metered.Amounts.{exact_metered_amount, safe_metered_atomic_number}
use fiberpassbackend.Metered.Usage.{
  MeteredActor, SubmitUsageEventInput, UsageRequest, MeteredBatchIdentity, NewIds, is_event_for,
  is_actor_grant, check_usage,
}
use fiberpassbackend.Metered.Acceptance.{
  accept_unless, accept_usage_event_once, usage_request, replay_usage_event,
}
use fiberpassbackend.Metered.Accepted.{check_usage-eq-ok, write_usage-eq-ok}

module _ (batch_key_of : MeteredBatchIdentity → ℕ) (fingerprint_of : UsageRequest → ℕ)
    (usage_key : (app external : ℕ) → ℕ) where
  usage_request-ids :
      (actor : MeteredActor) (input : SubmitUsageEventInput) {r : UsageRequest}
      → usage_request batch_key_of fingerprint_of usage_key actor input ≡ ok r
      → r.external_id ≡ input.external_id
  unfolding usage_request
  usage_request-ids actor input h =
      let (amount, ha, h1) = >>=-eq-ok (exact_metered_amount input.amount_atomic true) _ h in
      let (minor, hm, h2) = >>=-eq-ok (safe_metered_atomic_number amount) _ h1 in
      ap UsageRequest.external_id (sym (ok-same h2))

  accept_unless-Stands :
      (o : Option UsageEventRecord) (actor : MeteredActor) (ids : NewIds) (request : UsageRequest)
      (now : ℕ) (db : MeteredDb) {r : UsageEventRecord × MeteredDb}
      → find_where (is_event_for actor.app_id request.external_id) db.events ≡ o
      → accept_unless batch_key_of fingerprint_of usage_key o actor ids request now db ≡ ok r
      → find_where (is_event_for actor.app_id request.external_id) r.1.events ≡ some r.0
  unfolding accept_unless
  accept_unless-Stands (some e) actor ids request now db {r} f h =
      subst
        (λ (x : UsageEventRecord × MeteredDb).
          find_where (is_event_for actor.app_id request.external_id) x.1.events ≡ some x.0)
        (ok-same h) f
  accept_unless-Stands none actor ids request now db {r} f h =
      let ((g, s), hc, h1) =
        >>=-eq-ok (check_usage actor request.grant_id request.amount_atomic now db) _ h in
      let c = check_usage-eq-ok actor request.grant_id request.amount_atomic now db hc in
      let w =
        write_usage-eq-ok batch_key_of fingerprint_of usage_key actor g s ids request now db h1 in
      let passes =
        find_where-passes (is_actor_grant actor request.grant_id) db.grants c.grant_found in
      let own : is_event_for actor.app_id request.external_id r.0 ≡ true =
        rw w.is_event (ground arith) in
      rw w.events
        (find_where-append (is_event_for actor.app_id request.external_id) db.events r.0 f own)

  -- An event that answers a request: it is the one stored for the app and the external id, and it was
  -- accepted for the same request.
  pub record Stands (actor : MeteredActor) (input : SubmitUsageEventInput) (e : UsageEventRecord)
      (db : MeteredDb) : Type 0 where
    pub request : UsageRequest
    pub requested : usage_request batch_key_of fingerprint_of usage_key actor input ≡ ok request
    pub found : find_where (is_event_for actor.app_id input.external_id) db.events ≡ some e
    pub agrees : (e.request_fingerprint == fingerprint_of request) ≡ true

  pub accept_usage_event_once-Stands :
      (actor : MeteredActor) (input : SubmitUsageEventInput) (ids : NewIds) (now : ℕ)
      (db : MeteredDb) {r : UsageEventRecord × MeteredDb}
      → accept_usage_event_once batch_key_of fingerprint_of usage_key actor input ids now db ≡ ok r
      → Stands actor input r.0 r.1
  unfolding accept_usage_event_once replay_usage_event
  accept_usage_event_once-Stands actor input ids now db {r} h =
      let (first, hf, h1) =
        >>=-eq-ok (usage_request batch_key_of fingerprint_of usage_key actor input) _ h in
      let o = find_where (is_event_for actor.app_id input.external_id) db.events in
      let ((e1, db1), ha, h2) =
        >>=-eq-ok (accept_unless batch_key_of fingerprint_of usage_key o actor ids first now db) _
          h1 in
      let (e2, hr, h3) = >>=-eq-ok (replay_usage_event e1 (fingerprint_of first)) _ h2 in
      let (agrees, h4) =
        require-bind (e1.request_fingerprint == fingerprint_of first)
          MeteredError.idempotency_conflict _ hr in
      let is : (e1, db1) ≡ r = ap (λ x. (x, db1)) (ok-same h4) ∙ ok-same h3 in
      let key = usage_request-ids actor input hf in
      let found : find_where (is_event_for actor.app_id input.external_id) db1.events ≡ some e1 =
        subst (λ k. find_where (is_event_for actor.app_id k) db1.events ≡ some e1) key
          (accept_unless-Stands o actor ids first now db
            (ap (λ k. find_where (is_event_for actor.app_id k) db.events) key) ha) in
      subst (λ (x : UsageEventRecord × MeteredDb). Stands actor input x.0 x.1) is
        (record { request = first; requested = hf; found = found; agrees = agrees })

  -- Once an event is accepted, another call of the same app with the same external id, whatever else it
  -- asks for, whenever it comes and with whatever new ids, changes nothing: it returns the event where
  -- the fingerprints of the requests agree, and reports a conflict otherwise.
  pub accept_usage_event_once-repeat :
      (actor : MeteredActor) (input input' : SubmitUsageEventInput) (ids ids' : NewIds)
      (now now' : ℕ) (db db' : MeteredDb) (e : UsageEventRecord) (request : UsageRequest)
      → accept_usage_event_once batch_key_of fingerprint_of usage_key actor input ids now db
        ≡ ok (e, db')
      → input'.external_id ≡ input.external_id
      → usage_request batch_key_of fingerprint_of usage_key actor input' ≡ ok request
      → accept_usage_event_once batch_key_of fingerprint_of usage_key actor input' ids' now' db' ≡ (
          if e.request_fingerprint == fingerprint_of request
          then ok (e, db')
          else err MeteredError.idempotency_conflict)
  unfolding accept_usage_event_once replay_usage_event accept_unless
  accept_usage_event_once-repeat actor input input' ids ids' now now' db db' e request h same hq =
      let was = accept_usage_event_once-Stands actor input ids now db h in
      let stands : find_where (is_event_for actor.app_id input'.external_id) db'.events ≡ some e =
        subst (λ k. find_where (is_event_for actor.app_id k) db'.events ≡ some e) (sym same)
          was.found in
      elim (Bool-cases (e.request_fingerprint == fingerprint_of request)) [
        | inl agree ↦ rw hq (rw stands (rw agree refl))
        | inr differ ↦ rw hq (rw stands (rw differ refl))
      ]
