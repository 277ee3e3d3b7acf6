-- ===== src/Metered/Accepted.antt =====
-- What an accepted usage event changes (`acceptUsageEventOnce` of
-- src/services/meteredPayment.service.ts).
use fiberpassbackend.Prelude.{
  ℕ, ◌+◌, ◌≤◌, ◌≡◌, refl, ap, subst, false, some, [], ◌∷◌, ◌++◌, arith, leb, ltb, Bool-cases, inl,
  inr, ok, >>=-eq-ok, require-bind, reject_if-bind, any,
}
use fiberpassbackend.Prelude.Int.{sub_ℕ}
use fiberpassbackend.Prelude.Store.{find_where, total}
use fiberpassbackend.Prelude.Documents.{given, given-eq-ok, save, create, create-eq-ok, ok-same}
use fiberpassbackend.Money.{checked_atomic_value, max_atomic_value, max_safe_integer}
use fiberpassbackend.Metered.Records.{
  MeteredGrantRecord, UsageEventRecord, MeteredBatchRecord, SessionRecord, MeteredDb, MeteredError,
}
use fiberpassbackend.Metered.Amounts.{
  atomic, session_limit, session_spent, session_reserved, set_session_reserved,
  safe_metered_atomic_number, exceeds, metered_grant_remaining,
}
use fiberpassbackend.Metered.Usage.{
  MeteredActor, UsageRequest, MeteredBatchIdentity, NewIds, is_actor_grant, is_owned_session,
  check_usage, is_active_grant, reject_expired, assert_owner_bound_session, count_event,
}
use fiberpassbackend.Metered.Batches.{place_event}
use fiberpassbackend.Metered.Acceptance.{
  batch_identity, new_event, event_clash, usage_attempt, attempt_clash, write_usage,
}
use fiberpassbackend.Metered.Linked.{batch_grant, is_batch}
use fiberpassbackend.Metered.Placement.{Placed, place_event-Placed}

pub atomic-eq-ok : (n : ℕ) {m : ℕ} → atomic n ≡ ok m → m ≡ n
unfolding atomic checked_atomic_value
atomic-eq-ok n {m} h = elim (Bool-cases (ltb max_atomic_value n)) [
  | inl above ↦ ground arith
  | inr fits ↦ ground arith
]

pub set_session_reserved-eq-ok :
    (value : ℕ) (s : SessionRecord) {s' : SessionRecord}
    → set_session_reserved value s ≡ ok s'
    → s' ≡ record s { reserved_atomic = some value; reserved_minor = some value }
unfolding set_session_reserved safe_metered_atomic_number
set_session_reserved-eq-ok value s {s'} h = elim (Bool-cases (ltb max_safe_integer value)) [
  | inl above ↦ ground arith
  | inr fits ↦ ground arith
]

-- What the checks of a usage event have found.
pub record Checked (actor : MeteredActor) (id amount : ℕ) (db : MeteredDb) (g : MeteredGrantRecord)
    (s : SessionRecord) : Type 0 where
  pub grant_found : find_where (is_actor_grant actor id) db.grants ≡ some g
  pub session_found :
      find_where (is_owned_session g.session_id actor.owner_wallet_id) db.sessions ≡ some s
  pub within_event : amount ≤ g.max_per_event_atomic
  pub within_grant : g.spent_atomic + g.reserved_atomic + amount ≤ g.total_limit_atomic
  pub within_session : session_spent s + (session_reserved s + amount) ≤ session_limit s

not-exceeds :
    (amount limit used : ℕ) → exceeds amount (sub_ℕ limit used) ≡ false → used + amount ≤ limit
not-exceeds amount limit used h = elim (Bool-cases (leb used limit)) [
  | inl within ↦ ground arith
  | inr beyond ↦ ground arith
]

pub check_usage-eq-ok :
    (actor : MeteredActor) (id amount now : ℕ) (db : MeteredDb)
    {r : MeteredGrantRecord × SessionRecord}
    → check_usage actor id amount now db ≡ ok r
    → Checked actor id amount db r.0 r.1
unfolding check_usage
check_usage-eq-ok actor id amount now db {r} h =
    let (g, hg, h1) =
      >>=-eq-ok
        (given (find_where (is_actor_grant actor id) db.grants) MeteredError.grant_not_found) _ h in
    let (is_active, h2) =
      require-bind (is_active_grant g.status) MeteredError.grant_inactive _ h1 in
    let (u, hx, h3) = >>=-eq-ok (reject_expired actor g now db) _ h2 in
    let (event, h4) =
      reject_if-bind (ltb g.max_per_event_atomic amount) MeteredError.per_event_limit_exceeded _
        h3 in
    let (grant, h5) =
      reject_if-bind (exceeds amount (metered_grant_remaining g)) MeteredError.grant_limit_exceeded
        _ h4 in
    let (s, hs, h6) =
      >>=-eq-ok
        (given (find_where (is_owned_session g.session_id actor.owner_wallet_id) db.sessions)
          MeteredError.session_not_found)
        _ h5 in
    let (v, ho, h7) = >>=-eq-ok (assert_owner_bound_session s actor now) _ h6 in
    let (session, h8) =
      reject_if-bind (ltb (session_limit s) (session_spent s + (session_reserved s + amount)))
        MeteredError.session_limit_exceeded _ h7 in
    subst (λ (x : MeteredGrantRecord × SessionRecord). Checked actor id amount db x.0 x.1)
      (ground arith)
      (record {
        grant_found = given-eq-ok _ MeteredError.grant_not_found hg;
        session_found = given-eq-ok _ MeteredError.session_not_found hs;
        within_event = ground arith;
        within_grant =
            not-exceeds amount g.total_limit_atomic (g.spent_atomic + g.reserved_atomic) grant;
        within_session = ground arith;
      })

module _ (batch_key_of : MeteredBatchIdentity → ℕ) (fingerprint_of : UsageRequest → ℕ)
    (usage_key : (app external : ℕ) → ℕ) where
  -- The collections that matter to the amounts, after the writes.
  pub record Written (actor : MeteredActor) (g : MeteredGrantRecord) (s : SessionRecord)
      (ids : NewIds) (request : UsageRequest) (now : ℕ) (db : MeteredDb) (e : UsageEventRecord)
      (db' : MeteredDb) : Type 0 where
    pub batch : ℕ
    pub is_event : e ≡ new_event g ids request (fingerprint_of request) batch now
    pub home :
        ((i : ℕ) → total (is_batch i) db.batches ≤ 1)
        → batch_grant batch db'.batches ≡ some g.grant_id
    pub placed : MeteredBatchRecord
    pub follows : Placed g.grant_id db.batches db'.batches placed
    pub events : db'.events ≡ db.events ++ (e ∷ [])
    pub is_new : any (event_clash e) db.events ≡ false
    pub grants :
        db'.grants
        ≡ save
            (is_actor_grant actor request.grant_id)
            (record g { reserved_atomic = g.reserved_atomic + request.amount_atomic })
            db.grants
    pub sessions :
        db'.sessions
        ≡ save
            (is_owned_session g.session_id actor.owner_wallet_id)
            (record s {
              reserved_atomic = some (session_reserved s + request.amount_atomic);
              reserved_minor = some (session_reserved s + request.amount_atomic);
            })
            db.sessions
    pub counters : count_event g now db.rate_counters ≡ ok db'.rate_counters

  pub write_usage-eq-ok :
      (actor : MeteredActor) (g : MeteredGrantRecord) (s : SessionRecord) (ids : NewIds)
      (request : UsageRequest) (now : ℕ) (db : MeteredDb) {r : UsageEventRecord × MeteredDb}
      → write_usage batch_key_of fingerprint_of usage_key actor g s ids request now db ≡ ok r
      → Written actor g s ids request now db r.0 r.1
  unfolding write_usage
  write_usage-eq-ok actor g s ids request now db {r} h =
      let amount = request.amount_atomic in
      let (counters, hc, h1) = >>=-eq-ok (count_event g now db.rate_counters) _ h in
      let ((b, batches), hb, h2) =
        >>=-eq-ok
          (place_event g ids.batch_id (batch_key_of (batch_identity g)) amount now db.batches) _
          h1 in
      let e = new_event g ids request (fingerprint_of request) b.batch_id now in
      let (events, he, h3) =
        >>=-eq-ok (create (event_clash e) MeteredError.duplicate_key e db.events) _ h2 in
      let a = usage_attempt e (usage_key e.app_id e.external_id) now in
      let (attempts, ha, h4) =
        >>=-eq-ok (create (attempt_clash a) MeteredError.duplicate_key a db.attempts) _ h3 in
      let (reserved, hr, h5) = >>=-eq-ok (atomic (g.reserved_atomic + amount)) _ h4 in
      let (s', hs, h6) = >>=-eq-ok (set_session_reserved (session_reserved s + amount) s) _ h5 in
      let placed =
        place_event-Placed g ids.batch_id (batch_key_of (batch_identity g)) amount now db.batches
          {r = (b, batches)} hb in
      let (free, made) = create-eq-ok (event_clash e) MeteredError.duplicate_key e db.events he in
      let sum = atomic-eq-ok (g.reserved_atomic + amount) hr in
      subst (λ (x : UsageEventRecord × MeteredDb). Written actor g s ids request now db x.0 x.1)
        (ok-same h6)
        (record {
          batch = b.batch_id;
          is_event = refl;
          home = placed.home;
          placed = b;
          follows = placed;
          events = made;
          is_new = free;
          grants =
              ap
                (λ n.
                  save (is_actor_grant actor request.grant_id) (record g { reserved_atomic = n })
                    db.grants)
                sum;
          sessions =
              ap (λ x. save (is_owned_session g.session_id actor.owner_wallet_id) x db.sessions)
                (set_session_reserved-eq-ok (session_reserved s + amount) s hs);
          counters = hc;
        })
