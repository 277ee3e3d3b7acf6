-- ===== src/Metered/Preservation.antt =====
-- The acceptance and the release of usage events (src/services/meteredPayment.service.ts), and what
-- grants hold in reserve.
use fiberpassbackend.Prelude.{
  ℕ, ◌+◌, ◌-◌, ◌≤◌, ◌≡◌, refl, sym, subst, false, ◌||◌, Option, none, some, List, arith, ◌==◌, ltb,
  if◌then◌else◌, Bool-cases, inl, inr, ok, >>=-eq-ok, reject_if-bind, ==_iff,
}
use fiberpassbackend.Prelude.Store.{find_where, total}
use fiberpassbackend.Prelude.Documents.{
  given, given-eq-ok, save, total-save, total-append, update_many, ok-same,
}
use fiberpassbackend.Charges.Preservation.{find_where-passes}
use fiberpassbackend.Metered.Records.{
  MeteredGrantRecord, UsageEventRecord, MeteredBatchRecord, SessionRecord, MeteredDb, MeteredError,
}
use fiberpassbackend.Metered.Amounts.{session_reserved, set_session_reserved}
use fiberpassbackend.Metered.Usage.{
  MeteredActor, UsageRequest, MeteredBatchIdentity, NewIds, is_event_for, is_actor_grant,
  is_owned_session, check_usage, SubmitUsageEventInput,
}
use fiberpassbackend.Metered.Batches.{has_batch_id}
use fiberpassbackend.Metered.Acceptance.{
  accept_unless, accept_usage_event_once, usage_request, replay_usage_event,
}
use fiberpassbackend.Metered.Release.{
  is_open, is_open_in, amount_of, open_events, has_grant_id, has_session_id, is_final_batch,
  FinalStatus, release_open, release_found, release_metered_batch_reservation, release_event,
  release_batch,
}
use fiberpassbackend.Metered.Linked.{
  stray, total-stray, batch_grant, Follows, save-Follows, batch_grant_unique,
}
use fiberpassbackend.Metered.Balance.{
  booked, held, excess, overdraft, overdraft-reserve, Held, close-held, update-stray,
}
use fiberpassbackend.Metered.Accepted.{
  Checked, check_usage-eq-ok, Written, write_usage-eq-ok, set_session_reserved-eq-ok,
}

module _ (batch_key_of : MeteredBatchIdentity → ℕ) (fingerprint_of : UsageRequest → ℕ)
    (usage_key : (app external : ℕ) → ℕ) where
  Written-Held :
      (actor : MeteredActor) (g : MeteredGrantRecord) (s : SessionRecord) (ids : NewIds)
      (request : UsageRequest) (now : ℕ) (db : MeteredDb) (e : UsageEventRecord) (db' : MeteredDb)
      → Checked actor request.grant_id request.amount_atomic db g s
      → Written batch_key_of fingerprint_of usage_key actor g s ids request now db e db'
      → Held db
      → Held db'
  Written-Held actor g s ids request now db e db' c w i =
      let amount = request.amount_atomic in
      let g' : MeteredGrantRecord = record g { reserved_atomic = g.reserved_atomic + amount } in
      let s' : SessionRecord = record s {
        reserved_atomic = some (session_reserved s + amount);
        reserved_minor = some (session_reserved s + amount);
      } in
      let p = is_actor_grant actor request.grant_id in
      let q = is_owned_session g.session_id actor.owner_wallet_id in
      record {
        per_grant = λ k.
            let moved = total-save (booked k) p g' db.grants c.grant_found in
            let added = total-append (held k) db.events e in
            let own : held k e + booked k g ≡ booked k g' = rw w.is_event (ground arith) in
            rw w.grants (rw w.events (omega (arith, moved, added, own, i.per_grant k)));
        within_grants = rw w.grants (
            omega (
              arith,
              total-save excess p g' db.grants c.grant_found,
              c.within_grant,
              i.within_grants,
            ));
        within_sessions = rw w.sessions (
            omega (
              arith,
              total-save overdraft q s' db.sessions c.session_found,
              c.within_session,
              overdraft-reserve s (session_reserved s + amount),
              i.within_sessions,
            ));
        at_home =
            let before = total-stray db.batches db'.batches db.events w.follows.follows in
            let added = total-append (stray db'.batches) db.events e in
            let new : stray db'.batches e ≡ 0 =
              rw w.is_event (rw (w.home i.unique) (ground arith)) in
            rw w.events (omega (arith, before, added, new, i.at_home));
        unique = w.follows.follows.unique i.unique;
      }

  accept_unless-Held :
      (o : Option UsageEventRecord) (actor : MeteredActor) (ids : NewIds) (request : UsageRequest)
      (now : ℕ) (db : MeteredDb) {r : UsageEventRecord × MeteredDb}
      → accept_unless batch_key_of fingerprint_of usage_key o actor ids request now db ≡ ok r
      → Held db
      → Held r.1
  unfolding accept_unless
  accept_unless-Held (some e) actor ids request now db {r} h i =
      subst (λ (x : UsageEventRecord × MeteredDb). Held x.1) (ok-same h) i
  accept_unless-Held none actor ids request now db {r} h i =
      let ((g, s), hc, h1) =
        >>=-eq-ok (check_usage actor request.grant_id request.amount_atomic now db) _ h in
      Written-Held actor g s ids request now db r.0 r.1
        (check_usage-eq-ok actor request.grant_id request.amount_atomic now db hc)
        (write_usage-eq-ok batch_key_of fingerprint_of usage_key actor g s ids request now db h1) i

  pub accept_usage_event_once-Held :
      (actor : MeteredActor) (input : SubmitUsageEventInput) (ids : NewIds) (now : ℕ)
      (db : MeteredDb) {r : UsageEventRecord × MeteredDb}
      → accept_usage_event_once batch_key_of fingerprint_of usage_key actor input ids now db ≡ ok r
      → Held db
      → Held r.1
  unfolding accept_usage_event_once
  accept_usage_event_once-Held actor input ids now db {r} h i =
      let (request, hq, h1) =
        >>=-eq-ok (usage_request batch_key_of fingerprint_of usage_key actor input) _ h in
      let o = find_where (is_event_for actor.app_id input.external_id) db.events in
      let ((e, db'), ha, h2) =
        >>=-eq-ok (accept_unless batch_key_of fingerprint_of usage_key o actor ids request now db) _
          h1 in
      let (e', hr, h3) = >>=-eq-ok (replay_usage_event e (fingerprint_of request)) _ h2 in
      subst (λ (x : UsageEventRecord × MeteredDb). Held x.1) (ok-same h3)
        (accept_unless-Held o actor ids request now db ha i)

-- What closing the open events of a batch does to the collections: the grant's reserve falls by their
-- amount, and neither it nor the session goes further beyond its limit.
pub record Closed (b : MeteredBatchRecord) (g : MeteredGrantRecord) (s : SessionRecord)
    (db db' : MeteredDb) : Type 0 where
  pub found : find_where (has_batch_id b.batch_id) db.batches ≡ some b
  pub grant_found : find_where (has_grant_id b.grant_id) db.grants ≡ some g
  pub session_found : find_where (has_session_id b.session_id) db.sessions ≡ some s
  pub grant' : MeteredGrantRecord
  pub same_grant : grant'.grant_id ≡ g.grant_id
  pub unreserved :
      grant'.reserved_atomic + total amount_of (open_events b.batch_id db) ≡ g.reserved_atomic
  pub no_excess : excess grant' ≤ excess g
  pub grants : db'.grants ≡ save (has_grant_id b.grant_id) grant' db.grants
  pub session' : SessionRecord
  pub no_overdraft : overdraft session' ≤ overdraft s
  pub sessions : db'.sessions ≡ save (has_session_id b.session_id) session' db.sessions
  pub batch' : MeteredBatchRecord
  pub same_batch : batch'.batch_id ≡ b.batch_id
  pub same_batch_grant : batch'.grant_id ≡ b.grant_id
  pub batches : db'.batches ≡ save (has_batch_id b.batch_id) batch' db.batches
  pub change : UsageEventRecord → UsageEventRecord
  pub closes : (e : UsageEventRecord) → is_open (change e).status ≡ false
  pub keeps : (e : UsageEventRecord) → stray db'.batches (change e) ≡ stray db'.batches e
  pub events : db'.events ≡ update_many (is_open_in b.batch_id) change db.events

pub closed-Held :
    (b : MeteredBatchRecord) (g : MeteredGrantRecord) (s : SessionRecord) (db db' : MeteredDb)
    → Closed b g s db db'
    → Held db
    → Held db'
closed-Held b g s db db' c i =
    let follows : Follows db.batches db'.batches = subst (Follows db.batches) (sym c.batches) (
      save-Follows (has_batch_id b.batch_id) c.batch' db.batches c.found c.same_batch
        c.same_batch_grant) in
    let own : batch_grant b.batch_id db.batches ≡ some b.grant_id =
      batch_grant_unique (has_batch_id b.batch_id) db.batches c.found (i.unique b.batch_id) in
    let its : g.grant_id ≡ b.grant_id =
      (==_iff g.grant_id b.grant_id).0
        (find_where-passes (has_grant_id b.grant_id) db.grants c.grant_found) in
    record {
      per_grant = λ k.
          let moved =
            total-save (booked k) (has_grant_id b.grant_id) c.grant' db.grants c.grant_found in
          let gone =
            close-held b.batch_id b.grant_id k c.change db.batches db.events own i.at_home
              c.closes in
          let less : booked k c.grant'
                + (if b.grant_id == k then total amount_of (open_events b.batch_id db) else 0)
              ≡ booked k g =
            ground (arith, its, c.same_grant, c.unreserved) in
          rw c.grants (rw c.events (omega (arith, moved, gone, less, i.per_grant k)));
      within_grants = rw c.grants (
          omega (
            arith,
            total-save excess (has_grant_id b.grant_id) c.grant' db.grants c.grant_found,
            c.no_excess,
            i.within_grants,
          ));
      within_sessions = rw c.sessions (
          omega (
            arith,
            total-save overdraft (has_session_id b.session_id) c.session' db.sessions
                c.session_found,
            c.no_overdraft,
            i.within_sessions,
          ));
      at_home = rw c.events (
          omega (
            arith,
            update-stray (is_open_in b.batch_id) c.change db'.batches db.events c.keeps,
            total-stray db.batches db'.batches db.events follows,
            i.at_home,
          ));
      unique = follows.unique i.unique;
    }

pub own_batch :
    (id : ℕ) (l : List MeteredBatchRecord) {b : MeteredBatchRecord}
    → find_where (has_batch_id id) l ≡ some b
    → find_where (has_batch_id b.batch_id) l ≡ some b
own_batch id l {b} h =
    subst (λ k. find_where (has_batch_id k) l ≡ some b)
      (sym ((==_iff b.batch_id id).0 (find_where-passes (has_batch_id id) l h))) h

pub release_event-closed :
    (final : FinalStatus) (code now : ℕ) (e : UsageEventRecord)
    → is_open (release_event final code now e).status ≡ false
release_event-closed FinalStatus.released code now e = refl
release_event-closed FinalStatus.failed code now e = refl

release_open-Held :
    (b : MeteredBatchRecord) (final : FinalStatus) (code now : ℕ) (db : MeteredDb) {db' : MeteredDb}
    → find_where (has_batch_id b.batch_id) db.batches ≡ some b
    → release_open b final code now db ≡ ok db'
    → Held db
    → Held db'
unfolding release_open
release_open-Held b final code now db {db'} f h i =
    let amount = total amount_of (open_events b.batch_id db) in
    let (g, hg, h1) =
      >>=-eq-ok
        (given (find_where (has_grant_id b.grant_id) db.grants) MeteredError.owner_state_missing) _
        h in
    let (s, hs, h2) =
      >>=-eq-ok
        (given (find_where (has_session_id b.session_id) db.sessions)
          MeteredError.owner_state_missing)
        _ h1 in
    let (enough, h3) =
      reject_if-bind (ltb g.reserved_atomic amount || ltb (session_reserved s) amount)
        MeteredError.counters_inconsistent _ h2 in
    let (s', hw, h4) = >>=-eq-ok (set_session_reserved (session_reserved s - amount) s) _ h3 in
    let written = set_session_reserved-eq-ok (session_reserved s - amount) s hw in
    subst Held (ok-same h4) (
      closed-Held b g s db _
        (record {
          found = f;
          grant_found = given-eq-ok _ MeteredError.owner_state_missing hg;
          session_found = given-eq-ok _ MeteredError.owner_state_missing hs;
          grant' = record g { reserved_atomic = g.reserved_atomic - amount };
          same_grant = refl;
          unreserved = ground arith;
          no_excess = omega arith;
          grants = refl;
          session' = s';
          no_overdraft =
              rw written (omega (arith, overdraft-reserve s (session_reserved s - amount)));
          sessions = refl;
          batch' = release_batch final code now b;
          same_batch = refl;
          same_batch_grant = refl;
          batches = refl;
          change = release_event final code now;
          closes = λ e. release_event-closed final code now e;
          keeps = λ e. refl;
          events = refl;
        })
        i)

found-Held :
    (id : ℕ) (final : FinalStatus) (code now : ℕ) (o : Option MeteredBatchRecord) (db : MeteredDb)
    {db' : MeteredDb}
    → find_where (has_batch_id id) db.batches ≡ o
    → release_found o final code now db ≡ ok db'
    → Held db
    → Held db'
unfolding release_found
found-Held id final code now none db {db'} f h i = subst Held (ok-same h) i
found-Held id final code now (some b) db {db'} f h i = elim (Bool-cases (is_final_batch b.status)) [
  | inl yes_final ↦ let same : ok db ≡ ok db' = rw yes_final at h in subst Held (ok-same same) i
  | inr not_final ↦
      release_open-Held b final code now db (own_batch id db.batches f) (rw not_final at h) i
]

pub release_metered_batch_reservation-Held :
    (id : ℕ) (final : FinalStatus) (code now : ℕ) (db : MeteredDb) {db' : MeteredDb}
    → release_metered_batch_reservation id final code now db ≡ ok db'
    → Held db
    → Held db'
unfolding release_metered_batch_reservation
release_metered_batch_reservation-Held id final code now db {db'} h i =
    found-Held id final code now (find_where (has_batch_id id) db.batches) db refl h i
