-- ===== src/Metered/Granted.antt =====
-- What a created grant is (`createMeteredGrant` of src/services/meteredPayment.service.ts).
use fiberpassbackend.Prelude.{
  ℕ, ◌+◌, ◌≤◌, ◌≡◌, refl, sym, ap, subst, true, false, ◌&&◌, some, List, [], ◌∷◌, ◌++◌, arith, ◌==◌,
  leb, ltb, Outcome, ok, err, >>=-eq-ok, require-bind, reject_if-bind, reject_if-eq-ok, ◌<◌,
}
use fiberpassbackend.Prelude.Store.{find_where}
use fiberpassbackend.Prelude.Documents.{
  given, given-eq-ok, create, create-eq-ok, ok-same, total-append,
}
use fiberpassbackend.Metered.Records.{MeteredGrantRecord, SessionRecord, MeteredDb, MeteredError}
use fiberpassbackend.Metered.Amounts.{
  assert_metered_grant_limits, exact_metered_amount, session_limit, LimitError,
}
use fiberpassbackend.Metered.Usage.{MeteredActor, assert_owner_bound_session, is_owned_session}
use fiberpassbackend.Metered.Bounds.{assert_metered_grant_limits_iff}
use fiberpassbackend.Metered.Grants.{
  CreateMeteredGrantInput, GrantLimits, grant_limits, limits_of, validate_grant_executor,
  check_grant_targets, validate_executor_connection, new_grant, create_metered_grant, outlives,
  is_grant_destination, is_single_use,
}
use fiberpassbackend.Metered.Run.{same_rail}
use fiberpassbackend.Metered.Balance.{Held, booked, excess}

limits_of-eq-ok : (o : Outcome LimitError (Unit {0})) {u : Unit {0}} → limits_of o ≡ ok u → o ≡ ok u
limits_of-eq-ok (ok u) h = ap (λ x. ok x) (ok-same h)
limits_of-eq-ok (err e) h = cc

-- The limits of the input, read and accepted.
grant_limits-eq-ok :
    (input : CreateMeteredGrantInput) {l : GrantLimits}
    → grant_limits input ≡ ok l
    → assert_metered_grant_limits l.max_per_event l.total_limit l.immediate_threshold l.max_batch
      ≡ ok tt
unfolding grant_limits
grant_limits-eq-ok input {l} h =
    let (a, ha, h1) = >>=-eq-ok (exact_metered_amount input.max_per_event_atomic true) _ h in
    let (b, hb, h2) = >>=-eq-ok (exact_metered_amount input.total_limit_atomic true) _ h1 in
    let (c, hc, h3) = >>=-eq-ok (exact_metered_amount input.immediate_threshold_atomic true) _ h2 in
    let (d, hd, h4) = >>=-eq-ok (exact_metered_amount input.max_batch_atomic true) _ h3 in
    let (u, hu, h5) = >>=-eq-ok (limits_of (assert_metered_grant_limits a b c d)) _ h4 in
    subst
      (λ (x : GrantLimits).
        assert_metered_grant_limits x.max_per_event x.total_limit x.immediate_threshold x.max_batch
        ≡ ok tt)
      (ok-same h5) (limits_of-eq-ok (assert_metered_grant_limits a b c d) hu)

-- The session that a grant was checked against.
record Target (actor : MeteredActor) (input : CreateMeteredGrantInput) (sum expires_at : ℕ)
    (db : MeteredDb) (s : SessionRecord) : Type 0 where
  found : find_where (is_owned_session input.session_id actor.owner_wallet_id) db.sessions ≡ some s
  within : sum ≤ session_limit s
  ends : outlives expires_at s.expiry_at ≡ false

module _ (required_btcpay_permissions : (store_id : ℕ) → List ℕ) where
  -- A created grant, and the collections after it.
  record Created (actor : MeteredActor) (input : CreateMeteredGrantInput) (id now : ℕ)
      (db : MeteredDb) (g : MeteredGrantRecord) (db' : MeteredDb) : Type 0 where
    limits : GrantLimits
    expires_at : ℕ
    accepted :
        assert_metered_grant_limits limits.max_per_event limits.total_limit
          limits.immediate_threshold limits.max_batch
        ≡ ok tt
    is_grant : g ≡ new_grant actor input limits id expires_at
    later : leb expires_at now ≡ false
    after : db' ≡ record db { grants = db.grants ++ (g ∷ []) }
    targets :
        (u : Unit {0}) × (check_grant_targets required_btcpay_permissions actor input limits
            expires_at now db
          ≡ ok u)

  create_metered_grant-Created :
      (actor : MeteredActor) (input : CreateMeteredGrantInput) (id now : ℕ) (db : MeteredDb)
      {r : MeteredGrantRecord × MeteredDb}
      → create_metered_grant required_btcpay_permissions actor input id now db ≡ ok r
      → Created actor input id now db r.0 r.1
  unfolding create_metered_grant
  create_metered_grant-Created actor input id now db {r} h =
      let (owner, h1) = require-bind actor.is_wallet MeteredError.grant_owner_required _ h in
      let (limits, hl, h2) = >>=-eq-ok (grant_limits input) _ h1 in
      let (u, hv, h3) =
        >>=-eq-ok (validate_grant_executor input.rail input.executor input.connection_id) _ h2 in
      let (expires_at, he, h4) =
        >>=-eq-ok (given input.expires_at MeteredError.grant_expiry_invalid) _ h3 in
      let (later, h5) =
        reject_if-bind (leb expires_at now) MeteredError.grant_expiry_invalid _ h4 in
      let (v, ht, h6) =
        >>=-eq-ok
          (check_grant_targets required_btcpay_permissions actor input limits expires_at now db) _
          h5 in
      let (w, hc, h7) =
        >>=-eq-ok
          (validate_executor_connection required_btcpay_permissions input.executor actor input
            limits db)
          _ h6 in
      let g = new_grant actor input limits id expires_at in
      let (grants, hg, h8) =
        >>=-eq-ok (create (λ x. x.grant_id == id) MeteredError.duplicate_key g db.grants) _ h7 in
      let (free, made) =
        create-eq-ok (λ x. x.grant_id == id) MeteredError.duplicate_key g db.grants hg in
      subst (λ (x : MeteredGrantRecord × MeteredDb). Created actor input id now db x.0 x.1)
        (ok-same h8)
        (record {
          limits = limits;
          expires_at = expires_at;
          accepted = grant_limits-eq-ok input hl;
          is_grant = refl;
          later = later;
          after = ap (λ l. record db { grants = l }) made;
          targets = (v, ht);
        })

  check_grant_targets-Target :
      (actor : MeteredActor) (input : CreateMeteredGrantInput) (limits : GrantLimits)
      (expires_at now : ℕ) (db : MeteredDb) {u : Unit {0}}
      → check_grant_targets required_btcpay_permissions actor input limits expires_at now db ≡ ok u
      → (s : SessionRecord) × Target actor input limits.total_limit expires_at db s
  unfolding check_grant_targets
  check_grant_targets-Target actor input limits expires_at now db {u} h =
      let (s, hs, h1) =
        >>=-eq-ok
          (given (find_where (is_owned_session input.session_id actor.owner_wallet_id) db.sessions)
            MeteredError.session_not_found)
          _ h in
      let (v, hv, h2) = >>=-eq-ok (assert_owner_bound_session s actor now) _ h1 in
      let (ends, h3) =
        reject_if-bind (outlives expires_at s.expiry_at) MeteredError.grant_expiry_invalid _ h2 in
      let (d, hd, h4) =
        >>=-eq-ok
          (given (find_where (is_grant_destination input actor) db.destinations)
            MeteredError.destination_not_found)
          _ h3 in
      let (reusable, h5) =
        reject_if-bind (is_single_use d.kind) MeteredError.reusable_destination_required _ h4 in
      let (same, h6) =
        require-bind
          (same_rail d.rail input.rail
            && d.network == input.network
            && d.asset_id == input.asset_id)
          MeteredError.destination_mismatch _ h5 in
      let (asset, h7) =
        require-bind (s.asset_id == input.asset_id) MeteredError.session_asset_mismatch _ h6 in
      let within =
        reject_if-eq-ok (ltb (session_limit s) limits.total_limit) MeteredError.grant_above_session
          h7 in
      (
        s,
        record {
          found = given-eq-ok _ MeteredError.session_not_found hs;
          within = ground arith;
          ends = ends;
        },
      )

  -- A grant that is created has positive limits, of which an event is at most the total and the batch,
  -- and the immediate threshold at most the batch; it has spent and reserved nothing, it expires later
  -- than now, and it is for a session of the actor of which the limit covers the total of the grant.
  pub create_metered_grant-limits :
      (actor : MeteredActor) (input : CreateMeteredGrantInput) (id now : ℕ) (db db' : MeteredDb)
      (g : MeteredGrantRecord)
      → create_metered_grant required_btcpay_permissions actor input id now db ≡ ok (g, db')
      → (1 ≤ g.max_per_event_atomic)
        × (1 ≤ g.immediate_threshold_atomic)
        × (g.max_per_event_atomic ≤ g.total_limit_atomic)
        × (g.max_per_event_atomic ≤ g.max_batch_atomic)
        × (g.immediate_threshold_atomic ≤ g.max_batch_atomic)
        × (g.spent_atomic + g.reserved_atomic ≡ 0)
        × (now < g.expires_at)
        × (s : SessionRecord) × (find_where
              (is_owned_session g.session_id actor.owner_wallet_id)
              db.sessions
            ≡ some s)
        × (g.total_limit_atomic ≤ session_limit s)
  create_metered_grant-limits actor input id now db db' g h =
      let c = create_metered_grant-Created actor input id now db h in
      let (a, b, d, e, f) =
        (assert_metered_grant_limits_iff c.limits.max_per_event c.limits.total_limit
            c.limits.immediate_threshold c.limits.max_batch).0
          c.accepted in
      let (s, t) =
        check_grant_targets-Target actor input c.limits c.expires_at now db c.targets.1 in
      rw c.is_grant (a, b, d, e, f, refl, ground (arith, c.later), s, t.found, t.within)

  pub create_metered_grant-Held :
      (actor : MeteredActor) (input : CreateMeteredGrantInput) (id now : ℕ) (db : MeteredDb)
      {r : MeteredGrantRecord × MeteredDb}
      → create_metered_grant required_btcpay_permissions actor input id now db ≡ ok r
      → Held db
      → Held r.1
  create_metered_grant-Held actor input id now db {r} h i =
      let c = create_metered_grant-Created actor input id now db h in
      subst Held (sym c.after) (record {
        per_grant = λ k.
            let nothing : booked k r.0 ≡ 0 = rw c.is_grant (ground arith) in
            omega (arith, total-append (booked k) db.grants r.0, nothing, i.per_grant k);
        within_grants =
            let nothing : excess r.0 ≡ 0 = rw c.is_grant (omega arith) in
            omega (arith, total-append excess db.grants r.0, nothing, i.within_grants);
        within_sessions = i.within_sessions;
        at_home = i.at_home;
        unique = i.unique;
      })
