-- ===== src/Charges/Repeat.antt =====
-- A repeated `reserveChargeAttempt` (src/services/chargeReservation.service.ts) returns the attempt that
-- stands.
use fiberpassbackend.Prelude.{
  ℕ, ◌≡◌, refl, ap, ◌∙◌, Bool, true, false, Option, none, some, [], ◌∷◌, ◌++◌, arith, Outcome, ok,
  err, >>=-eq-ok, subst,
}
use fiberpassbackend.Prelude.Store.{find_where, update_where}
use fiberpassbackend.Prelude.Documents.{find_where-append}
use fiberpassbackend.Charges.Records.{Attempt, Session, DailyCounter, ChargeDb, ChargeError}
use fiberpassbackend.Charges.Reservation.{
  is_attempt_for, updated, can_reserve, can_reserve_day, reserve_in_session, reserve_in_day,
  ReserveChargeAttemptInput, ReserveChargeAttemptResult, charge_reservation_day, set_on_insert,
  insert_counter, reserve_unless, return_existing, reserve_new, reserve_in_transaction,
  reserve_charge_attempt, existing_attempt, recover,
}
use fiberpassbackend.Charges.Preservation.{same-ok}
use fiberpassbackend.Charges.Opening.{create_attempt-eq-ok}

insert_counter-attempts :
    (o : Option DailyCounter) (session day : ℕ) (db : ChargeDb)
    → (insert_counter o session day db).attempts ≡ db.attempts
insert_counter-attempts (some c) session day db = refl
insert_counter-attempts none session day db = refl

-- The attempt of a result is the one that a lookup finds.
abbrev Stands : ReserveChargeAttemptInput → ReserveChargeAttemptResult × ChargeDb → Type 0
Stands input r = existing_attempt input.session_id input.idempotency_key r.1 ≡ some r.0.attempt

module _ (session_match : Session → Bool) (input : ReserveChargeAttemptInput) (created_at : ℕ) where
  reserve_new-attempts :
      (db : ChargeDb) {a : Attempt} {db' : ChargeDb}
      → reserve_new session_match input created_at db ≡ ok (a, db')
      → (db'.attempts ≡ db.attempts ++ (a ∷ []))
        × (is_attempt_for input.session_id input.idempotency_key a ≡ true)
  unfolding reserve_new
  reserve_new-attempts db {a} {db'} h =
      let ((s, sessions), hs, h1) =
        >>=-eq-ok
          (updated
            (update_where (can_reserve session_match input) (reserve_in_session input.amount_minor)
              db.sessions)
            ChargeError.session_reservation_rejected)
          _ h in
      let ((c, counters), hc, h2) =
        >>=-eq-ok
          (updated
            (update_where (can_reserve_day input) (reserve_in_day input.amount_minor) db.counters)
            ChargeError.daily_reservation_rejected)
          _ h1 in
      let k =
        create_attempt-eq-ok input created_at
          (record db { sessions = sessions; counters = counters }) h2 in
      (ap ChargeDb.attempts k.0, ground (arith, k))

  reserve_unless-Stands :
      (o : Option Attempt) (db : ChargeDb) {r : ReserveChargeAttemptResult × ChargeDb}
      → existing_attempt input.session_id input.idempotency_key db ≡ o
      → reserve_unless session_match o input created_at db ≡ ok r
      → Stands input r
  unfolding reserve_unless
  reserve_unless-Stands (some x) db {r} e h =
      subst (λ (y : ReserveChargeAttemptResult × ChargeDb). Stands input y) (same-ok h) e
  reserve_unless-Stands none db {r} e h =
      let day = charge_reservation_day input.now in
      let db1 = set_on_insert input.session_id day db in
      let ((a, db2), ha, h1) = >>=-eq-ok (reserve_new session_match input created_at db1) _ h in
      let k = reserve_new-attempts db1 ha in
      let p = is_attempt_for input.session_id input.idempotency_key in
      let same = insert_counter-attempts _ input.session_id day db in
      subst (λ (y : ReserveChargeAttemptResult × ChargeDb). Stands input y) (same-ok h1)
        (ap (find_where p) (k.0 ∙ ap (λ l. l ++ (a ∷ [])) same)
          ∙ find_where-append p db.attempts a e k.1)

  return_existing-Stands :
      (o : Option Attempt) (e : ChargeError) (db : ChargeDb)
      {r : ReserveChargeAttemptResult × ChargeDb}
      → existing_attempt input.session_id input.idempotency_key db ≡ o
      → return_existing session_match o e db ≡ ok r
      → Stands input r
  return_existing-Stands (some x) e db {r} f h =
      subst (λ (y : ReserveChargeAttemptResult × ChargeDb). Stands input y) (same-ok h) f
  return_existing-Stands none e db f h = cc

  recover-Stands :
      (db : ChargeDb) (o : Outcome ChargeError (ReserveChargeAttemptResult × ChargeDb))
      {r : ReserveChargeAttemptResult × ChargeDb}
      → ((x : ReserveChargeAttemptResult × ChargeDb) → o ≡ ok x → Stands input x)
      → recover session_match input db o ≡ ok r
      → Stands input r
  unfolding recover
  recover-Stands db (ok x) {r} k h = k r h
  recover-Stands db (err ChargeError.duplicate_key) k h =
      return_existing-Stands _ ChargeError.duplicate_key db refl h
  recover-Stands db (err e) k h = cc

  reserve-Stands :
      (db : ChargeDb) {r : ReserveChargeAttemptResult × ChargeDb}
      → reserve_charge_attempt session_match input created_at db ≡ ok r
      → Stands input r
  unfolding reserve_charge_attempt reserve_in_transaction
  reserve-Stands db h =
      recover-Stands db (reserve_in_transaction session_match input created_at db)
        (λ x e. reserve_unless-Stands _ db {r = x} refl e) h

again :
    (session_match : Session → Bool) (o : Option Attempt) (input : ReserveChargeAttemptInput)
    (created_at : ℕ) (db : ChargeDb) (a : Attempt)
    → o ≡ some a
    → recover session_match input db (reserve_unless session_match o input created_at db)
      ≡ ok (record { attempt = a; created = false }, db)
unfolding recover reserve_unless
again session_match o input created_at db a e = rw e

-- When a reservation succeeds, then on the collections that it leaves any other reservation for the same
-- session with the same idempotency key, whatever else it asks for, returns the same attempt, not newly
-- created, and changes nothing.
pub reserve_charge_attempt-repeat :
    (session_match : Session → Bool) (first second : ReserveChargeAttemptInput)
    (created_at later : ℕ) (db : ChargeDb) {r : ReserveChargeAttemptResult × ChargeDb}
    → reserve_charge_attempt session_match first created_at db ≡ ok r
    → second.session_id ≡ first.session_id
    → second.idempotency_key ≡ first.idempotency_key
    → reserve_charge_attempt session_match second later r.1
      ≡ ok (record { attempt = r.0.attempt; created = false }, r.1)
unfolding reserve_charge_attempt reserve_in_transaction
reserve_charge_attempt-repeat session_match first second created_at later db {r} h same_session
      same_key =
    again session_match _ second later r.1 r.0.attempt (
      ap (λ k. existing_attempt k second.idempotency_key r.1) same_session
      ∙ ap (λ k. existing_attempt first.session_id k r.1) same_key
      ∙ reserve-Stands session_match first created_at db h)
