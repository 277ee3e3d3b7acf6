-- ===== src/Charges/Opening.antt =====
-- `reserveChargeAttempt` and the steps of an execution (src/services/chargeReservation.service.ts) keep
-- the reserved amounts in agreement.
use fiberpassbackend.Prelude.{
  ℕ, ◌+◌, ◌≡◌, sym, Bool, true, Option, none, some, List, [], ◌∷◌, ◌++◌, arith, Outcome, ok, err,
  >>=-eq-ok, reject_if-bind, subst,
}
use fiberpassbackend.Prelude.Store.{total, update_where, update_where-eq-some, find_where}
use fiberpassbackend.Funding.Domain.{is_some}
use fiberpassbackend.Money.{legacy_minor_to_atomic_amount}
use fiberpassbackend.Charges.Records.{
  Attempt, Session, DailyCounter, ChargeReserveStatus, ChargeDb, ChargeError,
}
use fiberpassbackend.Charges.Receipts.{convert}
use fiberpassbackend.Charges.Reservation.{
  updated, can_reserve, can_reserve_day, reserve_in_session, reserve_in_day, create_attempt,
  has_attempt_id, historical_spent, ReserveChargeAttemptInput, ReserveChargeAttemptResult,
  charge_reservation_day, set_on_insert, insert_counter, reserve_unless, return_existing,
  reserve_new, reserve_in_transaction, reserve_charge_attempt, recover,
}
use fiberpassbackend.Charges.Balance.{Agreed, booked, booked_day, held, held_day, excess}
use fiberpassbackend.Charges.Preservation.{updated-eq-ok, same-ok}

total-append :
    {A : Type 0} (w : A → ℕ) (l : List A) (a : A) → total w (l ++ (a ∷ [])) ≡ total w l + w a
total-append w [] a = omega arith
total-append w (b ∷ l) a = omega (arith, total-append w l a)

insert_counter-Agreed :
    (o : Option DailyCounter) (session day : ℕ) (db : ChargeDb)
    → Agreed db
    → Agreed (insert_counter o session day db)
insert_counter-Agreed (some c) session day db g = g
insert_counter-Agreed none session day db g =
    let c : DailyCounter = record {
      session_id = session;
      day = day;
      spent_minor = historical_spent session day db.attempts;
      reserved_minor = 0;
    } in
    record {
      per_session = g.per_session;
      per_day = λ i d. ground (arith, g.per_day i d, total-append (booked_day i d) db.counters c);
      limited = g.limited;
    }

-- What the filters of a reservation let through.
reserve-Moves :
    (session_match : Session → Bool) (input : ReserveChargeAttemptInput) (s : Session)
    (c : DailyCounter) (a : Attempt)
    → can_reserve session_match input s ≡ true
    → can_reserve_day input c ≡ true
    → a.session_id ≡ input.session_id
    → a.amount_minor ≡ some input.amount_minor
    → a.reservation_day ≡ some (charge_reservation_day input.now)
    → a.reserve_status ≡ ChargeReserveStatus.reserved
    → ((i : ℕ) → booked i (reserve_in_session input.amount_minor s) ≡ booked i s + held i a)
      × ((i d : ℕ)
          → booked_day i d (reserve_in_day input.amount_minor c)
            ≡ booked_day i d c + held_day i d a)
      × (excess (reserve_in_session input.amount_minor s) ≡ 0)
reserve-Moves session_match input s c a hs hc e1 e2 e3 e4 =
    (λ i. ground arith, λ i d. ground arith, ground arith)

pub create_attempt-eq-ok :
    (input : ReserveChargeAttemptInput) (created_at : ℕ) (db : ChargeDb) {a : Attempt}
    {db' : ChargeDb}
    → create_attempt input created_at db ≡ ok (a, db')
    → (db' ≡ record db { attempts = db.attempts ++ (a ∷ []) })
      × (a.session_id ≡ input.session_id)
      × (a.amount_minor ≡ some input.amount_minor)
      × (a.reservation_day ≡ some (charge_reservation_day input.now))
      × (a.reserve_status ≡ ChargeReserveStatus.reserved)
      × (a.idempotency_key ≡ input.idempotency_key)
unfolding create_attempt
create_attempt-eq-ok input created_at db {a} {db'} h =
    let (x, _, h1) = >>=-eq-ok (convert (legacy_minor_to_atomic_amount input.amount_minor)) _ h in
    let (fresh, h2) =
      reject_if-bind (is_some (find_where (has_attempt_id input.attempt_id) db.attempts))
        ChargeError.duplicate_key _ h1 in
    ground arith

reserved-Agreed :
    (session_match : Session → Bool) (input : ReserveChargeAttemptInput) (created_at : ℕ)
    (db : ChargeDb) {a : Attempt} {db' : ChargeDb}
    → Agreed db
    → reserve_new session_match input created_at db ≡ ok (a, db')
    → Agreed db'
unfolding reserve_new
reserved-Agreed session_match input created_at db {a} {db'} g h =
    let ((s, sessions), hs, h1) =
      >>=-eq-ok
        (updated
          (update_where (can_reserve session_match input) (reserve_in_session input.amount_minor)
            db.sessions)
          ChargeError.session_reservation_rejected)
        _ h in
    let ((c, counters), hc, h2) =
      >>=-eq-ok
        (updated
          (update_where (can_reserve_day input) (reserve_in_day input.amount_minor) db.counters)
          ChargeError.daily_reservation_rejected)
        _ h1 in
    let us =
      update_where-eq-some (can_reserve session_match input) (reserve_in_session input.amount_minor)
        db.sessions (updated-eq-ok _ ChargeError.session_reservation_rejected hs) in
    let uc =
      update_where-eq-some (can_reserve_day input) (reserve_in_day input.amount_minor) db.counters
        (updated-eq-ok _ ChargeError.daily_reservation_rejected hc) in
    let k =
      create_attempt-eq-ok input created_at (record db { sessions = sessions; counters = counters })
        h2 in
    let m =
      reserve-Moves session_match input us.before uc.before a us.passes uc.passes k.1 k.2 k.3 k.4 in
    subst Agreed (sym k.0) (record {
      per_session = λ i.
          omega (
            arith,
            m.0 i,
            us.sums (booked i),
            total-append (held i) db.attempts a,
            g.per_session i,
          );
      per_day = λ i d. omega (
        arith,
        m.1 i d,
        uc.sums (booked_day i d),
        total-append (held_day i d) db.attempts a,
        g.per_day i d,
      );
      limited = omega (arith, m.2, us.sums excess, g.limited);
    })

reserve_unless-Agreed :
    (session_match : Session → Bool) (o : Option Attempt) (input : ReserveChargeAttemptInput)
    (created_at : ℕ) (db : ChargeDb) {r : ReserveChargeAttemptResult × ChargeDb}
    → Agreed db
    → reserve_unless session_match o input created_at db ≡ ok r
    → Agreed r.1
unfolding reserve_unless
reserve_unless-Agreed session_match (some x) input created_at db {r} g h =
    subst (λ (y : ReserveChargeAttemptResult × ChargeDb). Agreed y.1) (same-ok h) g
reserve_unless-Agreed session_match none input created_at db {r} g h =
    let day = charge_reservation_day input.now in
    let ((a, db1), ha, h1) =
      >>=-eq-ok (reserve_new session_match input created_at (set_on_insert input.session_id day db))
        _ h in
    subst (λ (y : ReserveChargeAttemptResult × ChargeDb). Agreed y.1) (same-ok h1)
      (reserved-Agreed session_match input created_at (set_on_insert input.session_id day db)
        (insert_counter-Agreed _ input.session_id day db g) ha)

return_existing-Agreed :
    (session_match : Session → Bool) (o : Option Attempt) (e : ChargeError) (db : ChargeDb)
    {r : ReserveChargeAttemptResult × ChargeDb}
    → Agreed db
    → return_existing session_match o e db ≡ ok r
    → Agreed r.1
return_existing-Agreed session_match (some x) e db g h =
    subst (λ (y : ReserveChargeAttemptResult × ChargeDb). Agreed y.1) (same-ok h) g
return_existing-Agreed session_match none e db g h = cc

recover-Agreed :
    (session_match : Session → Bool) (input : ReserveChargeAttemptInput) (db : ChargeDb)
    (o : Outcome ChargeError (ReserveChargeAttemptResult × ChargeDb))
    {r : ReserveChargeAttemptResult × ChargeDb}
    → Agreed db
    → ((x : ReserveChargeAttemptResult × ChargeDb) → o ≡ ok x → Agreed x.1)
    → recover session_match input db o ≡ ok r
    → Agreed r.1
unfolding recover
recover-Agreed session_match input db (ok x) {r} g k h = k r h
recover-Agreed session_match input db (err ChargeError.duplicate_key) g k h =
    return_existing-Agreed session_match _ ChargeError.duplicate_key db g h
recover-Agreed session_match input db (err e) g k h = cc

-- When a reservation succeeds, new or repeated, on collections whose reserved amounts agree with the
-- reserved attempts, of each session and of each day, and where no session has spent and reserved more
-- than its limit, the same holds after it.
pub reserve_charge_attempt-Agreed :
    (session_match : Session → Bool) (input : ReserveChargeAttemptInput) (created_at : ℕ)
    (db : ChargeDb) {r : ReserveChargeAttemptResult × ChargeDb}
    → reserve_charge_attempt session_match input created_at db ≡ ok r
    → Agreed db
    → Agreed r.1
unfolding reserve_charge_attempt reserve_in_transaction
reserve_charge_attempt-Agreed session_match input created_at db {r} h g =
    recover-Agreed session_match input db (reserve_in_transaction session_match input created_at db)
      g (λ x e. reserve_unless-Agreed session_match _ input created_at db {r = x} g e) h
