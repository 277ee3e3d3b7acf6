-- ===== src/Charges/Preservation.antt =====
-- Every operation of src/services/chargeReservation.service.ts keeps the reserved amounts in agreement.
use fiberpassbackend.Prelude.{
  ℕ, ◌+◌, ◌≡◌, sym, ap, ◌∙◌, Bool, true, ◌||◌, Option, none, some, List, [], ◌∷◌, arith, ==_iff,
  Outcome, ok, >>=-eq-ok, require-bind, subst, Option-cases, Bool-cases, inl, inr,
}
use fiberpassbackend.Prelude.Store.{total, update_where, update_where-eq-some, find_where}
use fiberpassbackend.Charges.Records.{Attempt, ChargeDb, ChargeError}
use fiberpassbackend.Charges.Reservation.{updated}
use fiberpassbackend.Charges.Execution.{is_reserved}
use fiberpassbackend.Charges.Settlement.{
  amount_of, has_id, can_unreserve, can_unreserve_day, unreserve, unreserve_day, fail_attempt,
  save_attempt, given, release_attempt, release_charge_reservation, is_released, is_failed,
}
use fiberpassbackend.Charges.Balance.{Agreed, Together-Agreed, release-Together}

pub updated-eq-ok :
    {A : Type 0} (o : Option (A × List A)) (e : ChargeError) {r : A × List A}
    → updated o e ≡ ok r
    → o ≡ some r
updated-eq-ok none e h = cc
updated-eq-ok (some r) e h = cc

pub given-eq-ok :
    {A : Type 0} (o : Option A) (e : ChargeError) {a : A} → given o e ≡ ok a → o ≡ some a
given-eq-ok none e h = cc
given-eq-ok (some a) e h = cc

pub same-ok : {A : Type 0} {x y : A} → ◌≡◌ {A = Outcome ChargeError A} (ok x) (ok y) → x ≡ y
same-ok h = cc

pub same-some : {A : Type 0} {x y : A} → some x ≡ some y → x ≡ y
same-some h = cc

pub find_where-passes :
    {A : Type 0} (p : A → Bool) (l : List A) {a : A} → find_where p l ≡ some a → p a ≡ true
find_where-passes p [] h = cc
find_where-passes p (b ∷ l) {a} h = ground (arith, find_where-passes p l {a = a})

pub save_attempt-eq-ok :
    (change : Attempt → Attempt) (a : Attempt) (db : ChargeDb) {r : Attempt × ChargeDb}
    → find_where (has_id a.attempt_id) db.attempts ≡ some a
    → save_attempt change a db ≡ ok r
    → (l : List Attempt) × (r.1 ≡ record db { attempts = l })
      × ((w : Attempt → ℕ) → total w l + w a ≡ total w db.attempts + w (change a))
save_attempt-eq-ok change a db {r} f h =
    let ((b, l), hu, h1) =
      >>=-eq-ok
        (updated (update_where (has_id a.attempt_id) change db.attempts)
          ChargeError.attempt_not_found)
        _ h in
    let u =
      update_where-eq-some (has_id a.attempt_id) change db.attempts
        (updated-eq-ok _ ChargeError.attempt_not_found hu) in
    let same : u.before ≡ a = same-some (sym u.first ∙ f) in
    (
      l,
      ap (λ (x : Attempt × ChargeDb). x.1) (sym (same-ok h1)),
      λ w. subst (λ x. total w l + w x ≡ total w db.attempts + w (change x)) same (u.sums w),
    )

release_attempt-Agreed :
    (a : Attempt) (code now : ℕ) (db : ChargeDb) {db' : ChargeDb}
    → find_where (has_id a.attempt_id) db.attempts ≡ some a
    → Agreed db
    → release_attempt a code now db ≡ ok db'
    → Agreed db'
unfolding release_attempt
release_attempt-Agreed a code now db {db'} f g h =
    let (is_held, h1) =
      require-bind (is_reserved a.reserve_status) ChargeError.not_releasable _ h in
    let (day, hd, h2) = >>=-eq-ok (given a.reservation_day ChargeError.not_releasable) _ h1 in
    let ((s, sessions), hs, h3) =
      >>=-eq-ok
        (updated
          (update_where (can_unreserve a.session_id (amount_of a)) (unreserve (amount_of a))
            db.sessions)
          ChargeError.counters_inconsistent)
        _ h2 in
    let ((c, counters), hc, h4) =
      >>=-eq-ok
        (updated
          (update_where (can_unreserve_day a.session_id day (amount_of a))
            (unreserve_day (amount_of a)) db.counters)
          ChargeError.counters_inconsistent)
        _ h3 in
    let ((b, db1), ha, h5) =
      >>=-eq-ok
        (save_attempt (fail_attempt code now) a
          (record db { sessions = sessions; counters = counters }))
        _ h4 in
    let us =
      update_where-eq-some (can_unreserve a.session_id (amount_of a)) (unreserve (amount_of a))
        db.sessions (updated-eq-ok _ ChargeError.counters_inconsistent hs) in
    let uc =
      update_where-eq-some (can_unreserve_day a.session_id day (amount_of a))
        (unreserve_day (amount_of a)) db.counters
        (updated-eq-ok _ ChargeError.counters_inconsistent hc) in
    let ua =
      save_attempt-eq-ok (fail_attempt code now) a
        (record db { sessions = sessions; counters = counters }) f ha in
    subst Agreed (sym ua.1 ∙ same-ok h5) (
      Together-Agreed db (record db { sessions = sessions; counters = counters; attempts = ua.0 })
        us.before (unreserve (amount_of a) us.before) uc.before
        (unreserve_day (amount_of a) uc.before) a (fail_attempt code now a)
        (release-Together us.before uc.before a day code now us.passes uc.passes
          (given-eq-ok _ ChargeError.not_releasable hd) is_held)
        us.sums uc.sums ua.2 g)

pub own-id :
    (id : ℕ) (l : List Attempt) {a : Attempt}
    → find_where (has_id id) l ≡ some a
    → find_where (has_id a.attempt_id) l ≡ some a
own-id id l {a} h =
    subst (λ k. find_where (has_id k) l ≡ some a)
      (sym ((==_iff a.attempt_id id).0 (find_where-passes (has_id id) l h))) h

-- When a release succeeds on collections whose reserved amounts agree with the reserved attempts, of
-- each session and of each day, and where no session has spent and reserved more than its limit, the
-- same holds after it.
pub release_charge_reservation-Agreed :
    (id code now : ℕ) (db : ChargeDb) {db' : ChargeDb}
    → release_charge_reservation id code now db ≡ ok db'
    → Agreed db
    → Agreed db'
unfolding release_charge_reservation
release_charge_reservation-Agreed id code now db {db'} h g =
    elim (Option-cases (find_where (has_id id) db.attempts)) [
      | inl absent ↦ subst Agreed (ground arith) g
      | inr (a, is) ↦ elim (Bool-cases (is_released a.reserve_status || is_failed a.status)) [
        | inl yes_done ↦ subst Agreed (ground arith) g
        | inr not_done ↦
            release_attempt-Agreed a code now db {db' = db'} (own-id id db.attempts is) g
              (ground arith)
      ]
    ]
