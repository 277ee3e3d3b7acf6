-- ===== src/Charges/Balance.antt =====
-- The amounts that sessions and daily counters hold in reserve
-- (src/services/chargeReservation.service.ts) are those of the attempts that are reserved.
use fiberpassbackend.Prelude.{
  ℕ, ◌+◌, ◌-◌, ◌≤◌, ◌≡◌, Bool, true, false, ◌&&◌, Option, none, some, arith, ◌==◌, if◌then◌else◌,
}
use fiberpassbackend.Prelude.Store.{total}
use fiberpassbackend.Charges.Records.{Attempt, Session, DailyCounter, ChargeDb}
use fiberpassbackend.Charges.Reservation.{is_counter}
use fiberpassbackend.Charges.Execution.{is_reserved}
use fiberpassbackend.Charges.Settlement.{
  amount_of, can_unreserve, can_unreserve_day, unreserve, unreserve_day, debit, debit_day,
  fail_attempt, succeed_attempt,
}

abbrev pub booked : ℕ → Session → ℕ
booked session s = if s.public_id == session then s.reserved_minor else 0

abbrev pub booked_day : ℕ → ℕ → DailyCounter → ℕ
booked_day session day c = if is_counter session day c then c.reserved_minor else 0

abbrev pub held : ℕ → Attempt → ℕ
held session a = if a.session_id == session && is_reserved a.reserve_status then amount_of a else 0

abbrev on_day : ℕ → Option ℕ → Bool
on_day day none = false
on_day day (some d) = d == day

abbrev pub held_day : ℕ → ℕ → Attempt → ℕ
held_day session day a =
    if a.session_id == session && on_day day a.reservation_day && is_reserved a.reserve_status
    then amount_of a
    else 0

-- By how much a session's spent and reserved amounts exceed its limit.
abbrev pub excess : Session → ℕ
excess s = s.spent_minor + s.reserved_minor - s.limit_minor

pub record Agreed (db : ChargeDb) : Type 0 where
  pub per_session :
      (session : ℕ) → total (booked session) db.sessions ≡ total (held session) db.attempts
  pub per_day :
      (session day : ℕ)
      → total (booked_day session day) db.counters ≡ total (held_day session day) db.attempts
  pub limited : total excess db.sessions ≡ 0

-- The change of one session, one counter and one attempt together.
pub record Together (s s' : Session) (c c' : DailyCounter) (a a' : Attempt) : Type 0 where
  pub sessions :
      (session : ℕ) → booked session s' + held session a ≡ booked session s + held session a'
  pub days :
      (session day : ℕ)
      → booked_day session day c' + held_day session day a
        ≡ booked_day session day c + held_day session day a'
  pub limit : excess s' ≤ excess s

pub Together-Agreed :
    (db db' : ChargeDb) (s s' : Session) (c c' : DailyCounter) (a a' : Attempt)
    → Together s s' c c' a a'
    → ((w : Session → ℕ) → total w db'.sessions + w s ≡ total w db.sessions + w s')
    → ((w : DailyCounter → ℕ) → total w db'.counters + w c ≡ total w db.counters + w c')
    → ((w : Attempt → ℕ) → total w db'.attempts + w a ≡ total w db.attempts + w a')
    → Agreed db
    → Agreed db'
Together-Agreed db db' s s' c c' a a' t hs hc ha g = record {
  per_session = λ i. omega (arith, t.sessions i, hs (booked i), ha (held i), g.per_session i);
  per_day = λ i d. omega (arith, t.days i d, hc (booked_day i d), ha (held_day i d), g.per_day i d);
  limited = omega (arith, t.limit, hs excess, g.limited);
}

pub release-Together :
    (s : Session) (c : DailyCounter) (a : Attempt) (day code now : ℕ)
    → can_unreserve a.session_id (amount_of a) s ≡ true
    → can_unreserve_day a.session_id day (amount_of a) c ≡ true
    → a.reservation_day ≡ some day
    → is_reserved a.reserve_status ≡ true
    → Together s
        (unreserve (amount_of a) s)
        c
        (unreserve_day (amount_of a) c)
        a
        (fail_attempt code now a)
release-Together s c a day code now hs hc hd hr = record {
  sessions = λ i. ground arith;
  days = λ i d. ground arith;
  limit = omega arith;
}

pub finalize-Together :
    (s : Session) (c : DailyCounter) (a : Attempt) (day now : ℕ)
    → can_unreserve a.session_id (amount_of a) s ≡ true
    → can_unreserve_day a.session_id day (amount_of a) c ≡ true
    → a.reservation_day ≡ some day
    → is_reserved a.reserve_status ≡ true
    → Together s (debit a s) c (debit_day (amount_of a) c) a (succeed_attempt now a)
finalize-Together s c a day now hs hc hd hr = record {
  sessions = λ i. ground arith;
  days = λ i d. ground arith;
  limit = ground arith;
}
