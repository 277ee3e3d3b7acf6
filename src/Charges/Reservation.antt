-- ===== src/Charges/Reservation.antt =====
-- `reserveChargeAttempt` of src/services/chargeReservation.service.ts.
use fiberpassbackend.Prelude.{
  ℕ, ◌+◌, ◌*◌, ◌/◌, Bool, true, false, ◌&&◌, ◌||◌, not, Option, none, some, List, [], ◌∷◌, ◌++◌,
  ◌==◌, leb, ltb, if◌then◌else◌, Outcome, ok, err, ◌>>=◌, ◌>>◌, reject_if,
}
use fiberpassbackend.Prelude.Store.{find_where, update_where, total}
use fiberpassbackend.Money.{legacy_minor_to_atomic_amount}
use fiberpassbackend.Funding.Domain.{is_some}
use fiberpassbackend.Charges.Records.{
  Attempt, Session, DailyCounter, ChargeAttemptStatus, pending, succeeded, SessionStatus, active,
  SessionLifecycleState, idle, ChargeExecutionLayer, Metadata, reserved, not_started, ChargeDb,
  ChargeError,
}
use fiberpassbackend.Charges.Receipts.{or_else, convert}

-- `EXECUTION_LEASE_MS`
abbrev pub execution_lease_ms : ℕ
execution_lease_ms = 60000

abbrev day_ms : ℕ
day_ms = 24 * 60 * 60 * 1000

pub record ReserveChargeAttemptInput : Type 0 where
  pub attempt_id : ℕ
  pub session_id : ℕ
  pub owner_wallet_id : ℕ
  pub idempotency_key : ℕ
  pub request_fingerprint : ℕ
  pub amount : ℕ
  pub amount_minor : ℕ
  pub asset_id : ℕ
  pub execution_layer : ChargeExecutionLayer
  pub payment_request_hash : Option ℕ
  pub provider_correlation_id : Option ℕ
  pub metadata : Metadata
  pub daily_limit_minor : ℕ
  pub execution_lease_id : ℕ
  pub now : ℕ

pub record ReserveChargeAttemptResult : Type 0 where
  pub attempt : Attempt
  pub created : Bool

abbrev pub charge_reservation_day : ℕ → ℕ
charge_reservation_day date = date / day_ms

-- `sessionReservationExpression` and `dailyReservationExpression`
abbrev pub fits : (spent reserved amount limit : ℕ) → Bool
fits spent held amount limit = leb (spent + held + amount) limit

abbrev pub is_attempt_for : ℕ → ℕ → Attempt → Bool
is_attempt_for session key a = a.session_id == session && a.idempotency_key == key

abbrev pub existing_attempt : ℕ → ℕ → ChargeDb → Option Attempt
existing_attempt session key db = find_where (is_attempt_for session key) db.attempts

abbrev pub is_counter : ℕ → ℕ → DailyCounter → Bool
is_counter session day c = c.session_id == session && c.day == day

abbrev is_succeeded : ChargeAttemptStatus → Bool
is_succeeded succeeded = true
is_succeeded _ = false

-- What an attempt of the session that was created on the day and has succeeded adds to the day's
-- spending.
abbrev historical_weight : ℕ → ℕ → Attempt → ℕ
historical_weight session day a =
    if a.session_id == session
      && is_succeeded a.status
      && leb (day * day_ms) a.created_at
      && ltb a.created_at (day * day_ms + day_ms)
    then or_else a.amount_minor a.amount
    else 0

abbrev pub historical_spent : ℕ → ℕ → List Attempt → ℕ
historical_spent session day attempts = total (historical_weight session day) attempts

-- The counter of a day starts at what the attempts of the day have spent.
abbrev pub insert_counter : Option DailyCounter → ℕ → ℕ → ChargeDb → ChargeDb
insert_counter (some c) session day db = db
insert_counter none session day db = record db {
  counters =
      db.counters
      ++ (record {
        session_id = session;
        day = day;
        spent_minor = historical_spent session day db.attempts;
        reserved_minor = 0;
      }
          ∷ []);
}

abbrev pub set_on_insert : ℕ → ℕ → ChargeDb → ChargeDb
set_on_insert session day db =
    insert_counter (find_where (is_counter session day) db.counters) session day db

abbrev is_active : SessionStatus → Bool
is_active active = true
is_active _ = false

abbrev is_idle : Option SessionLifecycleState → Bool
is_idle none = true
is_idle (some idle) = true
is_idle _ = false

-- `sessionMatch` is the caller's own filter, less its `$and`, `$or` and `$expr`, which the filter of the
-- service replaces.
abbrev pub can_reserve : (Session → Bool) → ReserveChargeAttemptInput → Session → Bool
can_reserve session_match input s =
    s.public_id == input.session_id
    && s.owner_wallet_id == input.owner_wallet_id
    && is_active s.status
    && session_match s
    && is_idle s.lifecycle_state
    && (not s.single_use || s.spent_minor + s.reserved_minor == 0)
    && fits s.spent_minor s.reserved_minor input.amount_minor s.limit_minor

abbrev pub reserve_in_session : ℕ → Session → Session
reserve_in_session amount s = record s { reserved_minor = s.reserved_minor + amount }

abbrev pub can_reserve_day : ReserveChargeAttemptInput → DailyCounter → Bool
can_reserve_day input c =
    is_counter input.session_id (charge_reservation_day input.now) c
    && fits c.spent_minor c.reserved_minor input.amount_minor input.daily_limit_minor

abbrev pub reserve_in_day : ℕ → DailyCounter → DailyCounter
reserve_in_day amount c = record c { reserved_minor = c.reserved_minor + amount }

-- `if (!document) throw error` after an update.
abbrev pub updated :
    {A : Type 0} → Option (A × List A) → ChargeError → Outcome ChargeError (A × List A)
updated none e = err e
updated (some r) e = ok r

abbrev pub has_attempt_id : ℕ → Attempt → Bool
has_attempt_id id a = a.attempt_id == id

-- The clock of the database gives `createdAt`.
abbrev pub new_attempt : ReserveChargeAttemptInput → (created_at : ℕ) → Attempt
new_attempt input created_at = record {
  attempt_id = input.attempt_id;
  session_id = input.session_id;
  owner_wallet_id = some input.owner_wallet_id;
  idempotency_key = input.idempotency_key;
  request_fingerprint = input.request_fingerprint;
  amount = input.amount;
  amount_minor = some input.amount_minor;
  amount_atomic = none;
  asset_id = input.asset_id;
  status = pending;
  reserve_status = reserved;
  failure_code = none;
  provider = none;
  network = none;
  proof_id = none;
  proof_type = none;
  execution_layer = input.execution_layer;
  payment_request_hash = input.payment_request_hash;
  provider_correlation_id = input.provider_correlation_id;
  provider_status = not_started;
  provider_submitted_at = none;
  provider_completed_at = none;
  reservation_day = some (charge_reservation_day input.now);
  reserved_at = some input.now;
  finalized_at = none;
  execution_lease_id = some input.execution_lease_id;
  execution_lease_expires_at = some (input.now + execution_lease_ms);
  metadata = input.metadata;
  created_at = created_at;
}

-- `ChargeAttemptModel.create`: the attempt's id is unique.
unfoldable pub create_attempt :
    ReserveChargeAttemptInput
    → (created_at : ℕ) → ChargeDb
    → Outcome ChargeError (Attempt × ChargeDb)
create_attempt input created_at db = do
  amount_atomic ← convert (legacy_minor_to_atomic_amount input.amount_minor)
  let attempt : Attempt = record (new_attempt input created_at) {
    amount_atomic = some amount_atomic;
  }
  reject_if (is_some (find_where (has_attempt_id input.attempt_id) db.attempts))
      ChargeError.duplicate_key
  ok (attempt, record db { attempts = db.attempts ++ (attempt ∷ []) })

module _ (session_match : Session → Bool) where
  unfoldable pub reserve_new :
      ReserveChargeAttemptInput
      → (created_at : ℕ) → ChargeDb
      → Outcome ChargeError (Attempt × ChargeDb)
  unfolding create_attempt
  reserve_new input created_at db = do
    (session, sessions) ←
        updated
          (update_where (can_reserve session_match input) (reserve_in_session input.amount_minor)
            db.sessions)
          ChargeError.session_reservation_rejected
    (counter, counters) ←
        updated
          (update_where (can_reserve_day input) (reserve_in_day input.amount_minor) db.counters)
          ChargeError.daily_reservation_rejected
    create_attempt input created_at (record db { sessions = sessions; counters = counters })

  unfoldable pub reserve_unless :
      Option Attempt
      → ReserveChargeAttemptInput
      → (created_at : ℕ) → ChargeDb
      → Outcome ChargeError (ReserveChargeAttemptResult × ChargeDb)
  unfolding reserve_new
  reserve_unless (some existing) input created_at db =
      ok (record { attempt = existing; created = false }, db)
  reserve_unless none input created_at db = do
    (attempt, db') ←
        reserve_new input created_at
          (set_on_insert input.session_id (charge_reservation_day input.now) db)
    ok (record { attempt = attempt; created = true }, db')

  -- The transaction of a reservation.
  unfoldable pub reserve_in_transaction :
      ReserveChargeAttemptInput
      → (created_at : ℕ) → ChargeDb
      → Outcome ChargeError (ReserveChargeAttemptResult × ChargeDb)
  unfolding reserve_unless
  reserve_in_transaction input created_at db =
      reserve_unless (existing_attempt input.session_id input.idempotency_key db) input created_at
        db

  abbrev pub return_existing :
      Option Attempt
      → ChargeError
      → ChargeDb
      → Outcome ChargeError (ReserveChargeAttemptResult × ChargeDb)
  return_existing (some existing) e db = ok (record { attempt = existing; created = false }, db)
  return_existing none e db = err e

  -- A duplicate key means that the attempt may stand there already.
  unfoldable pub recover :
      ReserveChargeAttemptInput
      → ChargeDb
      → Outcome ChargeError (ReserveChargeAttemptResult × ChargeDb)
      → Outcome ChargeError (ReserveChargeAttemptResult × ChargeDb)
  recover input db (ok r) = ok r
  recover input db (err ChargeError.duplicate_key) =
      return_existing (existing_attempt input.session_id input.idempotency_key db)
        ChargeError.duplicate_key db
  recover input db (err e) = err e

  unfoldable pub reserve_charge_attempt :
      ReserveChargeAttemptInput
      → (created_at : ℕ) → ChargeDb
      → Outcome ChargeError (ReserveChargeAttemptResult × ChargeDb)
  unfolding reserve_in_transaction recover
  reserve_charge_attempt input created_at db =
      recover input db (reserve_in_transaction input created_at db)
