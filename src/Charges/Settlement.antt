-- ===== src/Charges/Settlement.antt =====
-- `releaseChargeReservation` and `finalizeChargeReservation` of
-- src/services/chargeReservation.service.ts: a reservation is given back, or debited. Both are
-- transactions: an error leaves every collection as it was.
use fiberpassbackend.Prelude.{
  ℕ, ◌+◌, ◌-◌, Bool, true, false, ◌&&◌, ◌||◌, Option, none, some, List, ◌==◌, leb, if◌then◌else◌,
  Outcome, ok, err, ◌>>=◌, ◌>>◌, require,
}
use fiberpassbackend.Prelude.Store.{find_where, update_where}
use fiberpassbackend.Funding.Domain.{FundingError}
use fiberpassbackend.Funding.Records.{FundingDb}
use fiberpassbackend.Funding.Allocations.{spend_funding_allocation, release_funding_allocation}
use fiberpassbackend.Charges.Records.{
  Attempt, Session, DailyCounter, ChargeAttemptStatus, ChargeReserveStatus, ChargeProviderStatus,
  ReceiptSourceType, PaymentReceipt, ChargeDb, ChargeError,
}
use fiberpassbackend.Charges.Receipts.{or_else, create_direct_charge_receipt}
use fiberpassbackend.Charges.Reservation.{is_counter, updated}
use fiberpassbackend.Charges.Execution.{is_reserved}

abbrev pub has_id : ℕ → Attempt → Bool
has_id id a = a.attempt_id == id

abbrev pub amount_of : Attempt → ℕ
amount_of a = or_else a.amount_minor 0

abbrev pub is_failed : ChargeAttemptStatus → Bool
is_failed ChargeAttemptStatus.failed = true
is_failed _ = false

abbrev pub is_released : ChargeReserveStatus → Bool
is_released ChargeReserveStatus.released = true
is_released _ = false

abbrev pub is_done : Attempt → Bool
is_done a = elim a.status [
  | ChargeAttemptStatus.succeeded ↦ elim a.reserve_status [
    | ChargeReserveStatus.debited ↦ true
    | _ ↦ false
  ]
  | _ ↦ false
]

abbrev pub provider_succeeded : ChargeProviderStatus → Bool
provider_succeeded ChargeProviderStatus.succeeded = true
provider_succeeded _ = false

-- `if (!value) throw error`
abbrev pub given : {A : Type 0} → Option A → ChargeError → Outcome ChargeError A
given none e = err e
given (some a) e = ok a

abbrev pub can_unreserve : ℕ → ℕ → Session → Bool
can_unreserve session amount s = s.public_id == session && leb amount s.reserved_minor

abbrev pub can_unreserve_day : ℕ → ℕ → ℕ → DailyCounter → Bool
can_unreserve_day session day amount c = is_counter session day c && leb amount c.reserved_minor

abbrev pub unreserve : ℕ → Session → Session
unreserve amount s = record s { reserved_minor = s.reserved_minor - amount }

abbrev pub unreserve_day : ℕ → DailyCounter → DailyCounter
unreserve_day amount c = record c { reserved_minor = c.reserved_minor - amount }

-- `attempt.save()`
abbrev pub save_attempt :
    (Attempt → Attempt) → Attempt → ChargeDb → Outcome ChargeError (Attempt × ChargeDb)
save_attempt change a db = do
  (b, attempts) ←
      updated (update_where (has_id a.attempt_id) change db.attempts) ChargeError.attempt_not_found
  ok (b, record db { attempts = attempts })

abbrev pub fail_attempt : (failure_code now : ℕ) → Attempt → Attempt
fail_attempt failure_code now a = record a {
  status = ChargeAttemptStatus.failed;
  reserve_status = ChargeReserveStatus.released;
  provider_status = ChargeProviderStatus.failed;
  failure_code = some failure_code;
  execution_lease_expires_at = some now;
}

unfoldable pub release_attempt :
    Attempt → (failure_code now : ℕ) → ChargeDb → Outcome ChargeError ChargeDb
release_attempt a failure_code now db = do
  require (is_reserved a.reserve_status) ChargeError.not_releasable
  day ← given a.reservation_day ChargeError.not_releasable
  (session, sessions) ←
      updated
        (update_where (can_unreserve a.session_id (amount_of a)) (unreserve (amount_of a))
          db.sessions)
        ChargeError.counters_inconsistent
  (counter, counters) ←
      updated
        (update_where (can_unreserve_day a.session_id day (amount_of a))
          (unreserve_day (amount_of a)) db.counters)
        ChargeError.counters_inconsistent
  (b, db') ←
      save_attempt (fail_attempt failure_code now) a
        (record db { sessions = sessions; counters = counters })
  ok db'

unfoldable pub release_charge_reservation :
    (attempt_id failure_code now : ℕ) → ChargeDb → Outcome ChargeError ChargeDb
release_charge_reservation attempt_id failure_code now db =
    elim (find_where (has_id attempt_id) db.attempts) [
      | none ↦ ok db
      | some a ↦
          if is_released a.reserve_status || is_failed a.status
          then ok db
          else release_attempt a failure_code now db
    ]

abbrev pub debit : Attempt → Session → Session
debit a s = record s {
  reserved_minor = s.reserved_minor - amount_of a;
  spent_minor = s.spent_minor + amount_of a;
  spent = s.spent + a.amount;
  last_charge_proof_id = a.proof_id;
  fiber_provider = a.provider;
  fiber_network = a.network;
}

abbrev pub debit_day : ℕ → DailyCounter → DailyCounter
debit_day amount c = record c {
  reserved_minor = c.reserved_minor - amount;
  spent_minor = c.spent_minor + amount;
}

abbrev pub succeed_attempt : ℕ → Attempt → Attempt
succeed_attempt now a = record a {
  status = ChargeAttemptStatus.succeeded;
  reserve_status = ChargeReserveStatus.debited;
  finalized_at = some now;
  execution_lease_expires_at = some now;
}

abbrev convert_funding : {A : Type 0} → Outcome FundingError A → Outcome ChargeError A
convert_funding (ok a) = ok a
convert_funding (err e) = err (ChargeError.funding e)

-- The allocation of the pass pays, and a pass for one use gives the rest back.
unfoldable pub settle_funding :
    (session amount now : ℕ) → Bool → FundingDb → Outcome ChargeError FundingDb
settle_funding session amount now single_use funding = do
  (spent, funding') ← convert_funding (spend_funding_allocation session amount now funding)
  if single_use
      then (do
        (freed, funding'') ← convert_funding (release_funding_allocation session now funding')
        ok funding'')
      else ok funding'

abbrev owner_of : ℕ → List Session → Option ℕ
owner_of session sessions = elim (find_where (λ (s : Session). s.public_id == session) sessions) [
  | none ↦ none
  | some s ↦ some s.owner_wallet_id
]

abbrev pub receipt_owner : Attempt → ChargeDb → Option ℕ
receipt_owner a db = elim a.owner_wallet_id [
  | some owner ↦ some owner
  | none ↦ owner_of a.session_id db.sessions
]

module _ (receipt_id_for : ReceiptSourceType → ℕ → ℕ) (hash_receipt : PaymentReceipt → ℕ) where
  unfoldable pub replay_finalized :
      Attempt → ℕ → ChargeDb → Outcome ChargeError (Attempt × Option ℕ × ChargeDb)
  replay_finalized a now db = do
    owner ← given (receipt_owner a db) ChargeError.owner_missing
    (receipt, db') ← create_direct_charge_receipt receipt_id_for hash_receipt a owner now db
    ok (a, receipt, db')

  -- The counters, the funds and the attempt of a finalized charge, with the session's owner.
  unfoldable pub debit_attempt :
      Attempt → ℕ → ChargeDb → Outcome ChargeError (Attempt × ℕ × ChargeDb)
  debit_attempt a now db = do
    day ← given a.reservation_day ChargeError.not_ready
    (session, sessions) ←
        updated (update_where (can_unreserve a.session_id (amount_of a)) (debit a) db.sessions)
          ChargeError.counters_inconsistent
    (counter, counters) ←
        updated
          (update_where (can_unreserve_day a.session_id day (amount_of a)) (debit_day (amount_of a))
            db.counters)
          ChargeError.counters_inconsistent
    funding ← settle_funding a.session_id (amount_of a) now session.single_use db.funding
    (b, db') ←
        save_attempt (succeed_attempt now) a
          (record db { sessions = sessions; counters = counters; funding = funding })
    ok (b, session.owner_wallet_id, db')

  unfoldable pub finalize_attempt :
      Attempt → ℕ → ChargeDb → Outcome ChargeError (Attempt × Option ℕ × ChargeDb)
  unfolding debit_attempt
  finalize_attempt a now db = do
    require (provider_succeeded a.provider_status && is_reserved a.reserve_status)
        ChargeError.not_ready
    (b, owner, db') ← debit_attempt a now db
    (receipt, db'') ← create_direct_charge_receipt receipt_id_for hash_receipt b owner now db'
    ok (b, receipt, db'')

  -- The result is the attempt, the receipt to announce, and the collections.
  unfoldable pub finalize_charge_reservation :
      (attempt_id now : ℕ) → ChargeDb → Outcome ChargeError (Attempt × Option ℕ × ChargeDb)
  unfolding finalize_attempt replay_finalized
  finalize_charge_reservation attempt_id now db = do
    a ← given (find_where (has_id attempt_id) db.attempts) ChargeError.attempt_not_found
    if is_done a then replay_finalized a now db else finalize_attempt a now db
