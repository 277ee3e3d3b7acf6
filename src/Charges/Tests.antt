-- ===== src/Charges/Tests.antt =====
-- A charge that is reserved, sent and finalized (src/services/chargeReservation.service.ts).
use fiberpassbackend.Prelude.{
  ℕ, ◌≡◌, refl, Bool, true, false, Option, none, some, [], ◌∷◌, arith, Outcome, ok, err,
}
use fiberpassbackend.Charges.Records.{
  Attempt, Session, ChargeExecutionLayer, fiber_payment, ReceiptSourceType, PaymentReceipt,
  ChargeDb, ChargeError, active, idle,
}
use fiberpassbackend.Charges.Reservation.{
  ReserveChargeAttemptInput, ReserveChargeAttemptResult, reserve_charge_attempt, new_attempt,
  reserve_in_transaction, reserve_unless, reserve_new, create_attempt, recover,
}
use fiberpassbackend.Money.{
  legacy_minor_to_atomic_amount, atomic_amount_from_bigint, as_atomic_amount, parse_atomic_amount,
}
use fiberpassbackend.Funding.Allocations.{spend_funding_allocation}
use fiberpassbackend.Charges.Receipts.{
  create_direct_charge_receipt, receipt_amount, direct_receipt, create_payment_receipt,
  receipt_from, store_receipt,
}
use fiberpassbackend.Charges.Settlement.{
  finalize_charge_reservation, finalize_attempt, debit_attempt, settle_funding,
  release_charge_reservation,
}
use fiberpassbackend.Charges.Settled.{finalize-release}
use fiberpassbackend.Charges.Repeat.{reserve_charge_attempt-repeat}
use fiberpassbackend.Charges.Execution.{
  ProviderChargeResult, mark_charge_provider_succeeded, find_one_and_update,
}
use fiberpassbackend.Charges.Balance.{Agreed}
use fiberpassbackend.Charges.History.{Operation, perform, perform-Agreed}

abbrev receipt_number : ReceiptSourceType → ℕ → ℕ
receipt_number type id = id

abbrev receipt_digest : PaymentReceipt → ℕ
receipt_digest r = r.settlement_id

abbrev any_session : Session → Bool
any_session s = true

abbrev pass : Session
pass = record {
  public_id = 5;
  owner_wallet_id = 3;
  status = active;
  lifecycle_state = some idle;
  single_use = false;
  spent = 0;
  spent_minor = 40;
  reserved_minor = 0;
  limit_minor = 100;
  last_charge_proof_id = none;
  fiber_provider = none;
  fiber_network = none;
}

abbrev start : ChargeDb
start = record {
  sessions = pass ∷ [];
  counters = [];
  attempts = [];
  receipts = [];
  funding = record { sources = []; allocations = [] };
}

abbrev charge : ReserveChargeAttemptInput
charge = record {
  attempt_id = 1;
  session_id = 5;
  owner_wallet_id = 3;
  idempotency_key = 9;
  request_fingerprint = 8;
  amount = 30;
  amount_minor = 30;
  asset_id = 2;
  execution_layer = ChargeExecutionLayer.fiber;
  payment_request_hash = none;
  provider_correlation_id = none;
  metadata = record { occurrence_id = none; metered_receipt_id = none; recipient_id = none };
  daily_limit_minor = 50;
  execution_lease_id = 6;
  now = 90000000;
}

abbrev result : ProviderChargeResult
result = record {
  provider = 1;
  network = 1;
  proof_id = 77;
  proof_type = fiber_payment;
  execution_layer = ChargeExecutionLayer.fiber;
  payment_request_hash = none;
}

start-Agreed : Agreed start
start-Agreed = record {
  per_session = λ i. ground arith;
  per_day = λ i d. refl;
  limited = omega arith;
}

abbrev step : Operation → ChargeDb → ChargeDb
step = perform receipt_number receipt_digest any_session

abbrev reserved_once : ChargeDb
reserved_once = step (Operation.reserve charge 90000001) start

abbrev succeeded_once : ChargeDb
succeeded_once = step (Operation.succeed 1 result 90000100) reserved_once

perform-Agreed_example : Agreed (step (Operation.finalize 1 90000200) succeeded_once)
perform-Agreed_example =
    perform-Agreed receipt_number receipt_digest any_session (Operation.finalize 1 90000200)
      succeeded_once
      (perform-Agreed receipt_number receipt_digest any_session
        (Operation.succeed 1 result 90000100) reserved_once
        (perform-Agreed receipt_number receipt_digest any_session
          (Operation.reserve charge 90000001) start start-Agreed))

abbrev result_or : {A : Type 0} → Outcome ChargeError A → A → A
result_or (ok a) d = a
result_or (err e) d = d

abbrev first_attempt : ReserveChargeAttemptResult × ChargeDb
first_attempt =
    result_or (reserve_charge_attempt any_session charge 90000001 start)
      (record { attempt = new_attempt charge 90000001; created = false }, start)

first_reserved : reserve_charge_attempt any_session charge 90000001 start ≡ ok first_attempt
unfolding reserve_charge_attempt reserve_in_transaction reserve_unless reserve_new create_attempt
    recover legacy_minor_to_atomic_amount atomic_amount_from_bigint
first_reserved = refl

first_created : first_attempt.0.created ≡ true
unfolding reserve_charge_attempt reserve_in_transaction reserve_unless reserve_new create_attempt
    recover legacy_minor_to_atomic_amount atomic_amount_from_bigint
first_created = refl

abbrev charge_again : ReserveChargeAttemptInput
charge_again = record charge { attempt_id = 2; amount_minor = 10; now = 90000300 }

reserve_charge_attempt-repeat_example :
    reserve_charge_attempt any_session charge_again 90000301 first_attempt.1
    ≡ ok (record { attempt = first_attempt.0.attempt; created = false }, first_attempt.1)
reserve_charge_attempt-repeat_example =
    reserve_charge_attempt-repeat any_session charge charge_again 90000001 90000301 start
      first_reserved refl refl

abbrev finalized : Attempt × Option ℕ × ChargeDb
finalized =
    result_or (finalize_charge_reservation receipt_number receipt_digest 1 90000200 succeeded_once)
      (new_attempt charge 90000001, none, start)

finalized_once :
    finalize_charge_reservation receipt_number receipt_digest 1 90000200 succeeded_once
    ≡ ok finalized
unfolding perform reserve_charge_attempt reserve_in_transaction reserve_unless reserve_new
    create_attempt recover legacy_minor_to_atomic_amount atomic_amount_from_bigint
    mark_charge_provider_succeeded find_one_and_update finalize_charge_reservation finalize_attempt
    debit_attempt settle_funding spend_funding_allocation create_direct_charge_receipt
    receipt_amount direct_receipt create_payment_receipt receipt_from store_receipt as_atomic_amount
    parse_atomic_amount
finalized_once = refl

finalize-release_example :
    release_charge_reservation 1 4 90000400 finalized.2 ≡ err ChargeError.not_releasable
finalize-release_example =
    finalize-release receipt_number receipt_digest 1 90000200 4 90000400 succeeded_once
      finalized_once
