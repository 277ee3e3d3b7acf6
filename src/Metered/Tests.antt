-- ===== src/Metered/Tests.antt =====
-- A usage event that is accepted, repeated, settled or released (src/services/meteredPayment.service.ts,
-- src/services/meteredPaymentWorker.service.ts).
use fiberpassbackend.Prelude.{
  ℕ, ◌≡◌, ◌≤◌, ◌<◌, ◌↔◌, ◌+◌, ◌%◌, ◌*◌, refl, true, false, none, some, List, [], ◌∷◌, arith,
  Outcome, ok, err, codes, ◌==◌, if◌then◌else◌,
}
use fiberpassbackend.Prelude.Store.{total, find_where}
use fiberpassbackend.Money.{
  text, parse_atomic_amount, checked_atomic_value, read_digits, is_canonical, print_digits,
  as_atomic_amount, atomic_amount_from_bigint,
}
use fiberpassbackend.Funding.Allocations.{spend_funding_allocation}
use fiberpassbackend.Charges.Records.{
  SessionStatus, PaymentRail, ReceiptSourceType, PaymentReceipt, fiber_payment,
}
use fiberpassbackend.Charges.Receipts.{create_payment_receipt, receipt_from, store_receipt}
use fiberpassbackend.Metered.Records.{
  MeteredGrantStatus, MeteredExecutor, MeteredGrantRecord, UsageEventRecord, MeteredBatchRecord,
  MeteredRateCounterRecord, SessionRecord, MeteredDb, MeteredError, PaymentDestinationRecord,
  DestinationKind,
}
use fiberpassbackend.Metered.Amounts.{
  assert_metered_grant_limits, next_rate_window, exact_metered_amount, safe_metered_atomic_number,
  atomic, session_atomic, set_session_reserved, set_session_spent, session_limit,
}
use fiberpassbackend.Metered.Usage.{
  MeteredActor, SubmitUsageEventInput, UsageRequest, MeteredBatchIdentity, NewIds, check_usage,
  reject_expired, assert_owner_bound_session, is_owned_session, count_event, count_from, is_counter,
}
use fiberpassbackend.Metered.Batches.{place_event, collect_in, open_batch, add_to, new_batch}
use fiberpassbackend.Metered.Acceptance.{
  accept_usage_event_once, accept_unless, write_usage, usage_request, replay_usage_event, new_event,
}
use fiberpassbackend.Metered.Release.{
  FinalStatus, release_metered_batch_reservation, release_found, release_open,
}
use fiberpassbackend.Metered.Finalization.{
  ExecutionStatus, MeteredExecutionResult, finalize_metered_batch, finalize_found, settle_open,
  sort, spend_session, event_fees, create_receipts, usage_receipt,
}
use fiberpassbackend.Metered.Worker.{
  retry_delay, claim_metered_batch, first_claimable, mark_settling, mark_submitted,
}
use fiberpassbackend.Metered.Run.{
  MeteredBatchExecutor, run_metered_payment_worker, run_rounds, run_claimed, recover,
  process_granted, settle_again, resolve_and_pay, pay, execute_stored, executed, conclude,
  MeteredWorkerResult, nothing_done,
}
use fiberpassbackend.Metered.Grants.{
  CreateMeteredGrantInput, create_metered_grant, grant_limits, validate_rail,
  validate_grant_executor, check_grant_targets, validate_executor_connection,
}
use fiberpassbackend.Metered.Granted.{create_metered_grant-limits}
use fiberpassbackend.Metered.Balance.{Held}
use fiberpassbackend.Metered.Operations.{Operation, perform_all, perform_all-Held}
use fiberpassbackend.Metered.Counts.{successes, releases}
use fiberpassbackend.Metered.Totals.{run_metered_payment_worker-counts}
use fiberpassbackend.Metered.Repeat.{Stands, accept_usage_event_once-repeat}
use fiberpassbackend.Metered.Bounds.{
  assert_metered_grant_limits_iff, next_rate_window-contains, retry_delay-bounds, count_event-bound,
  counted_before,
}
use fiberpassbackend.Metered.Final.{
  release-finalize_metered_batch, finalize-moves, release-finalize,
}
use fiberpassbackend.Metered.Submission.{
  Draw, submit_usage_event, submit_from, retry_after, submit_usage_event-Stands,
}

abbrev receipt_number : ReceiptSourceType → ℕ → ℕ
receipt_number type id = id

abbrev receipt_digest : PaymentReceipt → ℕ
receipt_digest r = r.settlement_id

abbrev key_of : MeteredBatchIdentity → ℕ
key_of b = b.grant_id

abbrev print_of : UsageRequest → ℕ
print_of r = r.amount_atomic

abbrev usage_key : ℕ → ℕ → ℕ
usage_key app external = external

abbrev btcpay_permissions : ℕ → List ℕ
btcpay_permissions store = store ∷ []

abbrev actor : MeteredActor
actor = record { app_id = 4; owner_wallet_id = 3; is_wallet = true }

abbrev grant : MeteredGrantRecord
grant = record {
  grant_id = 7;
  owner_wallet_id = 3;
  app_id = 4;
  session_id = 5;
  recipient_id = 8;
  destination_id = 9;
  rail = PaymentRail.fiber;
  network = 1;
  asset_id = 2;
  executor = MeteredExecutor.fiber;
  connection_id = none;
  status = MeteredGrantStatus.active;
  max_per_event_atomic = 50;
  total_limit_atomic = 100;
  reserved_atomic = 0;
  spent_atomic = 0;
  rate_limit_count = 2;
  rate_limit_window_seconds = 60;
  immediate_threshold_atomic = 40;
  max_batch_atomic = 60;
  max_batch_events = 3;
  settlement_delay_ms = 1000;
  expires_at = 900000;
  revoked_at = none;
}

abbrev pass : SessionRecord
pass = record {
  public_id = 5;
  owner_wallet_id = 3;
  status = SessionStatus.active;
  app_id = some 4;
  app_grant_owner_wallet_id = some 3;
  may_create_charges = true;
  auto_micro_charges = true;
  expiry_at = none;
  asset_id = 2;
  limit_atomic = some 200;
  spent_atomic = some 0;
  reserved_atomic = some 0;
  limit_minor = some 200;
  spent_minor = some 0;
  reserved_minor = some 0;
}

abbrev destination : PaymentDestinationRecord
destination = record {
  destination_id = 9;
  recipient_id = 8;
  owner_wallet_id = 3;
  is_active = true;
  reusable = true;
  kind = DestinationKind.endpoint;
  rail = PaymentRail.fiber;
  network = 1;
  asset_id = 2;
}

abbrev start : MeteredDb
start = record {
  grants = grant ∷ [];
  events = [];
  batches = [];
  rate_counters = [];
  sessions = pass ∷ [];
  attempts = [];
  destinations = destination ∷ [];
  nwc_connections = [];
  btcpay_connections = [];
  receipts = [];
  funding = record { sources = []; allocations = [] };
}

abbrev usage : SubmitUsageEventInput
usage = record {
  grant_id = 7;
  external_id = 20;
  amount_atomic = text (codes "30");
  event_type = none;
  policy_reference = none;
}

abbrev ids : NewIds
ids = record { batch_id = 11; event_id = 12; receipt_id = 13 }

abbrev result_or : {A : Type 0} → Outcome MeteredError A → A → A
result_or (ok a) d = a
result_or (err e) d = d

abbrev any_event : UsageEventRecord
any_event =
    new_event grant ids
      (record {
        app_id = 4;
        grant_id = 7;
        external_id = 20;
        amount_atomic = 30;
        event_type = 0;
        policy_reference = 7;
      })
      30 11 5000

abbrev accepted : UsageEventRecord × MeteredDb
accepted =
    result_or (accept_usage_event_once key_of print_of usage_key actor usage ids 5000 start)
      (any_event, start)

was_accepted :
    accept_usage_event_once key_of print_of usage_key actor usage ids 5000 start ≡ ok accepted
unfolding accept_usage_event_once usage_request exact_metered_amount parse_atomic_amount
    checked_atomic_value read_digits is_canonical safe_metered_atomic_number accept_unless
    check_usage reject_expired assert_owner_bound_session session_atomic write_usage count_event
    count_from next_rate_window place_event collect_in open_batch add_to atomic set_session_reserved
    replay_usage_event
was_accepted = refl

start-Held : Held start
unfolding session_atomic
start-Held = record {
  per_grant = λ i. ground arith;
  within_grants = refl;
  within_sessions = refl;
  at_home = refl;
  unique = λ i. omega arith;
}

abbrev paid : MeteredExecutionResult
paid = record {
  status = ExecutionStatus.succeeded;
  provider_payment_id = some 70;
  payment_hash = some 71;
  fee_atomic = none;
  proof_kind = some fiber_payment;
  proof_reference = some 72;
  failure_code = none;
}

abbrev connector : MeteredBatchExecutor
connector = record {
  execute = λ b r. record { submitted = some none; outcome = ok paid };
  lookup = λ b. ok none;
  resolve = λ b d. ok (record { payment_request_hash = 60; payment_hash = none });
}

abbrev grant_input : CreateMeteredGrantInput
grant_input = record {
  session_id = 5;
  recipient_id = 8;
  destination_id = 9;
  rail = PaymentRail.fiber;
  network = 1;
  asset_id = 2;
  executor = MeteredExecutor.fiber;
  connection_id = none;
  max_per_event_atomic = text (codes "50");
  total_limit_atomic = text (codes "100");
  rate_limit_count = 2;
  rate_limit_window_seconds = 60;
  immediate_threshold_atomic = text (codes "40");
  max_batch_atomic = text (codes "60");
  max_batch_events = 3;
  settlement_delay_ms = 1000;
  expires_at = some 900000;
}

abbrev two_grants : MeteredDb
two_grants = record start { grants = grant ∷ record grant { grant_id = 17 } ∷ [] }

perform_all-Held_example : Held (
    perform_all receipt_number receipt_digest key_of print_of usage_key btcpay_permissions
      (Operation.create_grant actor grant_input 17 4000
        ∷ Operation.accept actor usage ids 5000
        ∷ Operation.work none connector (λ n. n) 7000
        ∷ Operation.revoke_grant actor 7 8000
        ∷ [])
      start)
perform_all-Held_example =
    perform_all-Held receipt_number receipt_digest key_of print_of usage_key btcpay_permissions
      (Operation.create_grant actor grant_input 17 4000
        ∷ Operation.accept actor usage ids 5000
        ∷ Operation.work none connector (λ n. n) 7000
        ∷ Operation.revoke_grant actor 7 8000
        ∷ [])
      start start-Held

was_created :
    create_metered_grant btcpay_permissions actor grant_input 17 4000 start
    ≡ ok (record grant { grant_id = 17 }, two_grants)
unfolding create_metered_grant grant_limits exact_metered_amount parse_atomic_amount
    checked_atomic_value read_digits is_canonical assert_metered_grant_limits validate_rail
    validate_grant_executor check_grant_targets assert_owner_bound_session session_atomic
    validate_executor_connection
was_created = refl

create_metered_grant-limits_example :
    (1 ≤ 50)
    × (1 ≤ 40)
    × (50 ≤ 100)
    × (50 ≤ 60)
    × (40 ≤ 60)
    × (0 + 0 ≡ 0)
    × (4000 < 900000)
    × (s : SessionRecord) × (find_where (is_owned_session 5 3) start.sessions ≡ some s)
    × (100 ≤ session_limit s)
create_metered_grant-limits_example =
    create_metered_grant-limits btcpay_permissions actor grant_input 17 4000 start two_grants
      (record grant { grant_id = 17 }) was_created

abbrev done_once : MeteredWorkerResult
done_once = record nothing_done { claimed = 1; succeeded = 1 }

abbrev after_run : MeteredDb
after_run =
    (run_metered_payment_worker receipt_number receipt_digest (some 5) connector (λ n. n) 7000
      accepted.1).1

one_run :
    run_metered_payment_worker receipt_number receipt_digest
      (some 5)
      connector
      (λ n. n)
      7000
      accepted.1
    ≡ (ok done_once, after_run)
unfolding accept_usage_event_once usage_request exact_metered_amount parse_atomic_amount
    checked_atomic_value read_digits is_canonical safe_metered_atomic_number accept_unless
    check_usage reject_expired assert_owner_bound_session session_atomic write_usage count_event
    count_from next_rate_window place_event collect_in open_batch add_to atomic set_session_reserved
    replay_usage_event run_metered_payment_worker run_rounds claim_metered_batch first_claimable
    run_claimed recover process_granted settle_again resolve_and_pay pay execute_stored executed
    conclude mark_settling mark_submitted finalize_metered_batch finalize_found settle_open sort
    spend_session set_session_spent spend_funding_allocation event_fees create_receipts
    create_payment_receipt usage_receipt as_atomic_amount atomic_amount_from_bigint print_digits
    receipt_from store_receipt
one_run = refl

run_metered_payment_worker-counts_example :
    (1 ≡ 1 + 0 + 0 + 0 + 0)
    × (1 ≤ 5)
    × (1 ≤ 100)
    × (successes after_run ≤ successes accepted.1 + 1)
    × (releases after_run ≤ releases accepted.1 + 0)
run_metered_payment_worker-counts_example =
    run_metered_payment_worker-counts receipt_number receipt_digest 5 connector (λ n. n) 7000
      accepted.1 after_run done_once (omega arith) one_run

assert_metered_grant_limits_iff_example :
    (assert_metered_grant_limits 50 100 40 60 ≡ ok tt)
    ↔ ((1 ≤ 50) × (1 ≤ 40) × (50 ≤ 100) × (50 ≤ 60) × (40 ≤ 60))
assert_metered_grant_limits_iff_example = assert_metered_grant_limits_iff 50 100 40 60

next_rate_window-contains_example :
    ((next_rate_window 125000 60).start ≤ 125000)
    × (125000 < (next_rate_window 125000 60).end)
    × ((next_rate_window 125000 60).end ≡ (next_rate_window 125000 60).start + 60 * 1000)
    × ((next_rate_window 125000 60).start % (60 * 1000) ≡ 0)
next_rate_window-contains_example = next_rate_window-contains 125000 60 (omega arith)

retry_delay-bounds_example : (1000 ≤ retry_delay 3) × (retry_delay 3 ≤ 60000)
retry_delay-bounds_example = retry_delay-bounds 3

abbrev counter : MeteredRateCounterRecord
counter = record { grant_id = 7; window_start = 0; window_end = 60000; count = 2 }

was_counted : count_event grant 5000 (record counter { count = 1 } ∷ []) ≡ ok (counter ∷ [])
unfolding count_event count_from next_rate_window
was_counted = refl

count_event-bound_example :
    (c : MeteredRateCounterRecord) × (find_where
        (is_counter 7 (next_rate_window 5000 60).start)
        (counter ∷ [])
      ≡ some c)
    × (c.count
        ≡ counted_before (
            find_where
              (is_counter 7 (next_rate_window 5000 60).start)
              (record counter { count = 1 } ∷ []))
          + 1)
    × (c.count ≤ 2)
count_event-bound_example =
    count_event-bound grant 5000 (record counter { count = 1 } ∷ []) (counter ∷ []) was_counted

abbrev usage_again : SubmitUsageEventInput
usage_again = record usage { event_type = some 6 }

abbrev request_again : UsageRequest
request_again = record {
  app_id = 4;
  grant_id = 7;
  external_id = 20;
  amount_atomic = 30;
  event_type = 6;
  policy_reference = 7;
}

is_request_again : usage_request key_of print_of usage_key actor usage_again ≡ ok request_again
unfolding usage_request exact_metered_amount parse_atomic_amount checked_atomic_value read_digits
    is_canonical safe_metered_atomic_number
is_request_again = refl

abbrev other_ids : NewIds
other_ids = record { batch_id = 21; event_id = 22; receipt_id = 23 }

accept_usage_event_once-repeat_example :
    accept_usage_event_once key_of print_of usage_key actor usage_again other_ids 6000 accepted.1
    ≡ (if accepted.0.request_fingerprint == print_of request_again
        then ok (accepted.0, accepted.1)
        else err MeteredError.idempotency_conflict)
accept_usage_event_once-repeat_example =
    accept_usage_event_once-repeat key_of print_of usage_key actor usage usage_again ids other_ids
      5000 6000 start accepted.1 accepted.0 request_again was_accepted refl is_request_again

-- A batch of one event.
abbrev batch : MeteredBatchRecord
batch = record (new_batch grant 11 7 false 5000) { total_atomic = 30; event_count = 1 }

abbrev waiting : MeteredDb
waiting = record start {
  grants = record grant { reserved_atomic = 30 } ∷ [];
  events = any_event ∷ [];
  batches = batch ∷ [];
  sessions = record pass { reserved_atomic = some 30; reserved_minor = some 30 } ∷ [];
}

abbrev settled : MeteredDb
settled =
    result_or (finalize_metered_batch receipt_number receipt_digest 11 paid 7000 waiting) waiting

was_settled : finalize_metered_batch receipt_number receipt_digest 11 paid 7000 waiting ≡ ok settled
unfolding finalize_metered_batch finalize_found settle_open sort session_atomic spend_session atomic
    checked_atomic_value set_session_reserved set_session_spent safe_metered_atomic_number
    spend_funding_allocation event_fees create_receipts create_payment_receipt usage_receipt
    as_atomic_amount atomic_amount_from_bigint parse_atomic_amount read_digits is_canonical
    print_digits receipt_from store_receipt
was_settled = refl

release-finalize_metered_batch_example :
    (release_metered_batch_reservation 11 FinalStatus.failed 1 8000 settled ≡ ok settled)
    × (finalize_metered_batch receipt_number receipt_digest 11 paid 8000 settled ≡ ok settled)
release-finalize_metered_batch_example =
    release-finalize_metered_batch receipt_number receipt_digest key_of print_of usage_key
      btcpay_permissions 11 paid paid FinalStatus.failed 1 7000 8000 waiting settled batch refl refl
      was_settled

finalize-moves_example :
    (total MeteredGrantRecord.spent_atomic settled.grants
      ≡ total MeteredGrantRecord.spent_atomic waiting.grants + 30)
    × (total MeteredGrantRecord.reserved_atomic settled.grants + 30
        ≡ total MeteredGrantRecord.reserved_atomic waiting.grants)
finalize-moves_example =
    finalize-moves receipt_number receipt_digest key_of print_of usage_key btcpay_permissions 11
      paid 7000 waiting settled batch refl refl was_settled

abbrev released : MeteredDb
released =
    result_or (release_metered_batch_reservation 11 FinalStatus.failed 1 6000 waiting) waiting

was_released : release_metered_batch_reservation 11 FinalStatus.failed 1 6000 waiting ≡ ok released
unfolding release_metered_batch_reservation release_found release_open session_atomic
    set_session_reserved safe_metered_atomic_number
was_released = refl

release-finalize_example :
    finalize_metered_batch receipt_number receipt_digest 11 paid 7000 released
    ≡ err MeteredError.batch_total_mismatch
release-finalize_example =
    release-finalize receipt_number receipt_digest key_of print_of usage_key btcpay_permissions 11
      paid FinalStatus.failed 1 6000 7000 waiting released batch refl refl (omega arith)
      was_released

abbrev draw : ℕ → Draw
draw n = record { ids = ids; now = 5000 }

-- The drawn event id is taken by another event.
abbrev crowded : MeteredDb
crowded = record start { events = (record accepted.0 { external_id = 99 }) ∷ [] }

abbrev stored_by_another : UsageEventRecord
stored_by_another = record accepted.0 { event_id = 77; receipt_id = 78 }

-- Another request stores the event between the first try and the lookup.
abbrev others : ℕ → MeteredDb → MeteredDb
others n db = if n == 1 then record db { events = stored_by_another ∷ db.events } else db

was_stored :
    submit_usage_event key_of print_of usage_key actor usage draw others crowded
    ≡ ok (stored_by_another, others 1 crowded)
unfolding submit_usage_event submit_from retry_after accept_usage_event_once usage_request
    exact_metered_amount parse_atomic_amount checked_atomic_value read_digits is_canonical
    safe_metered_atomic_number accept_unless check_usage reject_expired assert_owner_bound_session
    session_atomic write_usage count_event count_from next_rate_window place_event collect_in
    open_batch add_to atomic set_session_reserved replay_usage_event
was_stored = refl

submit_usage_event-Stands_example :
    Stands key_of print_of usage_key actor usage stored_by_another (others 1 crowded)
submit_usage_event-Stands_example =
    submit_usage_event-Stands key_of print_of usage_key actor usage draw others crowded
      stored_by_another (others 1 crowded) was_stored
