-- ===== src/Metered/Acceptance.antt =====
-- `acceptUsageEventOnce` and `submitUsageEvent` of src/services/meteredPayment.service.ts. Audit logs
-- are left out.
use fiberpassbackend.Prelude.{
  ℕ, ◌+◌, Bool, true, ◌&&◌, ◌||◌, Option, none, some, ◌==◌, Outcome, ok, ◌>>=◌, ◌>>◌, require,
}
use fiberpassbackend.Prelude.Store.{find_where}
use fiberpassbackend.Prelude.Documents.{save, create}
use fiberpassbackend.Money.{print_digits}
use fiberpassbackend.Charges.Records.{
  Attempt, ChargeAttemptStatus, ChargeReserveStatus, ChargeExecutionLayer, ChargeProviderStatus,
  PaymentRail,
}
use fiberpassbackend.Charges.Reservation.{charge_reservation_day}
use fiberpassbackend.Charges.Receipts.{or_else}
use fiberpassbackend.Metered.Records.{
  UsageEventStatus, MeteredGrantRecord, UsageEventRecord, SessionRecord, MeteredDb, MeteredError,
}
use fiberpassbackend.Metered.Amounts.{
  exact_metered_amount, safe_metered_atomic_number, atomic, session_reserved, set_session_reserved,
}
use fiberpassbackend.Metered.Usage.{
  MeteredActor, SubmitUsageEventInput, UsageRequest, MeteredBatchIdentity, NewIds, is_event_for,
  is_actor_grant, is_owned_session, check_usage, count_event, default_type,
}
use fiberpassbackend.Metered.Batches.{place_event}

abbrev pub batch_identity : MeteredGrantRecord → MeteredBatchIdentity
batch_identity g = record {
  owner_wallet_id = g.owner_wallet_id;
  app_id = g.app_id;
  grant_id = g.grant_id;
  session_id = g.session_id;
  recipient_id = g.recipient_id;
  destination_id = g.destination_id;
  rail = g.rail;
  network = g.network;
  asset_id = g.asset_id;
  executor = g.executor;
  connection_id = g.connection_id;
}

abbrev pub new_event :
    MeteredGrantRecord → NewIds → UsageRequest → (fingerprint batch now : ℕ) → UsageEventRecord
new_event grant ids request fingerprint batch now = record {
  event_id = ids.event_id;
  receipt_id = ids.receipt_id;
  external_id = request.external_id;
  request_fingerprint = fingerprint;
  owner_wallet_id = grant.owner_wallet_id;
  app_id = grant.app_id;
  grant_id = grant.grant_id;
  session_id = grant.session_id;
  recipient_id = grant.recipient_id;
  destination_id = grant.destination_id;
  rail = grant.rail;
  network = grant.network;
  asset_id = grant.asset_id;
  amount_atomic = request.amount_atomic;
  event_type = request.event_type;
  policy_reference = request.policy_reference;
  batch_id = batch;
  status = UsageEventStatus.reserved;
  accepted_at = now;
  settling_at = none;
  settled_at = none;
  released_at = none;
  proof_kind = none;
  proof_reference = none;
  payment_request_hash = none;
  failure_code = none;
}

-- The unique indexes of usage events.
abbrev pub event_clash : UsageEventRecord → UsageEventRecord → Bool
event_clash new e =
    e.event_id == new.event_id
    || e.receipt_id == new.receipt_id
    || is_event_for new.app_id new.external_id e

abbrev layer_of : PaymentRail → ChargeExecutionLayer
layer_of PaymentRail.lightning = ChargeExecutionLayer.lightning
layer_of _ = ChargeExecutionLayer.fiber

-- The charge attempt of an event: its key stands for 'usage:', the app and the external id, and its
-- display amount is that of the minor amount.
abbrev pub usage_attempt : UsageEventRecord → (key now : ℕ) → Attempt
usage_attempt e key now = record {
  attempt_id = e.event_id;
  session_id = e.session_id;
  owner_wallet_id = some e.owner_wallet_id;
  idempotency_key = key;
  request_fingerprint = e.request_fingerprint;
  amount = e.amount_atomic;
  amount_minor = some e.amount_atomic;
  amount_atomic = some (print_digits e.amount_atomic);
  asset_id = e.asset_id;
  status = ChargeAttemptStatus.pending;
  reserve_status = ChargeReserveStatus.reserved;
  failure_code = none;
  provider = none;
  network = none;
  proof_id = none;
  proof_type = none;
  execution_layer = layer_of e.rail;
  payment_request_hash = none;
  provider_correlation_id = none;
  provider_status = ChargeProviderStatus.not_started;
  provider_submitted_at = none;
  provider_completed_at = none;
  reservation_day = some (charge_reservation_day now);
  reserved_at = some now;
  finalized_at = none;
  execution_lease_id = none;
  execution_lease_expires_at = none;
  metadata = record {
    occurrence_id = none;
    metered_receipt_id = some e.receipt_id;
    recipient_id = none;
  };
  created_at = now;
}

abbrev pub attempt_clash : Attempt → Attempt → Bool
attempt_clash new a =
    a.attempt_id == new.attempt_id
    || (a.session_id == new.session_id && a.idempotency_key == new.idempotency_key)

unfoldable pub replay_usage_event :
    UsageEventRecord → (fingerprint : ℕ) → Outcome MeteredError UsageEventRecord
replay_usage_event existing fingerprint = do
  require (existing.request_fingerprint == fingerprint) MeteredError.idempotency_conflict
  ok existing

module _ (batch_key_of : MeteredBatchIdentity → ℕ) (fingerprint_of : UsageRequest → ℕ)
    (usage_key : (app external : ℕ) → ℕ) where
  -- The writes of the transaction, after its checks.
  unfoldable pub write_usage :
      MeteredActor
      → MeteredGrantRecord
      → SessionRecord
      → NewIds
      → UsageRequest
      → (now : ℕ) → MeteredDb
      → Outcome MeteredError (UsageEventRecord × MeteredDb)
  unfolding count_event place_event atomic set_session_reserved
  write_usage actor grant session ids request now db = do
    rate_counters ← count_event grant now db.rate_counters
    (batch, batches) ←
        place_event grant ids.batch_id (batch_key_of (batch_identity grant)) request.amount_atomic
          now db.batches
    let event = new_event grant ids request (fingerprint_of request) batch.batch_id now
    events ← create (event_clash event) MeteredError.duplicate_key event db.events
    let attempt = usage_attempt event (usage_key event.app_id event.external_id) now
    attempts ← create (attempt_clash attempt) MeteredError.duplicate_key attempt db.attempts
    reserved ← atomic (grant.reserved_atomic + request.amount_atomic)
    session' ← set_session_reserved (session_reserved session + request.amount_atomic) session
    ok (
      event,
      record db {
        rate_counters = rate_counters;
        batches = batches;
        events = events;
        attempts = attempts;
        grants =
            save (is_actor_grant actor request.grant_id)
              (record grant { reserved_atomic = reserved }) db.grants;
        sessions =
            save (is_owned_session grant.session_id actor.owner_wallet_id) session' db.sessions;
      },
    )

  unfoldable pub accept_unless :
      Option UsageEventRecord
      → MeteredActor
      → NewIds
      → UsageRequest
      → (now : ℕ) → MeteredDb
      → Outcome MeteredError (UsageEventRecord × MeteredDb)
  unfolding check_usage write_usage
  accept_unless (some duplicate) actor ids request now db = ok (duplicate, db)
  accept_unless none actor ids request now db = do
    (grant, session) ← check_usage actor request.grant_id request.amount_atomic now db
    write_usage actor grant session ids request now db

  unfoldable pub usage_request :
      MeteredActor → SubmitUsageEventInput → Outcome MeteredError UsageRequest
  unfolding exact_metered_amount safe_metered_atomic_number
  usage_request actor input = do
    amount ← exact_metered_amount input.amount_atomic true
    minor ← safe_metered_atomic_number amount
    ok (record {
      app_id = actor.app_id;
      grant_id = input.grant_id;
      external_id = input.external_id;
      amount_atomic = amount;
      event_type = or_else input.event_type default_type;
      policy_reference = or_else input.policy_reference input.grant_id;
    })

  -- The event is looked up before the transaction and again inside it.
  unfoldable pub accept_usage_event_once :
      MeteredActor
      → SubmitUsageEventInput
      → NewIds
      → (now : ℕ) → MeteredDb
      → Outcome MeteredError (UsageEventRecord × MeteredDb)
  unfolding usage_request accept_unless replay_usage_event
  accept_usage_event_once actor input ids now db = do
    request ← usage_request actor input
    (event, db') ←
        accept_unless (find_where (is_event_for actor.app_id input.external_id) db.events) actor ids
          request now db
    event' ← replay_usage_event event (fingerprint_of request)
    ok (event', db')
