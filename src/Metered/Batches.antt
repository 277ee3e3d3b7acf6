-- ===== src/Metered/Batches.antt =====
-- The batch that a usage event joins, or that is opened for it (`acceptUsageEventOnce` of
-- src/services/meteredPayment.service.ts).
use fiberpassbackend.Prelude.{
  ℕ, ◌+◌, Bool, true, false, ◌&&◌, ◌||◌, not, Option, none, some, List, ◌==◌, leb, ltb,
  if◌then◌else◌, Outcome, ok, ◌>>=◌,
}
use fiberpassbackend.Prelude.Store.{find_where}
use fiberpassbackend.Prelude.Documents.{save, create}
use fiberpassbackend.Metered.Records.{
  MeteredBatchStatus, MeteredGrantRecord, MeteredBatchRecord, MeteredError,
}
use fiberpassbackend.Metered.Amounts.{atomic}

abbrev pub has_batch_id : ℕ → MeteredBatchRecord → Bool
has_batch_id id b = b.batch_id == id

abbrev pub collects : (key grant : ℕ) → MeteredBatchRecord → Bool
collects key grant b = b.batch_key == key && b.accepting && b.grant_id == grant

-- The unique indexes: on the id, and on the key of the batches that accept events.
abbrev pub batch_clash : MeteredBatchRecord → MeteredBatchRecord → Bool
batch_clash new b =
    b.batch_id == new.batch_id || (new.accepting && b.accepting && b.batch_key == new.batch_key)

abbrev pub is_immediate : MeteredGrantRecord → ℕ → Bool
is_immediate grant amount = leb grant.immediate_threshold_atomic amount

abbrev pub is_full : MeteredGrantRecord → ℕ → MeteredBatchRecord → Bool
is_full grant amount b =
    leb grant.max_batch_events b.event_count || ltb grant.max_batch_atomic (b.total_atomic + amount)

abbrev pub queued_now : ℕ → MeteredBatchRecord → MeteredBatchRecord
queued_now now b = record b {
  accepting = false;
  status = MeteredBatchStatus.queued;
  run_after = now;
}

abbrev pub new_batch :
    MeteredGrantRecord → (batch_id key : ℕ) → (immediate : Bool) → (now : ℕ) → MeteredBatchRecord
new_batch grant batch_id key immediate now = record {
  batch_id = batch_id;
  batch_key = key;
  accepting = not immediate;
  owner_wallet_id = grant.owner_wallet_id;
  app_id = grant.app_id;
  grant_id = grant.grant_id;
  session_id = grant.session_id;
  recipient_id = grant.recipient_id;
  destination_id = grant.destination_id;
  rail = grant.rail;
  network = grant.network;
  asset_id = grant.asset_id;
  executor = grant.executor;
  connection_id = grant.connection_id;
  status = if immediate then MeteredBatchStatus.queued else MeteredBatchStatus.collecting;
  total_atomic = 0;
  event_count = 0;
  run_after = if immediate then now else now + grant.settlement_delay_ms;
  attempts = 0;
  max_attempts = 5;
  lease_id = none;
  lease_expires_at = none;
  submitted_at = none;
  completed_at = none;
  payment_request_hash = none;
  payment_hash = none;
  provider_payment_id = none;
  proof_kind = none;
  proof_reference = none;
  failure_code = none;
}

-- The batch with the event, queued where that closes it.
abbrev pub closes : MeteredGrantRecord → (immediate : Bool) → (total count : ℕ) → Bool
closes grant immediate total count =
    immediate
    || grant.settlement_delay_ms == 0
    || leb grant.immediate_threshold_atomic total
    || leb grant.max_batch_atomic total
    || leb grant.max_batch_events count

abbrev pub with_event :
    MeteredGrantRecord
    → (immediate : Bool) → (total now : ℕ) → MeteredBatchRecord
    → MeteredBatchRecord
with_event grant immediate total now b =
    let next : MeteredBatchRecord = record b {
      total_atomic = total;
      event_count = b.event_count + 1;
    } in
    if closes grant immediate total (b.event_count + 1) then queued_now now next else next

-- Adds the event to the batch that the filter finds.
unfoldable pub add_to :
    (MeteredBatchRecord → Bool)
    → MeteredGrantRecord
    → (immediate : Bool) → (amount now : ℕ) → MeteredBatchRecord
    → List MeteredBatchRecord
    → Outcome MeteredError (MeteredBatchRecord × List MeteredBatchRecord)
unfolding atomic
add_to p grant immediate amount now b batches = do
  total ← atomic (b.total_atomic + amount)
  let next = with_event grant immediate total now b
  ok (next, save p next batches)

unfoldable pub open_batch :
    MeteredGrantRecord
    → (batch_id key : ℕ) → (immediate : Bool) → (amount now : ℕ) → List MeteredBatchRecord
    → Outcome MeteredError (MeteredBatchRecord × List MeteredBatchRecord)
unfolding add_to
open_batch grant batch_id key immediate amount now batches = do
  let b = new_batch grant batch_id key immediate now
  created ← create (batch_clash b) MeteredError.duplicate_key b batches
  add_to (has_batch_id batch_id) grant immediate amount now b created

-- A batch that still collects takes the event, or is closed where it has no room for it.
unfoldable pub collect_in :
    Option MeteredBatchRecord
    → MeteredGrantRecord
    → (batch_id key amount now : ℕ) → List MeteredBatchRecord
    → Outcome MeteredError (MeteredBatchRecord × List MeteredBatchRecord)
unfolding open_batch add_to
collect_in none grant batch_id key amount now batches =
    open_batch grant batch_id key false amount now batches
collect_in (some b) grant batch_id key amount now batches =
    if is_full grant amount b
    then open_batch grant batch_id key false amount now
        (save (collects key grant.grant_id) (queued_now now b) batches)
    else add_to (collects key grant.grant_id) grant false amount now b batches

unfoldable pub place_event :
    MeteredGrantRecord
    → (batch_id key amount now : ℕ) → List MeteredBatchRecord
    → Outcome MeteredError (MeteredBatchRecord × List MeteredBatchRecord)
unfolding collect_in open_batch
place_event grant batch_id key amount now batches =
    if is_immediate grant amount
    then open_batch grant batch_id key true amount now batches
    else collect_in (find_where (collects key grant.grant_id) batches) grant batch_id key amount now
        batches
