-- ===== src/Metered/Worker.antt =====
-- The steps of the worker on a batch: `claimMeteredBatch`, `retryMeteredBatch` and the updates inside
-- `runMeteredPaymentWorker` of src/services/meteredPaymentWorker.service.ts.
use fiberpassbackend.Prelude.{
  ℕ, ◌+◌, ◌-◌, ◌*◌, ◌^◌, min, Bool, true, false, ◌&&◌, Option, none, some, List, [], ◌∷◌, ◌==◌, leb,
  ltb, if◌then◌else◌,
}
use fiberpassbackend.Prelude.Store.{update_where}
use fiberpassbackend.Prelude.Documents.{update_many}
use fiberpassbackend.Metered.Records.{
  UsageEventStatus, MeteredBatchStatus, UsageEventRecord, MeteredBatchRecord, MeteredDb,
}
use fiberpassbackend.Metered.Batches.{has_batch_id}

-- `BATCH_LEASE_MS`
abbrev pub batch_lease_ms : ℕ
batch_lease_ms = 60000

abbrev is_claimable_status : MeteredBatchStatus → Bool
is_claimable_status MeteredBatchStatus.succeeded = false
is_claimable_status MeteredBatchStatus.failed = false
is_claimable_status MeteredBatchStatus.released = false
is_claimable_status _ = true

abbrev lease_is_free : ℕ → Option ℕ → Bool
lease_is_free now none = true
lease_is_free now (some t) = leb t now

abbrev pub is_claimable : ℕ → MeteredBatchRecord → Bool
is_claimable now b =
    is_claimable_status b.status && leb b.run_after now && lease_is_free now b.lease_expires_at

-- The sort of the query: the smallest `runAfter`, of these the first created. Documents stand in the
-- order of their creation.
abbrev earlier : MeteredBatchRecord → Option MeteredBatchRecord → Option MeteredBatchRecord
earlier b none = some b
earlier b (some c) = if ltb c.run_after b.run_after then some c else some b

unfoldable pub first_claimable : ℕ → List MeteredBatchRecord → Option MeteredBatchRecord
first_claimable now [] = none
first_claimable now (b ∷ l) =
    let rest = first_claimable now l in if is_claimable now b then earlier b rest else rest

abbrev pub claim : (lease now : ℕ) → MeteredBatchRecord → MeteredBatchRecord
claim lease now b = record b {
  status = MeteredBatchStatus.processing;
  accepting = false;
  lease_id = some lease;
  lease_expires_at = some (now + batch_lease_ms);
  attempts = b.attempts + 1;
}

-- The claimed batch, after the update.
abbrev pub updated :
    Option (MeteredBatchRecord × List MeteredBatchRecord)
    → MeteredDb
    → Option MeteredBatchRecord × MeteredDb
updated none db = (none, db)
updated (some (b, batches)) db = (some b, record db { batches = batches })

unfoldable pub claim_metered_batch :
    (lease now : ℕ) → MeteredDb → Option MeteredBatchRecord × MeteredDb
unfolding first_claimable
claim_metered_batch lease now db = elim (first_claimable now db.batches) [
  | none ↦ (none, db)
  | some b ↦ updated (update_where (has_batch_id b.batch_id) (claim lease now) db.batches) db
]

-- The filter `{ batchId, leaseId }` of a worker that holds the batch.
abbrev same_lease : Option ℕ → Option ℕ → Bool
same_lease none none = true
same_lease (some a) (some b) = a == b
same_lease _ _ = false

abbrev pub is_leased : MeteredBatchRecord → MeteredBatchRecord → Bool
is_leased b c = c.batch_id == b.batch_id && same_lease c.lease_id b.lease_id

-- `updateOne`: nothing changes where no document passes.
abbrev pub update_one : {A : Type 0} → (A → Bool) → (A → A) → List A → List A
update_one p f l = elim (update_where p f l) [ some (b, l') ↦ l' | none ↦ l ]

unfoldable pub retry_delay : (attempts : ℕ) → ℕ
retry_delay attempts = min 60000 (1000 * 2 ^ min (attempts - 1) 6)

abbrev pub retried :
    (submitted : Bool) → (code delay now : ℕ) → MeteredBatchRecord → MeteredBatchRecord
retried submitted code delay now b = record b {
  status = if submitted then MeteredBatchStatus.uncertain else MeteredBatchStatus.retrying;
  run_after = now + delay;
  lease_expires_at = some now;
  failure_code = some code;
  lease_id = none;
}

unfoldable pub retry_metered_batch :
    MeteredBatchRecord → (submitted : Bool) → (code now : ℕ) → MeteredDb → MeteredDb
unfolding retry_delay
retry_metered_batch b submitted code now db = record db {
  batches =
      update_one (is_leased b) (retried submitted code (retry_delay b.attempts) now) db.batches;
}

-- The payment request of the batch: its hash is unique among batches.
abbrev pub resolved :
    (request_hash : ℕ) → (payment_hash : Option ℕ) → MeteredBatchRecord → MeteredBatchRecord
resolved request_hash payment_hash b = record b {
  payment_request_hash = some request_hash;
  payment_hash = payment_hash;
}

abbrev pub is_reserved_in : ℕ → UsageEventRecord → Bool
is_reserved_in batch e =
    e.batch_id == batch && (elim e.status [ UsageEventStatus.reserved ↦ true | _ ↦ false ])

abbrev pub settling_from : ℕ → UsageEventRecord → UsageEventRecord
settling_from now e = record e { status = UsageEventStatus.settling; settling_at = some now }

-- The events of a batch whose request is stored.
unfoldable pub mark_settling : (batch_id now : ℕ) → MeteredDb → MeteredDb
mark_settling batch_id now db = record db {
  events = update_many (is_reserved_in batch_id) (settling_from now) db.events;
}

abbrev or_option : Option ℕ → Option ℕ → Option ℕ
or_option none b = b
or_option (some a) b = some a

abbrev pub submitted_with :
    (provider_payment_id : Option ℕ) → (now : ℕ) → MeteredBatchRecord → MeteredBatchRecord
submitted_with provider_payment_id now b = record b {
  submitted_at = some now;
  provider_payment_id = or_option provider_payment_id b.provider_payment_id;
}

unfoldable pub mark_submitted :
    MeteredBatchRecord → (provider_payment_id : Option ℕ) → (now : ℕ) → MeteredDb → MeteredDb
mark_submitted b provider_payment_id now db = record db {
  batches = update_one (is_leased b) (submitted_with provider_payment_id now) db.batches;
}
