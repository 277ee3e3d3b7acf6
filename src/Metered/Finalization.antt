-- ===== src/Metered/Finalization.antt =====
-- `finalizeMeteredBatch` of src/services/meteredPaymentWorker.service.ts: a batch that the provider has
-- paid is settled. Notifications and the audit log, which follow the transaction, are left out.
use fiberpassbackend.Prelude.{
  ℕ, ◌+◌, ◌-◌, Bool, true, false, ◌&&◌, ◌||◌, Option, none, some, List, [], ◌∷◌, ◌==◌, leb, ltb,
  if◌then◌else◌, Outcome, ok, err, ◌>>=◌, ◌>>◌, reject_if, require, Text, map, length, codes,
}
use fiberpassbackend.Prelude.Store.{find_where, total}
use fiberpassbackend.Prelude.Documents.{given, save, update_many}
use fiberpassbackend.Money.{print_digits}
use fiberpassbackend.Receipts.{FeeError, allocate_atomic_fee}
use fiberpassbackend.Funding.Domain.{FundingError}
use fiberpassbackend.Funding.Allocations.{spend_funding_allocation}
use fiberpassbackend.Charges.Records.{
  Attempt, ChargeAttemptStatus, ChargeReserveStatus, ChargeProviderStatus, SessionStatus, ProofType,
  ReceiptSourceType, PaymentReceipt, ChargeError, ChargeDb,
}
use fiberpassbackend.Charges.Receipts.{create_payment_receipt}
use fiberpassbackend.Metered.Records.{
  MeteredGrantStatus, UsageEventStatus, MeteredBatchStatus, MeteredExecutor, MeteredGrantRecord,
  UsageEventRecord, MeteredBatchRecord, SessionRecord, MeteredDb, MeteredError,
}
use fiberpassbackend.Metered.Amounts.{
  atomic, safe_metered_atomic_number, session_limit, session_spent, session_reserved,
  set_session_reserved, set_session_spent,
}
use fiberpassbackend.Metered.Usage.{is_active_grant}
use fiberpassbackend.Metered.Batches.{has_batch_id}
use fiberpassbackend.Metered.Release.{
  is_open_in, amount_of, open_events, has_grant_id, has_session_id, is_held_for,
}

pub data ExecutionStatus : Type 0 where
  succeeded pending failed : ExecutionStatus

pub record MeteredExecutionResult : Type 0 where
  pub status : ExecutionStatus
  pub provider_payment_id : Option ℕ
  pub payment_hash : Option ℕ
  pub fee_atomic : Option Text
  pub proof_kind : Option ProofType
  pub proof_reference : Option ℕ
  pub failure_code : Option ℕ

abbrev pub or_option {ℓ} : {A : Type ℓ} → Option A → Option A → Option A
or_option none b = b
or_option (some a) b = some a

-- The order of settlement: by the time of acceptance, then by the id.
abbrev pub comes_before : UsageEventRecord → UsageEventRecord → Bool
comes_before a b =
    ltb a.accepted_at b.accepted_at || (a.accepted_at == b.accepted_at && leb a.event_id b.event_id)

abbrev pub insert : UsageEventRecord → List UsageEventRecord → List UsageEventRecord
insert a [] = a ∷ []
insert a (b ∷ l) = if comes_before a b then a ∷ b ∷ l else b ∷ insert a l

unfoldable pub sort : List UsageEventRecord → List UsageEventRecord
sort [] = []
sort (a ∷ l) = insert a (sort l)

abbrev pub settle_event :
    MeteredExecutionResult → MeteredBatchRecord → (now : ℕ) → UsageEventRecord → UsageEventRecord
settle_event result b now e = record e {
  status = UsageEventStatus.settled;
  settled_at = some now;
  proof_kind = result.proof_kind;
  proof_reference = result.proof_reference;
  payment_request_hash = b.payment_request_hash;
  failure_code = none;
}

-- A provider is named by its number.
abbrev provider_of : MeteredExecutor → ℕ
provider_of MeteredExecutor.nwc = 0
provider_of MeteredExecutor.btcpay = 1
provider_of MeteredExecutor.fiber = 2

abbrev pub debit_attempt :
    MeteredExecutionResult → MeteredBatchRecord → (now : ℕ) → Attempt → Attempt
debit_attempt result b now a = record a {
  status = ChargeAttemptStatus.succeeded;
  reserve_status = ChargeReserveStatus.debited;
  provider_status = ChargeProviderStatus.succeeded;
  provider = some (provider_of b.executor);
  network = some b.network;
  provider_correlation_id = result.provider_payment_id;
  proof_id = result.proof_reference;
  proof_type = result.proof_kind;
  payment_request_hash = b.payment_request_hash;
  finalized_at = some now;
  provider_completed_at = some now;
  failure_code = none;
}

-- The grant after spending, depleted where nothing is left.
abbrev pub spend_grant : ℕ → MeteredGrantRecord → MeteredGrantRecord
spend_grant amount g = record g {
  reserved_atomic = g.reserved_atomic - amount;
  spent_atomic = g.spent_atomic + amount;
  status =
      if leb g.total_limit_atomic (g.spent_atomic + amount) && is_active_grant g.status
      then MeteredGrantStatus.depleted
      else g.status;
}

unfoldable pub spend_session : ℕ → SessionRecord → Outcome MeteredError SessionRecord
unfolding set_session_reserved set_session_spent
spend_session amount s = do
  held ← set_session_reserved (session_reserved s - amount) s
  paid ← set_session_spent (session_spent s + amount) held
  ok (record paid {
    status =
        if leb (session_limit s) (session_spent s + amount)
        then SessionStatus.expired
        else s.status;
  })

abbrev pub settle_batch :
    MeteredExecutionResult → (now : ℕ) → MeteredBatchRecord → MeteredBatchRecord
settle_batch result now b = record b {
  status = MeteredBatchStatus.succeeded;
  accepting = false;
  completed_at = some now;
  provider_payment_id = or_option result.provider_payment_id b.provider_payment_id;
  payment_hash = or_option result.payment_hash b.payment_hash;
  proof_kind = result.proof_kind;
  proof_reference = result.proof_reference;
  failure_code = none;
  lease_id = none;
  lease_expires_at = some now;
}

abbrev pub lift_funding : {A : Type 0} → Outcome FundingError A → Outcome MeteredError A
lift_funding (ok a) = ok a
lift_funding (err e) = err (MeteredError.funding e)

abbrev lift_fee : {A : Type 0} → Outcome FeeError A → Outcome MeteredError A
lift_fee (ok a) = ok a
lift_fee (err e) = err (MeteredError.fee e)

abbrev lift_receipt : {A : Type 0} → Outcome ChargeError A → Outcome MeteredError A
lift_receipt (ok a) = ok a
lift_receipt (err e) = err (MeteredError.receipt e)

abbrev no_fees : List UsageEventRecord → List (Option Text)
no_fees [] = []
no_fees (e ∷ l) = none ∷ no_fees l

-- The fee of each receipt: nothing known, or the shares of the settlement's fee.
unfoldable pub event_fees :
    Option Text → List UsageEventRecord → Outcome MeteredError (List (Option Text))
event_fees none events = ok (no_fees events)
event_fees (some fee) events = do
  shares ← lift_fee (allocate_atomic_fee fee (map (λ e. print_digits (amount_of e)) events))
  ok (map some shares)

abbrev first_fee : List (Option Text) → Option Text
first_fee [] = none
first_fee (fee ∷ fees) = fee

abbrev other_fees : List (Option Text) → List (Option Text)
other_fees [] = []
other_fees (fee ∷ fees) = fees

unfoldable pub usage_receipt :
    UsageEventRecord → MeteredBatchRecord → MeteredExecutionResult → (now : ℕ) → PaymentReceipt
usage_receipt e b result now = record {
  receipt_id = 0;
  owner_wallet_id = e.owner_wallet_id;
  recipient_id = some e.recipient_id;
  source_type = ReceiptSourceType.usage_event;
  source_id = e.event_id;
  settlement_id = b.batch_id;
  rail = e.rail;
  network = e.network;
  asset_id = e.asset_id;
  amount_atomic = print_digits e.amount_atomic;
  fee_atomic = codes "0";
  fee_known = false;
  payment_hash = or_option result.payment_hash b.payment_hash;
  proof_kind = result.proof_kind;
  proof_reference = result.proof_reference;
  settled_at = now;
  receipt_hash = 0;
}

abbrev pub only_receipts : List PaymentReceipt → ChargeDb
only_receipts receipts = record {
  sessions = [];
  counters = [];
  attempts = [];
  receipts = receipts;
  funding = record { sources = []; allocations = [] };
}

module _ (receipt_id_for : ReceiptSourceType → ℕ → ℕ) (hash_receipt : PaymentReceipt → ℕ) where
  -- The loop over the events: one receipt each, with the fee at its index.
  unfoldable pub create_receipts :
      List UsageEventRecord
      → List (Option Text)
      → MeteredBatchRecord
      → MeteredExecutionResult
      → (now : ℕ) → List PaymentReceipt
      → Outcome MeteredError (List PaymentReceipt)
  unfolding create_payment_receipt usage_receipt
  create_receipts [] fees b result now receipts = ok receipts
  create_receipts (e ∷ l) fees b result now receipts = do
    (id, db) ← lift_receipt (
        create_payment_receipt receipt_id_for hash_receipt (usage_receipt e b result now)
          (first_fee fees) (only_receipts receipts))
    create_receipts l (other_fees fees) b result now db.receipts

  unfoldable pub settle_open :
      MeteredBatchRecord
      → MeteredExecutionResult
      → (now : ℕ) → MeteredDb
      → Outcome MeteredError MeteredDb
  unfolding sort atomic spend_session safe_metered_atomic_number spend_funding_allocation event_fees
      create_receipts
  settle_open b result now db = do
    let events = sort (open_events b.batch_id db)
    let amount = total amount_of events
    require (amount == b.total_atomic && length events == b.event_count)
        MeteredError.batch_total_mismatch
    grant ← given (find_where (has_grant_id b.grant_id) db.grants) MeteredError.owner_state_missing
    session ←
        given (find_where (has_session_id b.session_id) db.sessions)
          MeteredError.owner_state_missing
    reject_if (ltb grant.reserved_atomic amount || ltb (session_reserved session) amount)
        MeteredError.reservation_missing
    spent ← atomic (grant.spent_atomic + amount)
    session' ← spend_session amount session
    minor ← safe_metered_atomic_number amount
    (found, funding) ← lift_funding (spend_funding_allocation b.session_id minor now db.funding)
    fees ← event_fees result.fee_atomic events
    receipts ← create_receipts events fees b result now db.receipts
    ok (record db {
      grants = save (has_grant_id b.grant_id) (spend_grant amount grant) db.grants;
      sessions = save (has_session_id b.session_id) session' db.sessions;
      funding = funding;
      events = update_many (is_open_in b.batch_id) (settle_event result b now) db.events;
      attempts = update_many (is_held_for events) (debit_attempt result b now) db.attempts;
      receipts = receipts;
      batches = save (has_batch_id b.batch_id) (settle_batch result now b) db.batches;
    })

  abbrev pub is_succeeded : MeteredBatchStatus → Bool
  is_succeeded MeteredBatchStatus.succeeded = true
  is_succeeded _ = false

  unfoldable pub finalize_found :
      Option MeteredBatchRecord
      → MeteredExecutionResult
      → (now : ℕ) → MeteredDb
      → Outcome MeteredError MeteredDb
  unfolding settle_open
  finalize_found none result now db = ok db
  finalize_found (some b) result now db =
      if is_succeeded b.status then ok db else settle_open b result now db

  unfoldable pub finalize_metered_batch :
      (batch_id : ℕ)
      → MeteredExecutionResult
      → (now : ℕ) → MeteredDb
      → Outcome MeteredError MeteredDb
  unfolding finalize_found
  finalize_metered_batch batch_id result now db =
      finalize_found (find_where (has_batch_id batch_id) db.batches) result now db
