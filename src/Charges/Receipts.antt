-- ===== src/Charges/Receipts.antt =====
-- `createPaymentReceipt` of src/services/receipt.service.ts, and the receipt of a direct charge
-- (`createDirectChargeReceipt` of src/services/chargeReservation.service.ts). The two hashes, which are
-- SHA-256 digests, are parameters.
use fiberpassbackend.Prelude.{
  ℕ, Bool, true, false, ◌&&◌, ◌||◌, Option, none, some, [], ◌∷◌, ◌++◌, ◌==◌, if◌then◌else◌, Outcome,
  ok, err, ◌>>=◌, Text, codes,
}
use fiberpassbackend.Prelude.Store.{find_where}
use fiberpassbackend.Money.{MoneyError, as_atomic_amount, text, legacy_minor_to_atomic_amount}
use fiberpassbackend.Funding.Domain.{is_some}
use fiberpassbackend.Charges.Records.{
  ChargeExecutionLayer, ProofType, fiber_payment, payment_hash, Attempt, ReceiptSourceType,
  charge_attempt, scheduled_occurrence, usage_event, PaymentRail, PaymentReceipt, ChargeDb,
  ChargeError,
}

abbrev pub convert : {A : Type 0} → Outcome MoneyError A → Outcome ChargeError A
convert (ok a) = ok a
convert (err e) = err (ChargeError.money e)

abbrev pub or_else {ℓ} : {A : Type ℓ} → Option A → A → A
or_else none a = a
or_else (some b) a = b

abbrev or_option {ℓ} : {A : Type ℓ} → Option A → Option A → Option A
or_option none b = b
or_option (some a) b = some a

abbrev same_source_type : ReceiptSourceType → ReceiptSourceType → Bool
same_source_type scheduled_occurrence scheduled_occurrence = true
same_source_type usage_event usage_event = true
same_source_type charge_attempt charge_attempt = true
same_source_type _ _ = false

abbrev pub is_receipt_of : ReceiptSourceType → ℕ → PaymentReceipt → Bool
is_receipt_of type id r = same_source_type r.source_type type && r.source_id == id

abbrev pub charge_receipt_rail : ChargeExecutionLayer → PaymentRail
charge_receipt_rail ChargeExecutionLayer.lightning = PaymentRail.lightning
charge_receipt_rail ChargeExecutionLayer.ckb_vault = PaymentRail.ckb_onchain
charge_receipt_rail ChargeExecutionLayer.fiber = PaymentRail.fiber

abbrev pub has_specialized_receipt : Attempt → Bool
has_specialized_receipt a =
    is_some a.metadata.occurrence_id || is_some a.metadata.metered_receipt_id

-- The proof reference when the proof is a payment hash.
abbrev payment_hash_of : Option ProofType → Option ℕ → Option ℕ
payment_hash_of (some fiber_payment) reference = reference
payment_hash_of (some payment_hash) reference = reference
payment_hash_of _ reference = none

-- The digest covers every field of the receipt but itself.
module _ (receipt_id_for : ReceiptSourceType → ℕ → ℕ) (hash_receipt : PaymentReceipt → ℕ) where
  abbrev pub hashed : PaymentReceipt → PaymentReceipt
  hashed r = record r { receipt_hash = hash_receipt (record r { receipt_hash = 0 }) }

  unfoldable pub store_receipt :
      PaymentReceipt → Option PaymentReceipt → ChargeDb → Outcome ChargeError (ℕ × ChargeDb)
  store_receipt r (some existing) db =
      if existing.receipt_hash == r.receipt_hash
      then ok (existing.receipt_id, db)
      else err ChargeError.receipt_reused
  store_receipt r none db = ok (r.receipt_id, record db { receipts = db.receipts ++ (r ∷ []) })

  unfoldable pub receipt_from : PaymentReceipt → Option Text → Text → Text → PaymentReceipt
  receipt_from input fee amount fee_amount = hashed (record input {
    receipt_id = receipt_id_for input.source_type input.source_id;
    amount_atomic = amount;
    fee_atomic = fee_amount;
    fee_known = is_some fee;
  })

  -- The receipt's own id and hash are set here, whatever the argument holds.
  unfoldable pub create_payment_receipt :
      PaymentReceipt → Option Text → ChargeDb → Outcome ChargeError (ℕ × ChargeDb)
  unfolding store_receipt receipt_from
  create_payment_receipt input fee db = do
    amount ← convert (as_atomic_amount (text input.amount_atomic))
    fee_amount ← convert (as_atomic_amount (text (or_else fee (codes "0"))))
    let r = receipt_from input fee amount fee_amount
    store_receipt r (find_where (is_receipt_of input.source_type input.source_id) db.receipts) db

  -- The network "unknown" is 0.
  unfoldable pub direct_receipt : Attempt → (owner now : ℕ) → Text → PaymentReceipt
  direct_receipt a owner now amount = record {
    receipt_id = 0;
    owner_wallet_id = owner;
    recipient_id = a.metadata.recipient_id;
    source_type = charge_attempt;
    source_id = a.attempt_id;
    settlement_id = or_else (or_option a.provider_correlation_id a.proof_id) a.attempt_id;
    rail = charge_receipt_rail a.execution_layer;
    network = or_else a.network 0;
    asset_id = a.asset_id;
    amount_atomic = amount;
    fee_atomic = codes "0";
    fee_known = false;
    payment_hash = payment_hash_of a.proof_type a.proof_id;
    proof_kind = a.proof_type;
    proof_reference = a.proof_id;
    settled_at = or_else a.finalized_at now;
    receipt_hash = 0;
  }

  unfoldable pub receipt_amount : Attempt → Outcome ChargeError Text
  receipt_amount a = elim a.amount_atomic [
    | some amount ↦ ok amount
    | none ↦ convert (legacy_minor_to_atomic_amount (or_else a.amount_minor 0))
  ]

  unfoldable pub create_direct_charge_receipt :
      Attempt → (owner now : ℕ) → ChargeDb → Outcome ChargeError (Option ℕ × ChargeDb)
  unfolding create_payment_receipt direct_receipt receipt_amount
  create_direct_charge_receipt a owner now db =
      if has_specialized_receipt a then ok (none, db) else (do
        amount ← receipt_amount a
        (id, db') ← create_payment_receipt (direct_receipt a owner now amount) none db
        ok (some id, db'))
