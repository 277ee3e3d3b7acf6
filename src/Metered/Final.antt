-- ===== src/Metered/Final.antt =====
-- After a settlement or a release (`finalizeMeteredBatch`, `releaseMeteredBatchReservation`):
-- src/services/meteredPayment.service.ts and src/services/meteredPaymentWorker.service.ts.
use fiberpassbackend.Prelude.{
  ℕ, ◌+◌, ◌-◌, ◌≤◌, ◌≡◌, refl, sym, ap, ◌∙◌, subst, false, ◌||◌, some, List, [], ◌∷◌, arith, ◌==◌,
  ltb, ok, err, >>=-eq-ok, reject_if-bind, Bool-cases, inl, inr, ==_iff,
}
use fiberpassbackend.Prelude.Store.{find_where, total}
use fiberpassbackend.Prelude.Documents.{
  given, ok-same, save, find-save, update_many, filter, total-save,
}
use fiberpassbackend.Charges.Preservation.{find_where-passes}
use fiberpassbackend.Charges.Records.{ReceiptSourceType, PaymentReceipt}
use fiberpassbackend.Metered.Records.{
  MeteredGrantRecord, MeteredBatchRecord, UsageEventRecord, MeteredDb, MeteredError,
}
use fiberpassbackend.Metered.Amounts.{session_reserved, set_session_reserved}
use fiberpassbackend.Metered.Usage.{UsageRequest, MeteredBatchIdentity}
use fiberpassbackend.Metered.Batches.{has_batch_id}
use fiberpassbackend.Metered.Release.{
  FinalStatus, is_open, is_open_in, amount_of, open_events, has_grant_id, has_session_id,
  is_final_batch, release_open, release_found, release_metered_batch_reservation, release_batch,
  release_event,
}
use fiberpassbackend.Metered.Finalization.{
  MeteredExecutionResult, sort, settle_open, finalize_found, finalize_metered_batch, is_succeeded,
  settle_batch,
}
use fiberpassbackend.Metered.Preservation.{own_batch, release_event-closed}
use fiberpassbackend.Metered.Settled.{settle_open-Settlement}

-- No event of the batch is open after its events were closed.
open-none :
    (batch : ℕ) (change : UsageEventRecord → UsageEventRecord) (l : List UsageEventRecord)
    → ((e : UsageEventRecord) → is_open (change e).status ≡ false)
    → filter (is_open_in batch) (update_many (is_open_in batch) change l) ≡ []
open-none batch change [] closed = refl
open-none batch change (e ∷ l) closed = elim (Bool-cases (is_open_in batch e)) [
  | inl yes_open ↦ ground (arith, closed e, open-none batch change l closed)
  | inr not_open ↦ ground (arith, open-none batch change l closed)
]

pub release_open-writes :
    (b : MeteredBatchRecord) (final : FinalStatus) (code now : ℕ) (db : MeteredDb) {db' : MeteredDb}
    → release_open b final code now db ≡ ok db'
    → (db'.events ≡ update_many (is_open_in b.batch_id) (release_event final code now) db.events)
      × (db'.batches ≡ save (has_batch_id b.batch_id) (release_batch final code now b) db.batches)
unfolding release_open
release_open-writes b final code now db {db'} h =
    let amount = total amount_of (open_events b.batch_id db) in
    let (g, hg, h1) =
      >>=-eq-ok
        (given (find_where (has_grant_id b.grant_id) db.grants) MeteredError.owner_state_missing) _
        h in
    let (s, hs, h2) =
      >>=-eq-ok
        (given (find_where (has_session_id b.session_id) db.sessions)
          MeteredError.owner_state_missing)
        _ h1 in
    let (enough, h3) =
      reject_if-bind (ltb g.reserved_atomic amount || ltb (session_reserved s) amount)
        MeteredError.counters_inconsistent _ h2 in
    let (s', hw, h4) = >>=-eq-ok (set_session_reserved (session_reserved s - amount) s) _ h3 in
    (ap MeteredDb.events (sym (ok-same h4)), ap MeteredDb.batches (sym (ok-same h4)))

module _ (receipt_id_for : ReceiptSourceType → ℕ → ℕ) (hash_receipt : PaymentReceipt → ℕ)
    (batch_key_of : MeteredBatchIdentity → ℕ) (fingerprint_of : UsageRequest → ℕ)
    (usage_key : (app external : ℕ) → ℕ)
    (required_btcpay_permissions : (store_id : ℕ) → List ℕ) where
  -- Once a batch that was still unsettled is settled, neither a release nor a second settlement changes
  -- anything.
  pub release-finalize_metered_batch :
      (id : ℕ) (result result' : MeteredExecutionResult) (final : FinalStatus) (code now now' : ℕ)
      (db db' : MeteredDb) (b : MeteredBatchRecord)
      → find_where (has_batch_id id) db.batches ≡ some b
      → is_succeeded receipt_id_for hash_receipt b.status ≡ false
      → finalize_metered_batch receipt_id_for hash_receipt id result now db ≡ ok db'
      → (release_metered_batch_reservation id final code now' db' ≡ ok db')
        × (finalize_metered_batch receipt_id_for hash_receipt id result' now' db' ≡ ok db')
  unfolding finalize_metered_batch finalize_found release_metered_batch_reservation release_found
      settle_open
  release-finalize_metered_batch id result result' final code now now' db db' b f unsettled h =
      let h1 : settle_open receipt_id_for hash_receipt b result now db ≡ ok db' =
        rw unsettled at (rw f at h) in
      let its : b.batch_id ≡ id =
        (==_iff b.batch_id id).0 (find_where-passes (has_batch_id id) db.batches f) in
      let own = own_batch id db.batches f in
      let t = settle_open-Settlement receipt_id_for hash_receipt b result now db own h1 in
      let settled : find_where (has_batch_id id) db'.batches ≡ some (settle_batch result now b) =
        subst (λ k. find_where (has_batch_id k) db'.batches ≡ some (settle_batch result now b)) its
          (rw t.closed.batches (
            rw t.is_batch (
              find-save (has_batch_id b.batch_id) (settle_batch result now b) db.batches own
                ((==_iff b.batch_id b.batch_id).1 refl)))) in
      (rw settled refl, rw settled refl)

  -- When a batch that was still unsettled is settled, all grants together have spent the total of the
  -- batch more than before, and hold that much less in reserve.
  pub finalize-moves :
      (id : ℕ) (result : MeteredExecutionResult) (now : ℕ) (db db' : MeteredDb)
      (b : MeteredBatchRecord)
      → find_where (has_batch_id id) db.batches ≡ some b
      → is_succeeded receipt_id_for hash_receipt b.status ≡ false
      → finalize_metered_batch receipt_id_for hash_receipt id result now db ≡ ok db'
      → (total MeteredGrantRecord.spent_atomic db'.grants
          ≡ total MeteredGrantRecord.spent_atomic db.grants + b.total_atomic)
        × (total MeteredGrantRecord.reserved_atomic db'.grants + b.total_atomic
            ≡ total MeteredGrantRecord.reserved_atomic db.grants)
  unfolding finalize_metered_batch finalize_found
  finalize-moves id result now db db' b f unsettled h =
      let h1 : settle_open receipt_id_for hash_receipt b result now db ≡ ok db' =
        rw unsettled at (rw f at h) in
      let t =
        settle_open-Settlement receipt_id_for hash_receipt b result now db
          (own_batch id db.batches f) h1 in
      let c = t.closed in
      let p = has_grant_id b.grant_id in
      (
        rw c.grants (
            omega (
              arith,
              total-save MeteredGrantRecord.spent_atomic p c.grant' db.grants c.grant_found,
              t.spent,
            )),
        rw c.grants (
            omega (
              arith,
              total-save MeteredGrantRecord.reserved_atomic p c.grant' db.grants c.grant_found,
              c.unreserved,
              t.sum,
            )),
      )

  release_batch-open :
      (final : FinalStatus) (code now : ℕ) (b : MeteredBatchRecord)
      → is_succeeded receipt_id_for hash_receipt (release_batch final code now b).status ≡ false
  release_batch-open FinalStatus.released code now b = refl
  release_batch-open FinalStatus.failed code now b = refl

  settle_open-empty :
      (b : MeteredBatchRecord) (result : MeteredExecutionResult) (now : ℕ) (db : MeteredDb)
      → open_events b.batch_id db ≡ []
      → 1 ≤ b.total_atomic
      → settle_open receipt_id_for hash_receipt b result now db
        ≡ err MeteredError.batch_total_mismatch
  unfolding settle_open sort
  settle_open-empty b result now db gone positive =
      let differs : (0 == b.total_atomic) ≡ false = ground arith in rw gone (rw differs refl)

  -- Once a batch of a positive total that was not yet final is released, settling it is refused, so a
  -- late success of the provider spends nothing.
  pub release-finalize :
      (id : ℕ) (result : MeteredExecutionResult) (final : FinalStatus) (code now now' : ℕ)
      (db db' : MeteredDb) (b : MeteredBatchRecord)
      → find_where (has_batch_id id) db.batches ≡ some b
      → is_final_batch b.status ≡ false
      → 1 ≤ b.total_atomic
      → release_metered_batch_reservation id final code now db ≡ ok db'
      → finalize_metered_batch receipt_id_for hash_receipt id result now' db'
        ≡ err MeteredError.batch_total_mismatch
  unfolding finalize_metered_batch finalize_found release_metered_batch_reservation release_found
      settle_open sort
  release-finalize id result final code now now' db db' b f unfinal positive h =
      let h1 : release_open b final code now db ≡ ok db' = rw unfinal at (rw f at h) in
      let its : b.batch_id ≡ id =
        (==_iff b.batch_id id).0 (find_where-passes (has_batch_id id) db.batches f) in
      let own = own_batch id db.batches f in
      let (events, batches) = release_open-writes b final code now db h1 in
      let gone : open_events b.batch_id db' ≡ [] =
        ap (filter (is_open_in b.batch_id)) events
        ∙ open-none b.batch_id (release_event final code now) db.events
            (release_event-closed final code now) in
      let found : find_where (has_batch_id id) db'.batches ≡ some (release_batch final code now b) =
        subst (λ k. find_where (has_batch_id k) db'.batches ≡ some (release_batch final code now b))
          its
          (rw batches (
            find-save (has_batch_id b.batch_id) (release_batch final code now b) db.batches own
              ((==_iff b.batch_id b.batch_id).1 refl))) in
      rw found (
        rw (release_batch-open final code now b)
          (settle_open-empty (release_batch final code now b) result now' db' gone positive))
