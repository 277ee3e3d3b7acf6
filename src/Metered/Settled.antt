-- ===== src/Metered/Settled.antt =====
-- The settlement of a batch (`finalizeMeteredBatch` of src/services/meteredPaymentWorker.service.ts) and
-- its open events.
use fiberpassbackend.Prelude.{
  ℕ, ◌+◌, ◌-◌, ◌≤◌, ◌≡◌, refl, sym, subst, ◌&&◌, ◌||◌, Option, none, some, List, [], ◌∷◌, arith,
  ◌==◌, ltb, Bool-cases, inl, inr, ok, >>=-eq-ok, require-bind, reject_if-bind, length,
}
use fiberpassbackend.Prelude.Store.{find_where, total}
use fiberpassbackend.Prelude.Documents.{given, given-eq-ok, ok-same}
use fiberpassbackend.Charges.Records.{ReceiptSourceType, PaymentReceipt}
use fiberpassbackend.Funding.Allocations.{spend_funding_allocation}
use fiberpassbackend.Metered.Records.{
  MeteredGrantRecord, UsageEventRecord, MeteredBatchRecord, SessionRecord, MeteredDb, MeteredError,
}
use fiberpassbackend.Metered.Amounts.{
  atomic, session_spent, session_reserved, set_session_reserved, set_session_spent, session_atomic,
  safe_metered_atomic_number,
}
use fiberpassbackend.Metered.Batches.{has_batch_id}
use fiberpassbackend.Metered.Release.{amount_of, open_events, has_grant_id, has_session_id}
use fiberpassbackend.Metered.Finalization.{
  MeteredExecutionResult, insert, sort, spend_grant, spend_session, settle_event, settle_batch,
  settle_open, finalize_found, finalize_metered_batch, is_succeeded, lift_funding, event_fees,
  create_receipts,
}
use fiberpassbackend.Metered.Balance.{overdraft, Held}
use fiberpassbackend.Metered.Accepted.{set_session_reserved-eq-ok}
use fiberpassbackend.Metered.Preservation.{Closed, closed-Held, own_batch}

total-insert :
    (e : UsageEventRecord) (l : List UsageEventRecord)
    → total amount_of (insert e l) ≡ amount_of e + total amount_of l
total-insert e [] = omega arith
total-insert e (a ∷ l) = ground (arith, total-insert e l)

pub total-sort : (l : List UsageEventRecord) → total amount_of (sort l) ≡ total amount_of l
unfolding sort
total-sort [] = refl
total-sort (e ∷ l) = omega (arith, total-insert e (sort l), total-sort l)

-- A session that spends what it held in reserve.
spend_session-overdraft :
    (amount : ℕ) (s : SessionRecord) {s' : SessionRecord}
    → spend_session amount s ≡ ok s'
    → amount ≤ session_reserved s
    → overdraft s' ≡ overdraft s
unfolding spend_session set_session_spent safe_metered_atomic_number session_atomic
spend_session-overdraft amount s {s'} h enough =
    let (held, hr, h1) = >>=-eq-ok (set_session_reserved (session_reserved s - amount) s) _ h in
    let (paid, hp, h2) = >>=-eq-ok (set_session_spent (session_spent s + amount) held) _ h1 in
    let is_held = set_session_reserved-eq-ok (session_reserved s - amount) s hr in
    let (minor, hm, h3) = >>=-eq-ok (safe_metered_atomic_number (session_spent s + amount)) _ hp in
    let is_after = ok-same h2 in
    let is_paid = ok-same h3 in
    rw (sym is_after) (rw (sym is_paid) (rw is_held (omega (arith, enough))))

-- A batch of which the open events make up the total is closed and settled.
pub record Settlement (b : MeteredBatchRecord) (result : MeteredExecutionResult) (now : ℕ)
    (db db' : MeteredDb) : Type 0 where
  pub grant : MeteredGrantRecord
  pub session : SessionRecord
  pub closed : Closed b grant session db db'
  pub is_batch : closed.batch' ≡ settle_batch result now b
  pub spent : closed.grant'.spent_atomic ≡ grant.spent_atomic + b.total_atomic
  pub sum : total amount_of (open_events b.batch_id db) ≡ b.total_atomic

module _ (receipt_id_for : ReceiptSourceType → ℕ → ℕ) (hash_receipt : PaymentReceipt → ℕ) where
  pub settle_open-Settlement :
      (b : MeteredBatchRecord) (result : MeteredExecutionResult) (now : ℕ) (db : MeteredDb)
      {db' : MeteredDb}
      → find_where (has_batch_id b.batch_id) db.batches ≡ some b
      → settle_open receipt_id_for hash_receipt b result now db ≡ ok db'
      → Settlement b result now db db'
  unfolding settle_open
  settle_open-Settlement b result now db {db'} f h =
      let events = sort (open_events b.batch_id db) in
      let amount = total amount_of events in
      let (agreed, h0) =
        require-bind (amount == b.total_atomic && length events == b.event_count)
          MeteredError.batch_total_mismatch _ h in
      let (g, hg, h1) =
        >>=-eq-ok
          (given (find_where (has_grant_id b.grant_id) db.grants) MeteredError.owner_state_missing)
          _ h0 in
      let (s, hs, h2) =
        >>=-eq-ok
          (given (find_where (has_session_id b.session_id) db.sessions)
            MeteredError.owner_state_missing)
          _ h1 in
      let (enough, h3) =
        reject_if-bind (ltb g.reserved_atomic amount || ltb (session_reserved s) amount)
          MeteredError.reservation_missing _ h2 in
      let (spent, hp, h4) = >>=-eq-ok (atomic (g.spent_atomic + amount)) _ h3 in
      let (s', hw, h5) = >>=-eq-ok (spend_session amount s) _ h4 in
      let (minor, hm, h6) = >>=-eq-ok (safe_metered_atomic_number amount) _ h5 in
      let ((found, funding), hf, h7) =
        >>=-eq-ok (lift_funding (spend_funding_allocation b.session_id minor now db.funding)) _
          h6 in
      let (fees, he, h8) = >>=-eq-ok (event_fees result.fee_atomic events) _ h7 in
      let (receipts, hr, h9) =
        >>=-eq-ok (create_receipts receipt_id_for hash_receipt events fees b result now db.receipts)
          _ h8 in
      let is_total : amount ≡ b.total_atomic = ground arith in
      let in_grant : amount ≤ g.reserved_atomic = ground arith in
      let in_session : amount ≤ session_reserved s = ground arith in
      let over : overdraft s' ≡ overdraft s = spend_session-overdraft amount s hw in_session in
      subst (Settlement b result now db) (ok-same h9) (record {
        grant = g;
        session = s;
        closed = record {
          found = f;
          grant_found = given-eq-ok _ MeteredError.owner_state_missing hg;
          session_found = given-eq-ok _ MeteredError.owner_state_missing hs;
          grant' = spend_grant amount g;
          same_grant = refl;
          unreserved = omega (arith, total-sort (open_events b.batch_id db), in_grant);
          no_excess = omega (arith, in_grant);
          grants = refl;
          session' = s';
          no_overdraft = omega (arith, over);
          sessions = refl;
          batch' = settle_batch result now b;
          same_batch = refl;
          same_batch_grant = refl;
          batches = refl;
          change = settle_event result b now;
          closes = λ e. refl;
          keeps = λ e. refl;
          events = refl;
        };
        is_batch = refl;
        spent = omega (arith, is_total);
        sum = omega (arith, is_total, total-sort (open_events b.batch_id db));
      })

  found-Held :
      (id : ℕ) (o : Option MeteredBatchRecord) (result : MeteredExecutionResult) (now : ℕ)
      (db : MeteredDb) {db' : MeteredDb}
      → find_where (has_batch_id id) db.batches ≡ o
      → finalize_found receipt_id_for hash_receipt o result now db ≡ ok db'
      → Held db
      → Held db'
  unfolding finalize_found
  found-Held id none result now db {db'} f h i = subst Held (ok-same h) i
  found-Held id (some b) result now db {db'} f h i =
      elim (Bool-cases (is_succeeded receipt_id_for hash_receipt b.status)) [
        | inl yes_done ↦ let same : ok db ≡ ok db' = rw yes_done at h in subst Held (ok-same same) i
        | inr not_done ↦
            let t =
              settle_open-Settlement b result now db (own_batch id db.batches f)
                (rw not_done at h) in
            closed-Held b t.grant t.session db db' t.closed i
      ]

  pub finalize_metered_batch-Held :
      (id : ℕ) (result : MeteredExecutionResult) (now : ℕ) (db : MeteredDb) {db' : MeteredDb}
      → finalize_metered_batch receipt_id_for hash_receipt id result now db ≡ ok db'
      → Held db
      → Held db'
  unfolding finalize_metered_batch
  finalize_metered_batch-Held id result now db h i =
      found-Held id (find_where (has_batch_id id) db.batches) result now db refl h i
