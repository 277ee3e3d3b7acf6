-- ===== src/Charges/Finalization.antt =====
-- `finalizeChargeReservation` of src/services/chargeReservation.service.ts keeps the reserved amounts in
-- agreement.
use fiberpassbackend.Prelude.{
  ℕ, ◌≡◌, sym, ap, ◌∙◌, true, ◌&&◌, Option, none, some, arith, Text, codes, ok, >>=-eq-ok,
  require-bind, subst, Bool-cases, inl, inr,
}
use fiberpassbackend.Prelude.Store.{total, update_where, update_where-eq-some, find_where}
use fiberpassbackend.Money.{as_atomic_amount, text}
use fiberpassbackend.Charges.Records.{
  Attempt, ChargeDb, ChargeError, ReceiptSourceType, PaymentReceipt,
}
use fiberpassbackend.Charges.Receipts.{
  create_direct_charge_receipt, create_payment_receipt, store_receipt, direct_receipt,
  receipt_amount, has_specialized_receipt, is_receipt_of, convert, or_else, receipt_from,
}
use fiberpassbackend.Charges.Reservation.{updated}
use fiberpassbackend.Charges.Execution.{is_reserved}
use fiberpassbackend.Charges.Settlement.{
  amount_of, has_id, can_unreserve, can_unreserve_day, debit, debit_day, succeed_attempt,
  save_attempt, given, settle_funding, debit_attempt, finalize_attempt, replay_finalized,
  finalize_charge_reservation, is_done, provider_succeeded, receipt_owner,
}
use fiberpassbackend.Charges.Balance.{
  Agreed, booked, booked_day, held, held_day, excess, Together-Agreed, finalize-Together,
}
use fiberpassbackend.Charges.Preservation.{
  updated-eq-ok, given-eq-ok, same-ok, save_attempt-eq-ok, own-id,
}

-- Only the receipts change.
abbrev pub OnlyReceipts : ChargeDb → ChargeDb → Type 0
OnlyReceipts db db' =
    (db'.sessions ≡ db.sessions)
    × (db'.counters ≡ db.counters)
    × (db'.attempts ≡ db.attempts)
    × (db'.funding ≡ db.funding)

OnlyReceipts-Agreed : (db db' : ChargeDb) → OnlyReceipts db db' → Agreed db → Agreed db'
OnlyReceipts-Agreed db db' o g = record {
  per_session =
      λ i. omega (arith, ap (total (booked i)) o.0, ap (total (held i)) o.2, g.per_session i);
  per_day = λ i d.
      omega (arith, ap (total (booked_day i d)) o.1, ap (total (held_day i d)) o.2, g.per_day i d);
  limited = omega (arith, ap (total excess) o.0, g.limited);
}

module _ (receipt_id_for : ReceiptSourceType → ℕ → ℕ) (hash_receipt : PaymentReceipt → ℕ) where
  store_receipt-OnlyReceipts :
      (x : PaymentReceipt) (o : Option PaymentReceipt) (db : ChargeDb) {r : ℕ × ChargeDb}
      → store_receipt receipt_id_for hash_receipt x o db ≡ ok r
      → OnlyReceipts db r.1
  unfolding store_receipt
  store_receipt-OnlyReceipts x none db h = ground arith
  store_receipt-OnlyReceipts x (some y) db h = ground arith

  create_payment_receipt-OnlyReceipts :
      (x : PaymentReceipt) (fee : Option Text) (db : ChargeDb) {r : ℕ × ChargeDb}
      → create_payment_receipt receipt_id_for hash_receipt x fee db ≡ ok r
      → OnlyReceipts db r.1
  unfolding create_payment_receipt
  create_payment_receipt-OnlyReceipts x fee db h =
      let (amount, _, h1) = >>=-eq-ok (convert (as_atomic_amount (text x.amount_atomic))) _ h in
      let (fee_amount, _, h2) =
        >>=-eq-ok (convert (as_atomic_amount (text (or_else fee (codes "0"))))) _ h1 in
      store_receipt-OnlyReceipts (receipt_from receipt_id_for hash_receipt x fee amount fee_amount)
        (find_where (is_receipt_of x.source_type x.source_id) db.receipts) db h2

  pub direct-OnlyReceipts :
      (a : Attempt) (owner now : ℕ) (db : ChargeDb) {r : Option ℕ × ChargeDb}
      → create_direct_charge_receipt receipt_id_for hash_receipt a owner now db ≡ ok r
      → OnlyReceipts db r.1
  unfolding create_direct_charge_receipt
  direct-OnlyReceipts a owner now db {r} h = elim (Bool-cases (has_specialized_receipt a)) [
    | inl yes_special ↦ ground arith
    | inr not_special ↦
        let (amount, _, h1) =
          >>=-eq-ok (receipt_amount receipt_id_for hash_receipt a) _ (rw not_special at h) in
        let ((id, db1), hc, h2) =
          >>=-eq-ok
            (create_payment_receipt receipt_id_for hash_receipt
              (direct_receipt receipt_id_for hash_receipt a owner now amount) none db)
            _ h1 in
        subst (λ (x : Option ℕ × ChargeDb). OnlyReceipts db x.1) (same-ok h2)
          (create_payment_receipt-OnlyReceipts
            (direct_receipt receipt_id_for hash_receipt a owner now amount) none db hc)
  ]

  debit_attempt-Agreed :
      (a : Attempt) (now : ℕ) (db : ChargeDb) {r : Attempt × ℕ × ChargeDb}
      → find_where (has_id a.attempt_id) db.attempts ≡ some a
      → is_reserved a.reserve_status ≡ true
      → Agreed db
      → debit_attempt receipt_id_for hash_receipt a now db ≡ ok r
      → Agreed r.2
  unfolding debit_attempt
  debit_attempt-Agreed a now db {r} f is_held g h =
      let (day, hd, h2) = >>=-eq-ok (given a.reservation_day ChargeError.not_ready) _ h in
      let ((s, sessions), hs, h3) =
        >>=-eq-ok
          (updated (update_where (can_unreserve a.session_id (amount_of a)) (debit a) db.sessions)
            ChargeError.counters_inconsistent)
          _ h2 in
      let ((c, counters), hc, h4) =
        >>=-eq-ok
          (updated
            (update_where (can_unreserve_day a.session_id day (amount_of a))
              (debit_day (amount_of a)) db.counters)
            ChargeError.counters_inconsistent)
          _ h3 in
      let (funding, _, h5) =
        >>=-eq-ok (settle_funding a.session_id (amount_of a) now s.single_use db.funding) _ h4 in
      let ((b, db1), ha, h6) =
        >>=-eq-ok
          (save_attempt (succeed_attempt now) a
            (record db { sessions = sessions; counters = counters; funding = funding }))
          _ h5 in
      let us =
        update_where-eq-some (can_unreserve a.session_id (amount_of a)) (debit a) db.sessions
          (updated-eq-ok _ ChargeError.counters_inconsistent hs) in
      let uc =
        update_where-eq-some (can_unreserve_day a.session_id day (amount_of a))
          (debit_day (amount_of a)) db.counters
          (updated-eq-ok _ ChargeError.counters_inconsistent hc) in
      let ua =
        save_attempt-eq-ok (succeed_attempt now) a
          (record db { sessions = sessions; counters = counters; funding = funding }) f ha in
      subst Agreed (sym ua.1 ∙ ap (λ (x : Attempt × ℕ × ChargeDb). x.2) (same-ok h6)) (
        Together-Agreed db
          (record db {
            sessions = sessions;
            counters = counters;
            funding = funding;
            attempts = ua.0;
          })
          us.before (debit a us.before) uc.before (debit_day (amount_of a) uc.before) a
          (succeed_attempt now a)
          (finalize-Together us.before uc.before a day now us.passes uc.passes
            (given-eq-ok _ ChargeError.not_ready hd) is_held)
          us.sums uc.sums ua.2 g)

  finalize_attempt-Agreed :
      (a : Attempt) (now : ℕ) (db : ChargeDb) {r : Attempt × Option ℕ × ChargeDb}
      → find_where (has_id a.attempt_id) db.attempts ≡ some a
      → Agreed db
      → finalize_attempt receipt_id_for hash_receipt a now db ≡ ok r
      → Agreed r.2
  unfolding finalize_attempt
  finalize_attempt-Agreed a now db {r} f g h =
      let (ready, h1) =
        require-bind (provider_succeeded a.provider_status && is_reserved a.reserve_status)
          ChargeError.not_ready _ h in
      let ((b, owner, db1), hd, h2) =
        >>=-eq-ok (debit_attempt receipt_id_for hash_receipt a now db) _ h1 in
      let ((id, db2), hr, h3) =
        >>=-eq-ok (create_direct_charge_receipt receipt_id_for hash_receipt b owner now db1) _ h2 in
      subst (λ (x : Attempt × Option ℕ × ChargeDb). Agreed x.2) (same-ok h3)
        (OnlyReceipts-Agreed db1 db2 (direct-OnlyReceipts b owner now db1 hr)
          (debit_attempt-Agreed a now db f (ground (arith, ready)) g hd))

  replay_finalized-Agreed :
      (a : Attempt) (now : ℕ) (db : ChargeDb) {r : Attempt × Option ℕ × ChargeDb}
      → Agreed db
      → replay_finalized receipt_id_for hash_receipt a now db ≡ ok r
      → Agreed r.2
  unfolding replay_finalized
  replay_finalized-Agreed a now db {r} g h =
      let (owner, _, h2) = >>=-eq-ok (given (receipt_owner a db) ChargeError.owner_missing) _ h in
      let ((id, db2), hr, h3) =
        >>=-eq-ok (create_direct_charge_receipt receipt_id_for hash_receipt a owner now db) _ h2 in
      subst (λ (x : Attempt × Option ℕ × ChargeDb). Agreed x.2) (same-ok h3)
        (OnlyReceipts-Agreed db db2 (direct-OnlyReceipts a owner now db hr) g)

  -- When a finalization succeeds on collections whose reserved amounts agree with the reserved attempts,
  -- of each session and of each day, and where no session has spent and reserved more than its limit,
  -- the same holds after it.
  pub finalize_charge_reservation-Agreed :
      (id now : ℕ) (db : ChargeDb) {r : Attempt × Option ℕ × ChargeDb}
      → finalize_charge_reservation receipt_id_for hash_receipt id now db ≡ ok r
      → Agreed db
      → Agreed r.2
  unfolding finalize_charge_reservation
  finalize_charge_reservation-Agreed id now db {r} h g =
      let (a, ha, h1) =
        >>=-eq-ok (given (find_where (has_id id) db.attempts) ChargeError.attempt_not_found) _ h in
      let f = own-id id db.attempts (given-eq-ok _ ChargeError.attempt_not_found ha) in
      elim (Bool-cases (is_done a)) [
        | inl yes_done ↦ replay_finalized-Agreed a now db g (rw yes_done at h1)
        | inr not_done ↦ finalize_attempt-Agreed a now db f g (rw not_done at h1)
      ]
