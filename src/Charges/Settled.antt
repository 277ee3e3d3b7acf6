-- ===== src/Charges/Settled.antt =====
-- A finalized charge (`finalizeChargeReservation` of src/services/chargeReservation.service.ts) cannot be
-- released.
use fiberpassbackend.Prelude.{
  ℕ, ◌≡◌, refl, sym, ap, ◌∙◌, Bool, true, ◌&&◌, ==_iff, Option, some, List, [], ◌∷◌, arith, ok, err,
  >>=-eq-ok, require-bind, subst, Bool-cases, inl, inr,
}
use fiberpassbackend.Prelude.Store.{find_where, update_where, keep_first-eq-some}
use fiberpassbackend.Charges.Records.{
  Attempt, ChargeAttemptStatus, ChargeReserveStatus, ChargeDb, ChargeError, ReceiptSourceType,
  PaymentReceipt,
}
use fiberpassbackend.Charges.Receipts.{create_direct_charge_receipt}
use fiberpassbackend.Charges.Reservation.{updated}
use fiberpassbackend.Charges.Execution.{is_reserved}
use fiberpassbackend.Charges.Settlement.{
  amount_of, has_id, can_unreserve, can_unreserve_day, debit, debit_day, succeed_attempt,
  save_attempt, given, settle_funding, debit_attempt, finalize_attempt, replay_finalized,
  finalize_charge_reservation, release_attempt, release_charge_reservation, is_done,
  provider_succeeded, receipt_owner,
}
use fiberpassbackend.Charges.Preservation.{given-eq-ok, same-ok, updated-eq-ok, find_where-passes}
use fiberpassbackend.Charges.Finalization.{OnlyReceipts, direct-OnlyReceipts}

-- A document that still passes the filter after its update is the one that a lookup finds.
find_where-update :
    {A : Type 0} (p : A → Bool) (f : A → A) (l : List A) {a b : A} {l' : List A}
    → find_where p l ≡ some a
    → p (f a) ≡ true
    → update_where p f l ≡ some (b, l')
    → find_where p l' ≡ some (f a)
find_where-update p f [] h k e = cc
find_where-update p f (c ∷ l) {a} {b} {l'} h k e = elim (Bool-cases (p c)) [
  | inl yes_first ↦
      let same : c ≡ a = ground arith in
      let rest : l' ≡ f c ∷ l = ground arith in
      subst (λ m. find_where p m ≡ some (f a)) (sym (rest ∙ ap (λ x. f x ∷ l) same)) (rw k)
  | inr not_first ↦
      let s = keep_first-eq-some c (update_where p f l) {b = b} {l' = l'} (ground arith) in
      let inner = find_where-update p f l {a = a} {b = b} {l' = s.0} (ground arith) k s.1 in
      subst (λ m. find_where p m ≡ some (f a)) (sym s.2) (rw (not_first, inner))
]

-- The attempt with this id is succeeded and debited.
record Debited (id : ℕ) (db : ChargeDb) : Type 0 where
  attempt : Attempt
  found : find_where (has_id id) db.attempts ≡ some attempt
  status : attempt.status ≡ ChargeAttemptStatus.succeeded
  reserve_status : attempt.reserve_status ≡ ChargeReserveStatus.debited

save-Debited :
    (id now : ℕ) (a : Attempt) (db : ChargeDb) {r : Attempt × ChargeDb}
    → find_where (has_id id) db.attempts ≡ some a
    → save_attempt (succeed_attempt now) a db ≡ ok r
    → Debited id r.1
save-Debited id now a db {r} f h =
    let same = (==_iff a.attempt_id id).0 (find_where-passes (has_id id) db.attempts f) in
    let ((b, l), hu, h1) =
      >>=-eq-ok
        (updated (update_where (has_id a.attempt_id) (succeed_attempt now) db.attempts)
          ChargeError.attempt_not_found)
        _ h in
    let u : update_where (has_id id) (succeed_attempt now) db.attempts ≡ some (b, l) =
      subst (λ k. update_where (has_id k) (succeed_attempt now) db.attempts ≡ some (b, l)) same
        (updated-eq-ok _ ChargeError.attempt_not_found hu) in
    subst (λ (x : Attempt × ChargeDb). Debited id x.1) (same-ok h1)
      (record {
        attempt = succeed_attempt now a;
        found =
            find_where-update (has_id id) (succeed_attempt now) db.attempts f
              ((==_iff a.attempt_id id).1 same) u;
        status = refl;
        reserve_status = refl;
      })

OnlyReceipts-Debited :
    (id : ℕ) (db db' : ChargeDb) → OnlyReceipts db db' → Debited id db → Debited id db'
OnlyReceipts-Debited id db db' o d = record {
  attempt = d.attempt;
  found = ap (find_where (has_id id)) o.2 ∙ d.found;
  status = d.status;
  reserve_status = d.reserve_status;
}

done-lem :
    (a : Attempt)
    → is_done a ≡ true
    → (a.status ≡ ChargeAttemptStatus.succeeded) × (a.reserve_status ≡ ChargeReserveStatus.debited)
done-lem a h = ground arith

release-Debited :
    (id code later : ℕ) (db : ChargeDb)
    → Debited id db
    → release_charge_reservation id code later db ≡ err ChargeError.not_releasable
unfolding release_charge_reservation release_attempt
release-Debited id code later db d = ground (arith, d.found, d.status, d.reserve_status)

module _ (receipt_id_for : ReceiptSourceType → ℕ → ℕ) (hash_receipt : PaymentReceipt → ℕ) where
  debit_attempt-Debited :
      (id now : ℕ) (a : Attempt) (db : ChargeDb) {r : Attempt × ℕ × ChargeDb}
      → find_where (has_id id) db.attempts ≡ some a
      → debit_attempt receipt_id_for hash_receipt a now db ≡ ok r
      → Debited id r.2
  unfolding debit_attempt
  debit_attempt-Debited id now a db {r} f h =
      let (day, hd, h2) = >>=-eq-ok (given a.reservation_day ChargeError.not_ready) _ h in
      let ((s, sessions), hs, h3) =
        >>=-eq-ok
          (updated (update_where (can_unreserve a.session_id (amount_of a)) (debit a) db.sessions)
            ChargeError.counters_inconsistent)
          _ h2 in
      let ((c, counters), hc, h4) =
        >>=-eq-ok
          (updated
            (update_where (can_unreserve_day a.session_id day (amount_of a))
              (debit_day (amount_of a)) db.counters)
            ChargeError.counters_inconsistent)
          _ h3 in
      let (funding, _, h5) =
        >>=-eq-ok (settle_funding a.session_id (amount_of a) now s.single_use db.funding) _ h4 in
      let ((b, db1), ha, h6) =
        >>=-eq-ok
          (save_attempt (succeed_attempt now) a
            (record db { sessions = sessions; counters = counters; funding = funding }))
          _ h5 in
      subst (Debited id) (ap (λ (x : Attempt × ℕ × ChargeDb). x.2) (same-ok h6)) (
        save-Debited id now a
          (record db { sessions = sessions; counters = counters; funding = funding }) f ha)

  finalize-Debited :
      (id now : ℕ) (db : ChargeDb) {r : Attempt × Option ℕ × ChargeDb}
      → finalize_charge_reservation receipt_id_for hash_receipt id now db ≡ ok r
      → Debited id r.2
  unfolding finalize_charge_reservation finalize_attempt replay_finalized
  finalize-Debited id now db {r} h =
      let (a, ha, h1) =
        >>=-eq-ok (given (find_where (has_id id) db.attempts) ChargeError.attempt_not_found) _ h in
      let f = given-eq-ok _ ChargeError.attempt_not_found ha in
      elim (Bool-cases (is_done a)) [
        | inl yes_done ↦
            let (owner, _, h2) =
              >>=-eq-ok (given (receipt_owner a db) ChargeError.owner_missing) _
                (rw yes_done at h1) in
            let ((n, db2), hr, h3) =
              >>=-eq-ok (create_direct_charge_receipt receipt_id_for hash_receipt a owner now db) _
                h2 in
            let d = done-lem a yes_done in
            subst (λ (x : Attempt × Option ℕ × ChargeDb). Debited id x.2) (same-ok h3)
              (OnlyReceipts-Debited id db db2
                (direct-OnlyReceipts receipt_id_for hash_receipt a owner now db hr)
                (record { attempt = a; found = f; status = d.0; reserve_status = d.1 }))
        | inr not_done ↦
            let (ready, h2) =
              require-bind (provider_succeeded a.provider_status && is_reserved a.reserve_status)
                ChargeError.not_ready _ (rw not_done at h1) in
            let ((b, owner, db1), hd, h3) =
              >>=-eq-ok (debit_attempt receipt_id_for hash_receipt a now db) _ h2 in
            let ((n, db2), hr, h4) =
              >>=-eq-ok (create_direct_charge_receipt receipt_id_for hash_receipt b owner now db1) _
                h3 in
            subst (λ (x : Attempt × Option ℕ × ChargeDb). Debited id x.2) (same-ok h4)
              (OnlyReceipts-Debited id db1 db2
                (direct-OnlyReceipts receipt_id_for hash_receipt b owner now db1 hr)
                (debit_attempt-Debited id now a db f hd))
      ]

  -- When a charge has been finalized, for the first time or again, releasing its reservation throws: its
  -- amount is not given back.
  pub finalize-release :
      (id now code later : ℕ) (db : ChargeDb) {r : Attempt × Option ℕ × ChargeDb}
      → finalize_charge_reservation receipt_id_for hash_receipt id now db ≡ ok r
      → release_charge_reservation id code later r.2 ≡ err ChargeError.not_releasable
  finalize-release id now code later db {r} h =
      release-Debited id code later r.2 (finalize-Debited id now db h)
