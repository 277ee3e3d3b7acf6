-- ===== src/Charges/History.antt =====
-- Any operation of src/services/chargeReservation.service.ts, and any sequence of them.
use fiberpassbackend.Prelude.{
  ℕ, ◌≡◌, refl, Bool, Option, none, some, List, arith, Outcome, ok, err, subst,
}
use fiberpassbackend.Prelude.Store.{update_where, update_where-eq-some}
use fiberpassbackend.Charges.Records.{
  Attempt, Session, ChargeDb, ChargeError, ReceiptSourceType, PaymentReceipt,
}
use fiberpassbackend.Charges.Reservation.{ReserveChargeAttemptInput, reserve_charge_attempt}
use fiberpassbackend.Charges.Execution.{
  find_one_and_update, apply_update, claim_charge_execution, mark_charge_provider_submitted,
  set_charge_provider_correlation, ProviderChargeResult, mark_charge_provider_succeeded,
  mark_charge_outcome_uncertain,
}
use fiberpassbackend.Charges.Settlement.{release_charge_reservation, finalize_charge_reservation}
use fiberpassbackend.Charges.Balance.{Agreed, held, held_day}
use fiberpassbackend.Charges.Preservation.{release_charge_reservation-Agreed}
use fiberpassbackend.Charges.Finalization.{finalize_charge_reservation-Agreed}
use fiberpassbackend.Charges.Opening.{reserve_charge_attempt-Agreed}

pub data Operation : Type 0 where
  reserve : ReserveChargeAttemptInput → (created_at : ℕ) → Operation
  claim : (attempt_id lease now : ℕ) → Operation
  submit : (attempt_id lease now : ℕ) → Operation
  correlate : (attempt_id lease correlation : ℕ) → Option ℕ → Operation
  succeed : (attempt_id : ℕ) → ProviderChargeResult → (now : ℕ) → Operation
  doubt : (attempt_id failure_code : ℕ) → Operation
  release : (attempt_id failure_code now : ℕ) → Operation
  finalize : (attempt_id now : ℕ) → Operation

-- A change of an attempt that leaves its reservation alone.
abbrev Leaves : (Attempt → Attempt) → Type 0
Leaves change =
    (a : Attempt)
    → ((i : ℕ) → held i (change a) ≡ held i a)
      × ((i d : ℕ) → held_day i d (change a) ≡ held_day i d a)

update-Agreed :
    (filter : Attempt → Bool) (change : Attempt → Attempt) (o : Option (Attempt × List Attempt))
    (db : ChargeDb)
    → Leaves change
    → update_where filter change db.attempts ≡ o
    → Agreed db
    → Agreed (apply_update o db).1
update-Agreed filter change none db k e g = g
update-Agreed filter change (some (a, l)) db k e g =
    let u = update_where-eq-some filter change db.attempts {b = a} {l' = l} e in
    record {
      per_session = λ i. omega (arith, u.sums (held i), (k u.before).0 i, g.per_session i);
      per_day = λ i d. omega (arith, u.sums (held_day i d), (k u.before).1 i d, g.per_day i d);
      limited = g.limited;
    }

find_one_and_update-Agreed :
    (filter : Attempt → Bool) (change : Attempt → Attempt) (db : ChargeDb)
    → Leaves change
    → Agreed db
    → Agreed (find_one_and_update filter change db).1
unfolding find_one_and_update
find_one_and_update-Agreed filter change db k g =
    update-Agreed filter change (update_where filter change db.attempts) db k refl g

-- What is in the collections after a transaction.
abbrev after_transaction : ChargeDb → Outcome ChargeError ChargeDb → ChargeDb
after_transaction db (ok db') = db'
after_transaction db (err _) = db

abbrev second : {A : Type 0} → Outcome ChargeError (A × ChargeDb) → Outcome ChargeError ChargeDb
second (ok r) = ok r.1
second (err e) = err e

abbrev third :
    {A B : Type 0} → Outcome ChargeError (A × B × ChargeDb) → Outcome ChargeError ChargeDb
third (ok r) = ok r.2
third (err e) = err e

after-Agreed :
    (db : ChargeDb) (o : Outcome ChargeError ChargeDb)
    → Agreed db
    → ((x : ChargeDb) → o ≡ ok x → Agreed x)
    → Agreed (after_transaction db o)
after-Agreed db (ok x) g k = k x refl
after-Agreed db (err e) g k = g

second-eq-ok :
    {A : Type 0} (o : Outcome ChargeError (A × ChargeDb)) {db : ChargeDb}
    → second o ≡ ok db
    → (r : A × ChargeDb) × (o ≡ ok r) × (r.1 ≡ db)
second-eq-ok (ok r) h = (r, refl, cc)
second-eq-ok (err e) h = cc

third-eq-ok :
    {A B : Type 0} (o : Outcome ChargeError (A × B × ChargeDb)) {db : ChargeDb}
    → third o ≡ ok db
    → (r : A × B × ChargeDb) × (o ≡ ok r) × (r.2 ≡ db)
third-eq-ok (ok r) h = (r, refl, cc)
third-eq-ok (err e) h = cc

-- The hashes of a receipt and the caller's own filter on sessions.
module _ (receipt_id_for : ReceiptSourceType → ℕ → ℕ) (hash_receipt : PaymentReceipt → ℕ)
    (session_match : Session → Bool) where
  unfoldable pub perform : Operation → ChargeDb → ChargeDb
  perform (reserve input created_at) db =
      after_transaction db (second (reserve_charge_attempt session_match input created_at db))
  perform (claim attempt_id lease now) db = (claim_charge_execution attempt_id lease now db).1
  perform (submit attempt_id lease now) db =
      (mark_charge_provider_submitted attempt_id lease now db).1
  perform (correlate attempt_id lease correlation request_hash) db =
      (set_charge_provider_correlation attempt_id lease correlation request_hash db).1
  perform (succeed attempt_id result now) db =
      (mark_charge_provider_succeeded attempt_id result now db).1
  perform (doubt attempt_id failure_code) db =
      (mark_charge_outcome_uncertain attempt_id failure_code db).1
  perform (release attempt_id failure_code now) db =
      after_transaction db (release_charge_reservation attempt_id failure_code now db)
  perform (finalize attempt_id now) db =
      after_transaction db
        (third (finalize_charge_reservation receipt_id_for hash_receipt attempt_id now db))

  -- Whatever `Operation` is performed, and whether it succeeds or throws: if before it the amounts that
  -- every session and every daily counter hold in reserve are the amounts of the reserved attempts, and
  -- no session has spent and reserved more than its limit, the same holds after it.
  pub perform-Agreed : (o : Operation) (db : ChargeDb) → Agreed db → Agreed (perform o db)
  unfolding perform claim_charge_execution mark_charge_provider_submitted
      set_charge_provider_correlation mark_charge_provider_succeeded mark_charge_outcome_uncertain
  perform-Agreed (reserve input created_at) db g = after-Agreed db _ g (λ x e.
      let r = second-eq-ok (reserve_charge_attempt session_match input created_at db) e in
      subst Agreed r.2 (reserve_charge_attempt-Agreed session_match input created_at db r.1 g))
  perform-Agreed (claim attempt_id lease now) db g =
      find_one_and_update-Agreed _ _ db (λ a. (λ i. refl, λ i d. refl)) g
  perform-Agreed (submit attempt_id lease now) db g =
      find_one_and_update-Agreed _ _ db (λ a. (λ i. refl, λ i d. refl)) g
  perform-Agreed (correlate attempt_id lease correlation request_hash) db g =
      find_one_and_update-Agreed _ _ db (λ a. (λ i. refl, λ i d. refl)) g
  perform-Agreed (succeed attempt_id result now) db g =
      find_one_and_update-Agreed _ _ db (λ a. (λ i. refl, λ i d. refl)) g
  perform-Agreed (doubt attempt_id failure_code) db g =
      find_one_and_update-Agreed _ _ db (λ a. (λ i. refl, λ i d. refl)) g
  perform-Agreed (release attempt_id failure_code now) db g =
      after-Agreed db _ g
        (λ x e. release_charge_reservation-Agreed attempt_id failure_code now db e g)
  perform-Agreed (finalize attempt_id now) db g = after-Agreed db _ g (λ x e.
      let r =
        third-eq-ok (finalize_charge_reservation receipt_id_for hash_receipt attempt_id now db) e in
      subst Agreed r.2
        (finalize_charge_reservation-Agreed receipt_id_for hash_receipt attempt_id now db r.1 g))
