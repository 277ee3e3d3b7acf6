-- ===== src/Workers/Attempts.antt =====
-- How often a webhook is tried (src/services/webhook.service.ts).
use fiberpassbackend.Prelude.{
  ℕ, zero, suc, ◌+◌, ◌-◌, ◌^◌, ◌≤◌, ◌≡◌, refl, subst, min, max, Option, none, some, List, arith,
  if◌then◌else◌, Bool-cases, inl, inr, Outcome, ok, err,
}
use native.Mathlib.Nat.{pow-le-pow_right}
use fiberpassbackend.Prelude.Store.{total, update_where, update_where-eq-some}
use fiberpassbackend.Prelude.Documents.{find-weight}
use fiberpassbackend.Charges.Receipts.{or_else}
use fiberpassbackend.Charges.Preservation.{same-some}
use fiberpassbackend.Workers.Webhooks.{
  WebhookDeliveryRecord, WebhookDeliveryFailure, webhook_backoff_ms, is_waiting, is_this_claimable,
  first_claimable, has_id, claim, claim_found, claim_next_webhook_delivery, Transport, send,
  DeliveryOutcome, can_retry, finish, saved, deliver_webhook, WebhookWorkerRunResult, counted,
  round, continued, run_rounds, run_webhook_worker_once,
}

-- The delay before another try is at least two seconds and at most two minutes, and does not fall as the
-- tries go on.
pub webhook_backoff_ms-bounds :
    (attempts more : ℕ)
    → (2000 ≤ webhook_backoff_ms attempts)
      × (webhook_backoff_ms attempts ≤ 120000)
      × (webhook_backoff_ms attempts ≤ webhook_backoff_ms (attempts + more))
unfolding webhook_backoff_ms
webhook_backoff_ms-bounds attempts more =
    let k = max 1 (min 7 attempts) - 1 in
    let k' = max 1 (min 7 (attempts + more)) - 1 in
    let power : 2 ^ 0 ≤ 2 ^ k =
      pow-le-pow_right {n = 2} (omega arith) {i = 0} {j = k} (omega arith) in
    let grows : 2 ^ k ≤ 2 ^ k' =
      pow-le-pow_right {n = 2} (omega arith) {i = k} {j = k'} (omega arith) in
    (omega (arith, power), omega arith, omega (arith, grows))

-- By how much a delivery has been tried too often: one that waits has a try left.
abbrev pub overrun : WebhookDeliveryRecord → ℕ
overrun d =
    if is_waiting d.status then d.attempts + 1 - d.max_attempts else d.attempts - d.max_attempts

-- A delivery that was claimed is not overrun after it was sent.
finish-overrun :
    (o : Outcome WebhookDeliveryFailure ℕ) (now : ℕ) (d : WebhookDeliveryRecord)
    → d.attempts ≤ d.max_attempts
    → overrun (finish o now d).1 ≡ 0
unfolding finish
finish-overrun (ok status) now d h = omega (arith, h)
finish-overrun (err f) now d h = elim (Bool-cases (can_retry f d)) [
  | inl yes_again ↦
      let below : d.attempts + 1 ≤ d.max_attempts = ground arith in
      rw yes_again (omega (arith, below))
  | inr not_again ↦ rw not_again (omega (arith, h))
]

saved-overrun :
    (id : ℕ) (d' : WebhookDeliveryRecord) (l : List WebhookDeliveryRecord)
    (o : Option (WebhookDeliveryRecord × List WebhookDeliveryRecord))
    → update_where (has_id id) (λ x. d') l ≡ o
    → overrun d' ≡ 0
    → total overrun l ≡ 0
    → total overrun (saved o l) ≡ 0
saved-overrun id d' l none e h z = z
saved-overrun id d' l (some (d, l')) e h z =
    let u = update_where-eq-some (has_id id) (λ x. d') l e in omega (arith, u.sums overrun, h, z)

claimed-overrun :
    (o : Option WebhookDeliveryRecord) (worker now : ℕ) (l l' : List WebhookDeliveryRecord)
    (d : WebhookDeliveryRecord)
    → claim_found o worker now l ≡ some (d, l')
    → total overrun l ≡ 0
    → (total overrun l' ≡ 0) × (d.attempts ≤ d.max_attempts)
unfolding claim_found
claimed-overrun none worker now l l' d e z = cc
claimed-overrun (some c) worker now l l' d e z =
    let p = is_this_claimable c.delivery_id now in
    let u = update_where-eq-some p (claim worker now) l e in
    let before : overrun u.before ≡ 0 = omega (arith, find-weight overrun p l u.first, z) in
    let room : u.before.attempts + 1 ≤ u.before.max_attempts = ground (arith, u.passes) in
    let after : overrun (claim worker now u.before) ≡ 0 = omega (arith, room) in
    (omega (arith, u.sums overrun, after, before, z), rw u.is_after room)

round-overrun :
    (c : Option (WebhookDeliveryRecord × List WebhookDeliveryRecord)) (t : Transport)
    (worker now : ℕ) (l : List WebhookDeliveryRecord)
    {r : DeliveryOutcome × List WebhookDeliveryRecord}
    → claim_next_webhook_delivery worker now l ≡ c
    → total overrun l ≡ 0
    → round c t now l ≡ some r
    → total overrun r.1 ≡ 0
unfolding round claim_next_webhook_delivery deliver_webhook
round-overrun none t worker now l e z h = cc
round-overrun (some (d, l')) t worker now l {r} e z h =
    let (after, fits) = claimed-overrun (first_claimable now l) worker now l l' d e z in
    let d' = (finish (send t d) now d).1 in
    subst (λ (x : DeliveryOutcome × List WebhookDeliveryRecord). total overrun x.1 ≡ 0)
      (same-some h)
      (saved-overrun d.delivery_id d' l' (update_where (has_id d.delivery_id) (λ x. d') l') refl
        (finish-overrun (send t d) now d fits) after)

-- What holds of a run that has counted `r` and has some rounds left.
record Run (left : ℕ) (r r' : WebhookWorkerRunResult) (l' : List WebhookDeliveryRecord)
    : Type 0 where
  bounded : total overrun l' ≡ 0
  agree :
      r'.processed + (r.succeeded + r.failed + r.retried)
      ≡ r.processed + (r'.succeeded + r'.failed + r'.retried)
  limit : r'.processed ≤ r.processed + left

counted-Run :
    (o : DeliveryOutcome) (left : ℕ) (r : WebhookWorkerRunResult) (l : List WebhookDeliveryRecord)
    (next : DeliveryOutcome
      → List WebhookDeliveryRecord
      → WebhookWorkerRunResult × List WebhookDeliveryRecord)
    → total overrun l ≡ 0
    → ((o : DeliveryOutcome) (l' : List WebhookDeliveryRecord)
        → total overrun l' ≡ 0
        → Run left (counted o r) (next o l').0 (next o l').1)
    → Run (suc left) r (next o l).0 (next o l).1
counted-Run DeliveryOutcome.succeeded left r l next z n =
    let k = n DeliveryOutcome.succeeded l z in
    record { bounded = k.bounded; agree = omega (arith, k.agree); limit = omega (arith, k.limit) }
counted-Run DeliveryOutcome.failed left r l next z n =
    let k = n DeliveryOutcome.failed l z in
    record { bounded = k.bounded; agree = omega (arith, k.agree); limit = omega (arith, k.limit) }
counted-Run DeliveryOutcome.retried left r l next z n =
    let k = n DeliveryOutcome.retried l z in
    record { bounded = k.bounded; agree = omega (arith, k.agree); limit = omega (arith, k.limit) }

continued-Run :
    (c : Option (DeliveryOutcome × List WebhookDeliveryRecord)) (left : ℕ)
    (r : WebhookWorkerRunResult) (l : List WebhookDeliveryRecord)
    (next : DeliveryOutcome
      → List WebhookDeliveryRecord
      → WebhookWorkerRunResult × List WebhookDeliveryRecord)
    → ((x : DeliveryOutcome × List WebhookDeliveryRecord) → c ≡ some x → total overrun x.1 ≡ 0)
    → total overrun l ≡ 0
    → ((o : DeliveryOutcome) (l' : List WebhookDeliveryRecord)
        → total overrun l' ≡ 0
        → Run left (counted o r) (next o l').0 (next o l').1)
    → Run (suc left) r (continued c (r, l) next).0 (continued c (r, l) next).1
continued-Run none left r l next k z n = record { bounded = z; agree = refl; limit = omega arith }
continued-Run (some (o, m)) left r l next k z n = counted-Run o left r m next (k (o, m) refl) n

run_rounds-Run :
    (left : ℕ) (t : Transport) (worker now : ℕ) (r : WebhookWorkerRunResult)
    (l : List WebhookDeliveryRecord)
    → total overrun l ≡ 0
    → Run left r (run_rounds left t worker now r l).0 (run_rounds left t worker now r l).1
unfolding run_rounds
run_rounds-Run zero t worker now r l z = record { bounded = z; agree = refl; limit = omega arith }
run_rounds-Run (suc left) t worker now r l z =
    continued-Run (round (claim_next_webhook_delivery worker now l) t now l) left r l
      (λ o l'. run_rounds left t worker now (counted o r) l')
      (λ x e. round-overrun (claim_next_webhook_delivery worker now l) t worker now l refl z e) z
      (λ o l' z'. run_rounds-Run left t worker now (counted o r) l' z')

-- Whatever the endpoints answer: when no delivery was tried more often than its maximum, and every one
-- that waits has a try left, the same holds after a run of the worker, and the run has processed at most
-- a hundred deliveries, each of which has succeeded, has failed or is to be tried again.
pub run_webhook_worker_once-bounded :
    (t : Transport) (limit : Option ℕ) (worker now : ℕ) (l : List WebhookDeliveryRecord)
    → total overrun l ≡ 0
    → (total overrun (run_webhook_worker_once t limit worker now l).1 ≡ 0)
      × ((run_webhook_worker_once t limit worker now l).0.processed ≤ 100)
      × ((run_webhook_worker_once t limit worker now l).0.processed
          ≡ (run_webhook_worker_once t limit worker now l).0.succeeded
            + (run_webhook_worker_once t limit worker now l).0.failed
            + (run_webhook_worker_once t limit worker now l).0.retried)
unfolding run_webhook_worker_once
run_webhook_worker_once-bounded t limit worker now l z =
    let k =
      run_rounds-Run (max 1 (min 100 (or_else limit 10))) t worker now
        (record { processed = 0; succeeded = 0; failed = 0; retried = 0 }) l z in
    (k.bounded, omega (arith, k.limit), omega (arith, k.agree))
