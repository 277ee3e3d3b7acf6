-- ===== src/Workers/Webhooks.antt =====
-- The delivery of webhooks (src/services/webhook.service.ts): backoff, claim, one delivery and the worker
-- loop. The app's secret, the resolution of the destination and the HTTPS request are parameters.
use fiberpassbackend.Prelude.{
  ℕ, zero, suc, ◌+◌, ◌-◌, ◌*◌, ◌^◌, min, max, Bool, true, false, ◌&&◌, ◌||◌, Option, none, some,
  List, [], ◌∷◌, ◌==◌, leb, ltb, if◌then◌else◌, Outcome, ok, err, ◌>>=◌, ◌>>◌, require,
}
use fiberpassbackend.Prelude.Store.{update_where}
use fiberpassbackend.Charges.Receipts.{or_else}

pub data WebhookDeliveryStatus : Type 0 where
  queued delivering succeeded retrying failed cancelled : WebhookDeliveryStatus

pub record WebhookDeliveryRecord : Type 0 where
  pub delivery_id : ℕ
  pub owner_wallet_id : ℕ
  pub app_id : ℕ
  pub event_type : ℕ
  pub target_id : ℕ
  pub url : ℕ
  pub status : WebhookDeliveryStatus
  pub attempts : ℕ
  pub max_attempts : ℕ
  pub run_after : ℕ
  pub locked_at : Option ℕ
  pub locked_by : Option ℕ
  pub delivered_at : Option ℕ
  pub failed_at : Option ℕ
  pub response_status : Option ℕ
  pub last_failure_code : Option ℕ

pub record WebhookDeliveryFailure : Type 0 where
  pub code : ℕ
  pub retryable : Bool
  pub response_status : Option ℕ

-- Numbers of the failure codes that this service gives.
abbrev secret_unavailable : ℕ
secret_unavailable = 1

abbrev redirect_forbidden : ℕ
redirect_forbidden = 2

abbrev http_error : ℕ
http_error = 3

unfoldable pub webhook_backoff_ms : (attempts : ℕ) → ℕ
webhook_backoff_ms attempts = min 120000 (2000 * 2 ^ (max 1 (min 7 attempts) - 1))

unfoldable pub webhook_http_failure : (status : ℕ) → Option WebhookDeliveryFailure
webhook_http_failure status =
    if leb 200 status && ltb status 300
    then none
    else if leb 300 status && ltb status 400
    then some
        (record { code = redirect_forbidden; retryable = false; response_status = some status })
    else some (record {
      code = http_error;
      retryable = status == 408 || status == 425 || status == 429 || leb 500 status;
      response_status = some status;
    })

abbrev pub is_waiting : WebhookDeliveryStatus → Bool
is_waiting WebhookDeliveryStatus.queued = true
is_waiting WebhookDeliveryStatus.retrying = true
is_waiting _ = false

abbrev pub is_claimable : ℕ → WebhookDeliveryRecord → Bool
is_claimable now d = is_waiting d.status && leb d.run_after now

-- The sort of the query: the smallest `runAfter`, of these the first created. Documents stand in the
-- order of their creation.
abbrev earlier : WebhookDeliveryRecord → Option WebhookDeliveryRecord → Option WebhookDeliveryRecord
earlier d none = some d
earlier d (some e) = if ltb e.run_after d.run_after then some e else some d

unfoldable pub first_claimable : ℕ → List WebhookDeliveryRecord → Option WebhookDeliveryRecord
first_claimable now [] = none
first_claimable now (d ∷ l) =
    let rest = first_claimable now l in if is_claimable now d then earlier d rest else rest

abbrev pub has_id : ℕ → WebhookDeliveryRecord → Bool
has_id id d = d.delivery_id == id

abbrev pub claim : (worker now : ℕ) → WebhookDeliveryRecord → WebhookDeliveryRecord
claim worker now d = record d {
  status = WebhookDeliveryStatus.delivering;
  locked_at = some now;
  locked_by = some worker;
  attempts = d.attempts + 1;
}

abbrev pub is_this_claimable : ℕ → ℕ → WebhookDeliveryRecord → Bool
is_this_claimable id now d = has_id id d && is_claimable now d

unfoldable pub claim_found :
    Option WebhookDeliveryRecord
    → (worker now : ℕ) → List WebhookDeliveryRecord
    → Option (WebhookDeliveryRecord × List WebhookDeliveryRecord)
claim_found none worker now l = none
claim_found (some d) worker now l =
    update_where (is_this_claimable d.delivery_id now) (claim worker now) l

unfoldable pub claim_next_webhook_delivery :
    (worker now : ℕ)
    → List WebhookDeliveryRecord
    → Option (WebhookDeliveryRecord × List WebhookDeliveryRecord)
unfolding first_claimable claim_found
claim_next_webhook_delivery worker now l = claim_found (first_claimable now l) worker now l

-- What a delivery meets: the secret of the app, the resolution of the destination, and the status of the
-- response.
pub record Transport : Type 0 where
  pub has_secret : WebhookDeliveryRecord → Bool
  pub resolve : WebhookDeliveryRecord → Outcome WebhookDeliveryFailure (Unit {0})
  pub post : WebhookDeliveryRecord → Outcome WebhookDeliveryFailure ℕ

-- The failure of a response, which it had stored before it threw.
abbrev checked : Option WebhookDeliveryFailure → ℕ → Outcome WebhookDeliveryFailure ℕ
checked none status = ok status
checked (some f) status = err f

unfoldable pub send : Transport → WebhookDeliveryRecord → Outcome WebhookDeliveryFailure ℕ
unfolding webhook_http_failure
send t d = do
  require (t.has_secret d)
      (record { code = secret_unavailable; retryable = false; response_status = none })
  t.resolve d
  status ← t.post d
  checked (webhook_http_failure status) status

pub data DeliveryOutcome : Type 0 where
  succeeded failed retried : DeliveryOutcome

abbrev pub delivered : (status now : ℕ) → WebhookDeliveryRecord → WebhookDeliveryRecord
delivered status now d = record d {
  response_status = some status;
  status = WebhookDeliveryStatus.succeeded;
  delivered_at = some now;
  last_failure_code = none;
  locked_at = none;
  locked_by = none;
}

abbrev or_keep : Option ℕ → Option ℕ → Option ℕ
or_keep none b = b
or_keep (some a) b = some a

abbrev unlocked : WebhookDeliveryFailure → WebhookDeliveryRecord → WebhookDeliveryRecord
unlocked f d = record d {
  last_failure_code = some f.code;
  response_status = or_keep f.response_status d.response_status;
  locked_at = none;
  locked_by = none;
}

abbrev pub can_retry : WebhookDeliveryFailure → WebhookDeliveryRecord → Bool
can_retry f d = f.retryable && ltb d.attempts d.max_attempts

-- The delivery after sending, with the outcome.
unfoldable pub finish :
    Outcome WebhookDeliveryFailure ℕ
    → (now : ℕ) → WebhookDeliveryRecord
    → DeliveryOutcome × WebhookDeliveryRecord
unfolding webhook_backoff_ms
finish (ok status) now d = (DeliveryOutcome.succeeded, delivered status now d)
finish (err f) now d =
    if can_retry f d
    then (
      DeliveryOutcome.retried,
      record (unlocked f d) {
        status = WebhookDeliveryStatus.retrying;
        run_after = now + webhook_backoff_ms d.attempts;
      },
    )
    else (
      DeliveryOutcome.failed,
      record (unlocked f d) { status = WebhookDeliveryStatus.failed; failed_at = some now },
    )

abbrev pub saved :
    Option (WebhookDeliveryRecord × List WebhookDeliveryRecord)
    → List WebhookDeliveryRecord
    → List WebhookDeliveryRecord
saved none l = l
saved (some (d, l')) l = l'

-- `delivery.save()` writes the document with the delivery's id.
unfoldable pub deliver_webhook :
    Transport
    → (now : ℕ) → WebhookDeliveryRecord
    → List WebhookDeliveryRecord
    → DeliveryOutcome × List WebhookDeliveryRecord
unfolding send finish
deliver_webhook t now d l =
    let (outcome, d') = finish (send t d) now d in
    (outcome, saved (update_where (has_id d.delivery_id) (λ x. d') l) l)

pub record WebhookWorkerRunResult : Type 0 where
  pub processed : ℕ
  pub succeeded : ℕ
  pub failed : ℕ
  pub retried : ℕ

abbrev count_in : DeliveryOutcome → WebhookWorkerRunResult → WebhookWorkerRunResult
count_in DeliveryOutcome.succeeded r = record r { succeeded = r.succeeded + 1 }
count_in DeliveryOutcome.failed r = record r { failed = r.failed + 1 }
count_in DeliveryOutcome.retried r = record r { retried = r.retried + 1 }

abbrev pub counted : DeliveryOutcome → WebhookWorkerRunResult → WebhookWorkerRunResult
counted o r = count_in o (record r { processed = r.processed + 1 })

-- One round of the loop: what was claimed is delivered.
unfoldable pub round :
    Option (WebhookDeliveryRecord × List WebhookDeliveryRecord)
    → Transport
    → (now : ℕ) → List WebhookDeliveryRecord
    → Option (DeliveryOutcome × List WebhookDeliveryRecord)
unfolding deliver_webhook
round none t now l = none
round (some (d, l')) t now l = some (deliver_webhook t now d l')

abbrev pub continued :
    Option (DeliveryOutcome × List WebhookDeliveryRecord)
    → WebhookWorkerRunResult × List WebhookDeliveryRecord
    → (DeliveryOutcome
        → List WebhookDeliveryRecord
        → WebhookWorkerRunResult × List WebhookDeliveryRecord)
    → WebhookWorkerRunResult × List WebhookDeliveryRecord
continued none r next = r
continued (some (o, l)) r next = next o l

unfoldable pub run_rounds :
    (left : ℕ)
    → Transport
    → (worker now : ℕ) → WebhookWorkerRunResult
    → List WebhookDeliveryRecord
    → WebhookWorkerRunResult × List WebhookDeliveryRecord
unfolding claim_next_webhook_delivery round
run_rounds zero t worker now r l = (r, l)
run_rounds (suc left) t worker now r l =
    continued (round (claim_next_webhook_delivery worker now l) t now l) (r, l)
      (λ o l'. run_rounds left t worker now (counted o r) l')

-- Between 1 and 100 rounds, 10 by default.
unfoldable pub run_webhook_worker_once :
    Transport
    → (limit : Option ℕ) → (worker now : ℕ) → List WebhookDeliveryRecord
    → WebhookWorkerRunResult × List WebhookDeliveryRecord
unfolding run_rounds
run_webhook_worker_once t limit worker now l =
    run_rounds (max 1 (min 100 (or_else limit 10))) t worker now
      (record { processed = 0; succeeded = 0; failed = 0; retried = 0 }) l
