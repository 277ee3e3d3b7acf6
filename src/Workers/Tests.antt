-- ===== src/Workers/Tests.antt =====
-- A lease that is acquired, and webhooks that are delivered (src/services/workerRuntime.service.ts,
-- src/services/webhook.service.ts).
use fiberpassbackend.Prelude.{◌≡◌, ◌≤◌, ◌+◌, refl, true, false, none, List, [], ◌∷◌, arith, ok}
use fiberpassbackend.Prelude.Store.{total}
use fiberpassbackend.Workers.Leases.{AcquireInput, acquire_worker_lease, upsert, new_lease}
use fiberpassbackend.Workers.Exclusion.{Step, perform_all, acquire_worker_lease-excludes}
use fiberpassbackend.Workers.Webhooks.{
  WebhookDeliveryStatus, WebhookDeliveryRecord, webhook_backoff_ms, Transport,
  run_webhook_worker_once,
}
use fiberpassbackend.Workers.Attempts.{
  overrun, webhook_backoff_ms-bounds, run_webhook_worker_once-bounded,
}

abbrev first : AcquireInput
first = record { lease_key = 1; owner_id = 5; ttl_ms = 30000; now = 1000 }

abbrev rival : AcquireInput
rival = record { lease_key = 1; owner_id = 6; ttl_ms = 30000; now = 20000 }

was_acquired : acquire_worker_lease first [] ≡ (true, new_lease first ∷ [])
unfolding acquire_worker_lease upsert
was_acquired = refl

acquire_worker_lease-excludes_example :
    (acquire_worker_lease rival (
      perform_all
        (Step.acquired rival
          ∷ Step.released 1 6
          ∷ Step.acquired (record rival { lease_key = 2 })
          ∷ [])
        (new_lease first ∷ []))).0
    ≡ false
acquire_worker_lease-excludes_example =
    acquire_worker_lease-excludes first rival [] (new_lease first ∷ [])
      (Step.acquired rival
        ∷ Step.released 1 6
        ∷ Step.acquired (record rival { lease_key = 2 })
        ∷ [])
      (omega arith) was_acquired refl refl refl (omega arith)

abbrev delivery : WebhookDeliveryRecord
delivery = record {
  delivery_id = 1;
  owner_wallet_id = 2;
  app_id = 3;
  event_type = 4;
  target_id = 5;
  url = 6;
  status = WebhookDeliveryStatus.queued;
  attempts = 0;
  max_attempts = 5;
  run_after = 100;
  locked_at = none;
  locked_by = none;
  delivered_at = none;
  failed_at = none;
  response_status = none;
  last_failure_code = none;
}

-- An endpoint that is not available for now.
abbrev transport : Transport
transport = record { has_secret = λ d. true; resolve = λ d. ok tt; post = λ d. ok 503 }

webhook_backoff_ms-bounds_example :
    (2000 ≤ webhook_backoff_ms 3)
    × (webhook_backoff_ms 3 ≤ 120000)
    × (webhook_backoff_ms 3 ≤ webhook_backoff_ms (3 + 2))
webhook_backoff_ms-bounds_example = webhook_backoff_ms-bounds 3 2

abbrev after_run : List WebhookDeliveryRecord
after_run = (run_webhook_worker_once transport none 9 200 (delivery ∷ [])).1

run_webhook_worker_once-bounded_example :
    (total overrun after_run ≡ 0)
    × ((run_webhook_worker_once transport none 9 200 (delivery ∷ [])).0.processed ≤ 100)
    × ((run_webhook_worker_once transport none 9 200 (delivery ∷ [])).0.processed
        ≡ (run_webhook_worker_once transport none 9 200 (delivery ∷ [])).0.succeeded
          + (run_webhook_worker_once transport none 9 200 (delivery ∷ [])).0.failed
          + (run_webhook_worker_once transport none 9 200 (delivery ∷ [])).0.retried)
run_webhook_worker_once-bounded_example =
    run_webhook_worker_once-bounded transport none 9 200 (delivery ∷ []) refl
