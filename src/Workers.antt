-- ===== src/Workers.antt =====
-- The workers' common services: leases (src/services/workerRuntime.service.ts, src/models/workerLease.model.ts)
-- and the delivery of webhooks (src/services/webhook.service.ts, src/models/webhookDelivery.model.ts).
pub mod Leases
pub mod Exclusion
pub mod Webhooks
pub mod Attempts
mod Tests
