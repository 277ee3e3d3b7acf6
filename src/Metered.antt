-- ===== src/Metered.antt =====
-- Metered payments (src/domain/meteredPayment.ts, src/models/meteredPayment.model.ts,
-- src/services/meteredPayment.service.ts and src/services/meteredPaymentWorker.service.ts): an app
-- reports usage events against a grant of a pass, the events are collected in batches, and a worker
-- settles the batches.
pub mod Records
pub mod Amounts
pub mod Usage
pub mod Batches
pub mod Acceptance
pub mod Release
pub mod Finalization
pub mod Worker
pub mod Linked
pub mod Placement
pub mod Balance
pub mod Accepted
pub mod Preservation
pub mod Settled
pub mod Steps
pub mod Run
pub mod Grants
pub mod Granted
pub mod History
pub mod Operations
pub mod Repeat
pub mod Bounds
pub mod Final
pub mod Counts
pub mod Tallies
pub mod Totals
pub mod Submission
mod Tests
