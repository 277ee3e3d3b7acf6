-- ===== src/Charges.antt =====
-- Charge reservations (src/services/chargeReservation.service.ts, the documents of
-- src/models/chargeAttempt.model.ts and src/models/chargeDailyCounter.model.ts, and the receipt that
-- src/services/receipt.service.ts creates).
pub mod Records
pub mod Receipts
pub mod Reservation
pub mod Execution
pub mod Settlement
pub mod Balance
pub mod Preservation
pub mod Finalization
pub mod Opening
pub mod Repeat
pub mod Settled
pub mod History
mod Tests
