-- ===== src/Schedules.antt =====
-- Payment schedules (src/domain/schedule.ts, src/models/schedule.model.ts and
-- src/services/paymentSchedule.service.ts): the occurrences of a schedule reserve in the pass, and are
-- settled, retried or blocked.
pub mod Records
pub mod Calendar
pub mod Budget
pub mod Success
pub mod Execution
pub mod Balance
pub mod History
pub mod Steps
pub mod Operations
mod Tests
