-- ===== src/Funding.antt =====
-- Funding sources and allocations (src/domain/funding.ts, src/services/fundingSource.service.ts and
-- the documents of src/models/fundingSource.model.ts).
pub mod Domain
pub mod Records
pub mod Sources
pub mod Allocations
pub mod Selection
pub mod Refresh
pub mod Balance
pub mod Operations
pub mod Preservation
pub mod Opening
pub mod History
pub mod Release
mod Tests
