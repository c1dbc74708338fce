-- ===== src/Bulk.antt =====
-- src/modules/infra/infraBulkService.ts: batches of payouts, and the CSV files that they are read from.
pub mod Csv
pub mod Batch
pub mod Quote
pub mod Preflight
pub mod Confirm
pub mod Final
pub mod Refresh
pub mod Ready
pub mod Tests
