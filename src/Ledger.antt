-- ===== src/Ledger.antt =====
-- src/modules/infra/infraLedgerService.ts: wallets, movements and the operations that post them. The
-- children define the rows, the queries and the operations; their own children prove.
pub mod Types
pub mod Store
pub mod Write
pub mod Transfer
pub mod Fee
pub mod History
pub mod Balance
mod Tests
mod TransferTests
