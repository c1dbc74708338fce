-- ===== src/Transfers.antt =====
-- src/modules/infra/infraInternalTransferService.ts, for transfers settled by the ledger alone, with the
-- record of their fee from infraFeeService.ts.
pub mod Types
pub mod Recipient
pub mod Record
pub mod Create
pub mod Keeps
pub mod Fees
pub mod Recorded
pub mod Retry
pub mod Reused
pub mod Money
mod Tests
