-- ===== src/Lifecycle.antt =====
-- src/modules/infra/infraLifecycleService.ts: what happens to the money of collections and payouts. The
-- children define the rows and the calls, and prove.
pub mod Types
pub mod Keys
pub mod Payout
pub mod Funding
pub mod Collection
pub mod YellowCard
pub mod Webhook
