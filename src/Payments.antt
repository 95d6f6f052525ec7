-- ===== src/Payments.antt =====
-- PaymentsService (src/wallet/payments.service.ts): top-ups, saved cards and withdrawals over the
-- wallet's ledger.
pub mod Store
pub mod TopUps
pub mod Cards
pub mod Withdrawals
pub mod Settlement
pub mod Steps
pub mod Credits
pub mod Closed
pub mod Webhooks
mod Examples
