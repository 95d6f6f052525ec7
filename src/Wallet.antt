-- ===== src/Wallet.antt =====
-- The wallet module (src/wallet): the ledger, the postings and the services over it.
pub mod Ledger
pub mod Posting
pub mod Service
pub mod Effect
pub mod Posted
pub mod Outcome
pub mod Sound
pub mod Calls
pub mod Solvent
pub mod Fair
pub mod Lookup
pub mod Effects
pub mod Fares
pub mod Refunds
pub mod Cash
pub mod Invoices
pub mod Lifecycle
pub mod Verdicts
pub mod Affordable
pub mod Transactions
pub mod Guarded
pub mod History
pub mod Replays
pub mod Repeats
mod Examples
mod Samples
