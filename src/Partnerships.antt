-- ===== src/Partnerships.antt =====
-- The partnerships module (src/partnerships): referrals.
pub mod Referrals
pub mod Payouts
mod Examples
