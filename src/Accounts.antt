-- ===== src/Accounts.antt =====
-- The accounts module (src/accounts): one-time codes and tokens.
pub mod OneTime
mod Examples
