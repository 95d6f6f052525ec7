-- ===== src/Pricing.antt =====
-- The pricing module (src/pricing): tariffs, commission rules and fares.
pub mod Tariffs
pub mod Admin
pub mod Fares
pub mod Specific
pub mod Choice
pub mod Unique
pub mod Cache
mod Examples
