-- ===== src/Promo.antt =====
-- The promo module (src/promo): discount codes.
pub mod Codes
mod Examples
