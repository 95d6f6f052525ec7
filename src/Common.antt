-- ===== src/Common.antt =====
-- What all routes share (src/common).
pub mod Idempotency
pub mod Pages
pub mod Csv
mod Examples
