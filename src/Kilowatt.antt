-- ===== src/Kilowatt.antt =====
-- The kilowatt module (src/kilowatt): battery swaps.
pub mod Swaps
pub mod Reserved
mod Examples
