-- ===== src/Logistics.antt =====
-- The logistics module (src/logistics): the trip of a delivery and its invoice.
pub mod Store
pub mod Trips
pub mod Invoices
pub mod Frame
pub mod Billed
pub mod Completed
pub mod Paid
mod Examples
