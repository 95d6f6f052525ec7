-- ===== src/Rides.antt =====
-- The rides module (src/rides): the trip of a ride that a driver has accepted.
pub mod Store
pub mod Trips
pub mod Dispatch
pub mod Booking
pub mod Cancellation
pub mod Race
pub mod Eligible
pub mod Rounds
pub mod Frame
pub mod Booked
pub mod Earned
pub mod Once
pub mod Cancelled
pub mod FeeShares
pub mod FeePaid
mod Examples
mod BookingExamples
