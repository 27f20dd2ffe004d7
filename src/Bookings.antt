-- ===== src/Bookings.antt =====
-- bookings/: the life of a booking.
pub mod Status
pub mod Table
pub mod Machine
pub mod Rows
pub mod Visit
pub mod Override
pub mod Expiry
pub mod Dispute
pub mod Weekly
pub mod Price
pub mod Actions
pub mod Proof
pub mod Slots
pub mod Create
mod Tests
