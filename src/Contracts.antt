-- ===== src/Contracts.antt =====
-- The pure contracts of packages/contracts/src.
mod Tests
pub mod Time
pub mod Flow
pub mod Booking
pub mod Period
pub mod Hold
