-- ===== src/Inventory.antt =====
-- Inventory: packages/core/src/inventory. A parent of the modules of its parts.
mod Tests
pub mod Activation
pub mod Intervals
pub mod Periods
pub mod Wear
pub mod Provisional
