-- ===== src/Payment.antt =====
-- The payment components of packages/core/src/payment.
mod Tests
pub mod Truth
pub mod Projection
pub mod Freshness
pub mod Worker
pub mod Tick
