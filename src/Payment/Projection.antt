-- ===== src/Payment/Projection.antt =====
-- The business decision on a reconciled payment observation:
-- packages/core/src/payment/payment-projection.ts. The hashes (`flowHash`) are parameters; hashes
-- are compared as texts.
pub mod Input
pub mod Decide
pub mod Safety
pub mod Quiet
