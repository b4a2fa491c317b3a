-- ===== src/Platform/Payments.antt =====
-- packages/platform/src/payments/status-projector.ts: what a chain event makes of the payment
-- attempt, the invoice and the journal that it is about.
pub mod Types
pub mod Advance
pub mod Book
pub mod Project
pub mod Moves
pub mod Invariant
pub mod Settled
pub mod Reach
pub mod Final
pub mod Pays
mod Tests
