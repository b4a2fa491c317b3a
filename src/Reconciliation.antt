-- ===== src/Reconciliation.antt =====
-- packages/reconciliation: finalized payment events against invoices.
pub mod Types
pub mod Event
pub mod Batch
mod Tests
