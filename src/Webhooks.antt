-- ===== src/Webhooks.antt =====
-- packages/webhooks/src/delivery: when a delivery is sent, sent again or given up.
pub mod RetryPolicy
pub mod Worker
pub mod Signing
pub mod Concurrent
pub mod Batch
mod Tests
