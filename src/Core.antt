-- ===== src/Core.antt =====
-- packages/core: from a raw Solana transaction to parsed transfers and a verification report.
pub mod Types
pub mod Samples
pub mod TokenInstruction
pub mod AccountKeys
pub mod ParseTransaction
pub mod Envelope
pub mod VerifyPayment
