-- ===== src/Platform.antt =====
-- packages/platform/src: the parts of the hosted platform that compute rather than store.
pub mod Numerals
pub mod Invoices
pub mod ExactDecimal
pub mod Quote
pub mod QuotePolicy
pub mod Payments
