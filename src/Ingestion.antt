-- ===== src/Ingestion.antt =====
-- packages/ingestion/src: how an observed transaction becomes final.
mod Tests
pub mod Types
pub mod Finality
pub mod Consensus
