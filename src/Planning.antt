-- ===== src/Planning.antt =====
-- Planning of odds history requests (src/oddsfox_pipeline/ingestion/polymarket/odds/planning.py).
-- `TokenPlans` and `Groups` hold the code, the other modules the proofs about it.
pub mod ClobTokens
pub mod TokenPlans
pub mod Windows
pub mod Groups
pub mod Fresh
pub mod Grouped
pub mod Tests
