-- ===== src/Leaf.antt =====
-- A leaf of the scan: the raw logs of a range of blocks to normalized rows (`decode_and_normalize_leaf`
-- and `discover_and_normalize_leaf` of
-- src/oddsfox_pipeline/ingestion/polymarket/polygon_settlement_normalize.py). `Events`, `Normalize`
-- and `Discover` hold the code, the other modules the proofs about it.
pub mod Events
pub mod Normalize
pub mod Discover
pub mod Accepted
pub mod Tests
