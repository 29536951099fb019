-- ===== src/Scan.antt =====
-- The Polygon settlement scan (src/oddsfox_pipeline/ingestion/polymarket/polygon_settlement_scan.py
-- and polygon_settlement_types.py): `Work`, `Gaps`, `Parent`, `Receipts`, `Pool` and `Settings` hold
-- the code, the other modules the proofs about it.
pub mod Work
pub mod Chunks
pub mod Gaps
pub mod Complement
pub mod Resumable
pub mod Parent
pub mod Leaves
pub mod Receipts
pub mod Received
pub mod Settings
pub mod Tests
pub mod Pool
pub mod Disjoint
