-- ===== src/Seed.antt =====
-- The audited market seed (src/oddsfox_pipeline/ingestion/polymarket/polygon_seed.py): `Inventory`
-- and `Manifest` hold the code, the other modules the proofs about it.
pub mod Inventory
pub mod Manifest
pub mod Indexed
pub mod Tests
