-- ===== src/Settlement.antt =====
-- Polygon V2 settlement: decoded exchange events to normalized fill rows
-- (src/oddsfox_pipeline/ingestion/polymarket/polygon_settlement_normalize.py). `Types`, `Amounts`,
-- `Index`, `Segment` and `Transactions` hold the code, the other modules the proofs about it.
pub mod Types
pub mod Amounts
pub mod Index
pub mod Segment
pub mod Transactions
pub mod Tests
pub mod RoundTrip
pub mod Rounding
pub mod Rows
pub mod Sides
pub mod Conservation
pub mod Pricing
pub mod Aggregate
pub mod Normalized
