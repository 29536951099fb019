-- ===== src/Rpc.antt =====
-- The Polygon JSON-RPC facade (src/oddsfox_pipeline/ingestion/polymarket/polygon_rpc.py). `Json`,
-- `Provider`, `Client`, `Batch`, `Hex`, `Headers`, `Logs`, `ReceiptBatches`, `Search`, `Vector` and
-- `Batches` hold the code, the other modules the proofs about it.
pub mod Search
pub mod FirstBlock
pub mod Batches
pub mod Coverage
pub mod Answered
pub mod Tiling
pub mod Vector
pub mod Narrowed
pub mod Together
pub mod Hex
pub mod HexRoundTrip
pub mod Json
pub mod Provider
pub mod Client
pub mod Batch
pub mod Envelopes
pub mod Restored
pub mod Ordered
pub mod InOrder
pub mod Headers
pub mod Kept
pub mod HeaderCache
pub mod Fetched
pub mod Logs
pub mod ReceiptBatches
pub mod Ensures
pub mod ReceiptKeys
pub mod Parsed
pub mod DataWords
pub mod Kinds
pub mod Decoded
pub mod Tests
pub mod ClientTests
