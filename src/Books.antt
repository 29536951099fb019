-- ===== src/Books.antt =====
-- Displayed order books: receive-order replay and offline quotes
-- (src/oddsfox_pipeline/ingestion/polymarket/sports_data/books.py). `Row`, `Book`, `Apply`,
-- `Quote` and `Pair` hold the code, the other modules the proofs about it.
pub mod Row
pub mod Book
pub mod Apply
pub mod Quote
pub mod Depth
pub mod Replay
pub mod Displayed
pub mod Healing
pub mod Quoted
pub mod Highest
pub mod Pair
pub mod Paired
pub mod Tests
