-- ===== src/Lib.antt =====
-- oddsfox-pipeline collects prediction-market data (Polymarket, Kalshi, Polygon settlements), keeps
-- it in DuckDB and publishes datasets. This library models the parts of it that decide what is
-- recorded, and proves what makes them correct.
--
-- `Base` holds what the parts share: tests, lists, results, intervals, and lists read as sets.
--
-- The parts, with the code that they model (paths under src/oddsfox_pipeline/):
--
-- * Settlement (ingestion/polymarket/polygon_settlement_normalize.py, and the records of
--   polygon_rpc.py and polygon_seed.py): decoded V2 exchange events to economic fills.
--   `Settlement/Types` holds the events, markets and rows, `Amounts` is `_decimal_volume`,
--   `_decimal_price` and `_amounts`, `Index` is `by_token`, `Segment` is `_base_fill_row` and
--   `normalize_v2_segment`, `Transactions` is `_transaction_segments`. The proofs are in `Rounding`,
--   `Rows`, `Sides`, `Conservation`, `Pricing`, `Aggregate`, `RoundTrip` and `Normalized`. Each
--   `ValueError` is a constructor of `SettlementError`, and `_segment_hash`, a digest, is a parameter.
-- * Rpc (ingestion/polymarket/polygon_rpc.py): `Rpc/Json` is a decoded JSON value as the client reads
--   it, `Provider` the errors and `_provider_error`, `Client` the counters, `_post` and `call`, `Batch`
--   is `batch_call`, `Hex` is `_hex_quantity`, `_hex32` and `_data_words`, `Headers` is `chain_id`,
--   `block`, `blocks` and `finalized_head` with their cache, `Logs` is `logs` and
--   `decode_settlement_log`, `ReceiptBatches` is `_parse_receipts` and the two receipt calls. `Search`
--   is `first_block_at_or_after`, `Vector` is `first_blocks_at_or_after`, `Batches` is
--   `_adaptive_batch_call` and `adaptive_log_leaves`. The HTTP client, with the provider behind it, is
--   the parameter `send`: a payload and a state of its own to a response, status 413 or another
--   failure. `str(value).casefold()` of a JSON value is the parameter `casefold`. Each message that is
--   raised is a number, and the size limit a reply of its own. The two searches take `block` and
--   `blocks` as parameters that may raise.
-- * Seed (ingestion/polymarket/polygon_seed.py): `Seed/Inventory` holds the constants, `Manifest` is
--   `validate_polygon_market_manifest`, over an inventory of which `wc2026` is the one of the source.
-- * Leaf (`decode_and_normalize_leaf` and `discover_and_normalize_leaf` of
--   polygon_settlement_normalize.py): the raw logs of a range of blocks to rows. It decodes with
--   Rpc, asks Rpc for receipts and headers, and hands the segments of each transaction to Settlement.
--   `Leaf/Events` sorts and groups the events, `Normalize` and `Discover` are the two functions.
-- * Scan (ingestion/polymarket/polygon_settlement_scan.py and polygon_settlement_types.py):
--   `Scan/Work` is `_RangeWork`, `Gaps` is `_gaps`, `Parent` is `_collect_parent_range`, `Receipts` is
--   `_fetch_receipts_adaptively`, `Pool` is `_concurrent_leaf_results` as a relation between states,
--   `Settings` is `PolygonSettlementSyncConfig`. It asks the client of Rpc, and hands leaves to
--   Settlement: the leaf collector is a parameter of `Parent`, the receipt call a parameter of
--   `Receipts`, and the results of the workers are parameters of a step of `Pool`.
-- * Books (ingestion/polymarket/sports_data/books.py): `Books/Row` is `levels` and the normalized rows,
--   `Book` is the state, `status` and `_archive_order`, `Apply` is `Book.apply`, `Quote` is
--   `Book.quote`, `Pair` is `pair_quote`. The proofs are in `Depth`, `Replay`, `Displayed`, `Healing`,
--   `Quoted`, `Highest` and `Paired`.
-- * Guardrail (resources/progress_guardrails.py): `Guardrail/State` is `ProgressGuardrail`.
-- * Planning (ingestion/polymarket/odds/planning.py and support.py): `Planning/ClobTokens` is
--   `is_probably_clob_token`, `TokenPlans` is `build_single_token_plan`, `Groups` is
--   `group_token_plans`.
--
-- Numbers are natural numbers: amounts are decoded from unsigned words, block numbers and times are
-- not negative. A decimal is a multiple of a unit that the numbers beside it share, so that sums,
-- differences and comparisons are exact. Where the source subtracts, a guard ahead of it keeps the
-- difference from being cut off, or the source itself takes the maximum with zero.
--
-- Loops on fuel and their bounds: `search_loop` runs for the number of blocks of the chain, a
-- bisection to a depth of the length of its range or batch, `fetch_loop` for 51 rounds a transaction
-- and the first batch size, since a round hands on a transaction or makes the batch of at most 50
-- smaller, `fetch_missing` and `receipts_from` for the number of what is asked for, and
-- `chunk_groups` for the number of plans. For those with a theorem on their results, that this is
-- enough is part of it.
--
-- Not modelled: HTTP, websockets, parquet files, DuckDB and Dagster, which are third-party; digests;
-- log payloads; the ingestion of markets, matches and Kalshi, the storage, the publication, the
-- orchestration and the dbt models. The texts of errors are dropped.
pub mod Base
pub mod Settlement
pub mod Rpc
pub mod Scan
pub mod Books
pub mod Guardrail
pub mod Planning
pub mod Seed
pub mod Leaf
