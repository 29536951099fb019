-- ===== src/Scan/Settings.antt =====
-- `PolygonSettlementSyncConfig` of polygon_settlement_types.py, and what its check gives the receipts
-- loop. A rate or a time is a multiple of a unit. A negative number is refused where zero or a small
-- number is; only the retries and the backoff may be zero, and are integers here.
use oddsfox_pipeline.Base.{
  ℤ, is_negative, ℕ, String, List, not, ◌&&◌, Result, ok, ◌>>◌, ◌≡◌, raise_if, leb, ◌==◌, arith,
}
use oddsfox_pipeline.Scan.Parent.{min_log_chunk_size}
use oddsfox_pipeline.Scan.Receipts.{
  min_receipt_batch_size, max_receipt_batch_size, Fetched, fetch_receipts_adaptively,
}
use oddsfox_pipeline.Rpc.Batches.{Reply}
use oddsfox_pipeline.Scan.Received.{Ends, fetch_receipts_adaptively-Ends}

abbrev pub max_log_chunk_size : ℕ
max_log_chunk_size = 20_000

pub record PolygonSettlementSyncConfig : Type 0 where
  pub requests_per_second : ℕ
  pub workers : ℕ
  pub initial_block_chunk_size : ℕ
  pub initial_receipt_batch_size : ℕ
  pub transient_retries : ℤ
  pub transient_backoff_seconds : ℤ

pub data ConfigError : Type 0 where
  rate_not_positive workers_not_positive chunk_size_bounds batch_size_bounds negative_retries
        negative_backoff :
      ConfigError

-- `__post_init__`
unfoldable pub post_init : PolygonSettlementSyncConfig → Result ConfigError (Unit {0})
post_init c = do
  raise_if (c.requests_per_second == 0) rate_not_positive
  raise_if (c.workers == 0) workers_not_positive
  raise_if
      (not (
        leb min_log_chunk_size c.initial_block_chunk_size
        && leb c.initial_block_chunk_size max_log_chunk_size))
      chunk_size_bounds
  raise_if
      (not (
        leb min_receipt_batch_size c.initial_receipt_batch_size
        && leb c.initial_receipt_batch_size max_receipt_batch_size))
      batch_size_bounds
  raise_if (is_negative c.transient_retries) negative_retries
  raise_if (is_negative c.transient_backoff_seconds) negative_backoff

-- With the batch size of settings that were accepted, the fetch of receipts ends, and if it raises no
-- error of the provider or of its replies, it has a receipt for every transaction.
pub post_init-Ends :
    {S Receipt : Type 0} (fetch : List String → S → Reply (Fetched Receipt) × S)
    (c : PolygonSettlementSyncConfig) (transaction_hashes : List String) (s : S)
    → post_init c ≡ ok tt
    → Ends fetch transaction_hashes
        (fetch_receipts_adaptively fetch transaction_hashes c.initial_receipt_batch_size s)
unfolding post_init
post_init-Ends fetch c hashes s h =
    fetch_receipts_adaptively-Ends fetch hashes c.initial_receipt_batch_size s (ground arith)
      (ground arith)
