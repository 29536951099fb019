-- ===== src/Scan/Parent.antt =====
-- `_collect_parent_range` of polygon_settlement_scan.py. `collect` stands for
-- `_collect_and_normalize_leaf`, a call of the provider from a state `S` of its own, by the range,
-- the log chunk size and the number of splits.
use oddsfox_pipeline.Base.{ℕ, zero, suc, ◌+◌, ◌-◌, ◌/◌, [], ◌∷◌, true, false, max, leb}
use oddsfox_pipeline.Rpc.Batches.{Reply, done, size_limit, failed, Yields, yield_from}

abbrev pub min_log_chunk_size : ℕ
min_log_chunk_size = 250

-- `return [leaf], None`, or what follows the two `except` lines.
abbrev pub one_leaf : {S Leaf : Type 0} → Reply Leaf × S → (S → Yields S Leaf) → Yields S Leaf
one_leaf (done leaf, s) handler = (leaf ∷ [], done tt, s)
one_leaf (size_limit, s) handler = handler s
one_leaf (failed e, s) handler = ([], failed e, s)

module _ {S Leaf : Type 0} where
  -- The handler of the size limit, over the function that collects a half.
  unfoldable pub collect_halves :
      (ℕ → ℕ → ℕ → ℕ → S → Yields S Leaf) → ℕ → ℕ → ℕ → ℕ → S → Yields S Leaf
  collect_halves half from_block to_block log_chunk_size splits s =
      let middle = (from_block + to_block) / 2 in
      let split_size = max min_log_chunk_size (log_chunk_size / 2) in
      elim (leb (to_block - from_block + 1) min_log_chunk_size) [
        | true ↦ ([], size_limit, s)
        | false ↦
            yield_from (half from_block middle split_size (splits + 1) s)
              (half (middle + 1) to_block split_size (splits + 1))
      ]

  abbrev pub refuse : S → Yields S Leaf
  refuse s = ([], size_limit, s)

module _ {S Leaf : Type 0} (collect : ℕ → ℕ → ℕ → ℕ → S → Reply Leaf × S) where
  -- A range is halved in each call, so its length bounds the depth.
  unfoldable pub collect_parent_range : ℕ → ℕ → ℕ → ℕ → ℕ → S → Yields S Leaf
  unfolding collect_halves
  collect_parent_range zero from_block to_block log_chunk_size splits s =
      one_leaf (collect from_block to_block log_chunk_size splits s) refuse
  collect_parent_range (suc depth) from_block to_block log_chunk_size splits s =
      one_leaf (collect from_block to_block log_chunk_size splits s)
        (collect_halves (collect_parent_range depth) from_block to_block log_chunk_size splits)
