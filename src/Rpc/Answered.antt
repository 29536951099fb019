-- ===== src/Rpc/Answered.antt =====
-- The leaves of `adaptive_log_leaves` hold what the provider answered.
use oddsfox_pipeline.Base.{
  ℕ, zero, suc, ◌+◌, ◌/◌, ◌≡◌, inl, inr, refl, ◌==◌, Bool-cases, Interval, All, All-append,
}
use oddsfox_pipeline.Rpc.Batches.{
  Reply, done, size_limit, failed, Yields, yield_from, yield_leaf, split_range, give_up,
  adaptive_log_leaves,
}

module _ {S Logs : Type 0} (rpc_logs : ℕ → ℕ → S → Reply Logs × S) where
  -- The logs of a leaf are what the provider answered, in some state, for the leaf's own range.
  abbrev pub IsAnswered : Interval × Logs → Type 0
  IsAnswered ((from_block, to_block), logs) =
      (s s' : S) × (rpc_logs from_block to_block s ≡ (done logs, s'))

  yield_leaf-IsAnswered :
      (a b : ℕ) (s : S) (r : Reply Logs × S) (handler : S → Yields S (Interval × Logs))
      → rpc_logs a b s ≡ r
      → ((s' : S) → All IsAnswered (handler s').0)
      → All IsAnswered (yield_leaf a b r handler).0
  yield_leaf-IsAnswered a b s (done logs, s') handler e h = ((s, s', e), tt)
  yield_leaf-IsAnswered a b s (size_limit, s') handler e h = h s'
  yield_leaf-IsAnswered a b s (failed code, s') handler e h = tt

  yield_from-IsAnswered :
      (r : Yields S (Interval × Logs)) (next : S → Yields S (Interval × Logs))
      → All IsAnswered r.0
      → ((s : S) → All IsAnswered (next s).0)
      → All IsAnswered (yield_from r next).0
  yield_from-IsAnswered (leaves, done u, s) next h k =
      All-append IsAnswered leaves (next s).0 h (k s)
  yield_from-IsAnswered (leaves, size_limit, s) next h k = h
  yield_from-IsAnswered (leaves, failed e, s) next h k = h

  split_range-IsAnswered :
      (leaves : ℕ → ℕ → S → Yields S (Interval × Logs))
      → ((a b : ℕ) (s : S) → All IsAnswered (leaves a b s).0)
      → (a b : ℕ) (s : S) → All IsAnswered (split_range leaves a b s).0
  unfolding split_range
  split_range-IsAnswered leaves h a b s = elim (Bool-cases (a == b)) [
    | inl one ↦ rw (one, split_range) tt
    | inr more ↦
        let middle = (a + b) / 2 in
        rw (more, split_range)
          (yield_from-IsAnswered (leaves a middle s) (leaves (middle + 1) b) (h a middle s)
            λ s'. h (middle + 1) b s')
  ]

  pub adaptive_log_leaves-IsAnswered :
      (depth a b : ℕ) (s : S) → All IsAnswered (adaptive_log_leaves rpc_logs depth a b s).0
  unfolding adaptive_log_leaves
  adaptive_log_leaves-IsAnswered zero a b s =
      yield_leaf-IsAnswered a b s (rpc_logs a b s) give_up refl λ s'. tt
  adaptive_log_leaves-IsAnswered (suc depth) a b s =
      yield_leaf-IsAnswered a b s (rpc_logs a b s)
        (split_range (adaptive_log_leaves rpc_logs depth) a b) refl
        λ s'.
          split_range-IsAnswered (adaptive_log_leaves rpc_logs depth)
            (adaptive_log_leaves-IsAnswered depth) a b s'
