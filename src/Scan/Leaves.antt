-- ===== src/Scan/Leaves.antt =====
-- Bisecting a refused range yields leaves that follow one another, and comes to an end.
use oddsfox_pipeline.Base.{
  ℕ, zero, suc, ◌+◌, ◌-◌, ◌/◌, ◌≤◌, map, ◌≡◌, ◌⊎◌, inl, inr, refl, false, max, arith, Bool-cases,
  leb, Interval, Tiles,
}
use oddsfox_pipeline.Rpc.Batches.{Reply, done, size_limit, failed, Yields}
use oddsfox_pipeline.Rpc.Coverage.{
  Covers, yield_from-Covers, HasEnded, yield_from-HasEnded, HasEnded-Tiles,
}
use oddsfox_pipeline.Scan.Parent.{
  min_log_chunk_size, one_leaf, collect_halves, refuse, collect_parent_range,
}

module _ {S Leaf : Type 0} (range : Leaf → Interval) where
  one_leaf-Covers :
      (a b : ℕ) (r : Reply Leaf × S) (handler : S → Yields S Leaf)
      → a ≤ b
      → ((leaf : Leaf) (s : S) → r ≡ (done leaf, s) → range leaf ≡ (a, b))
      → ((s : S) → Covers range a (b + 1) (handler s))
      → Covers range a (b + 1) (one_leaf r handler)
  one_leaf-Covers a b (done leaf, s) handler le e h = rw (e leaf s refl) (refl, le, refl)
  one_leaf-Covers a b (size_limit, s) handler le e h = h s
  one_leaf-Covers a b (failed x, s) handler le e h = (a, refl, omega arith)

  collect_halves-Covers :
      (half : ℕ → ℕ → ℕ → ℕ → S → Yields S Leaf)
      → ((a b size splits : ℕ) (s : S) → a ≤ b → Covers range a (b + 1) (half a b size splits s))
      → (a b size splits : ℕ) (s : S) → a ≤ b
      → Covers range a (b + 1) (collect_halves half a b size splits s)
  unfolding collect_halves
  collect_halves-Covers half h a b size splits s le =
      let middle = (a + b) / 2 in
      let split_size = max min_log_chunk_size (size / 2) in
      elim (Bool-cases (leb (b - a + 1) min_log_chunk_size)) [
        | inl few ↦ rw (few, collect_halves) (a, refl, omega arith)
        | inr many ↦
            rw (many, collect_halves)
              (yield_from-Covers range a (middle + 1) (b + 1)
                (half a middle split_size (splits + 1) s)
                (half (middle + 1) b split_size (splits + 1)) (omega arith)
                (h a middle split_size (splits + 1) s (omega arith))
                λ s'. h (middle + 1) b split_size (splits + 1) s' (ground arith))
      ]

module _ {S Leaf : Type 0} (collect : ℕ → ℕ → ℕ → ℕ → S → Reply Leaf × S) (range : Leaf → Interval)
    (keeps_range : (a b size splits : ℕ) (s : S) (leaf : Leaf) (s' : S)
      → collect a b size splits s ≡ (done leaf, s')
      → range leaf ≡ (a, b)) where
  -- Where a collected leaf is of the range it was asked for, the leaves follow one another from the
  -- first block on without gap or overlap, to the last block unless an error is returned.
  collect_parent_range-Covers :
      (depth from_block to_block log_chunk_size splits : ℕ) (s : S)
      → from_block ≤ to_block
      → Covers range from_block
          (to_block + 1)
          (collect_parent_range collect depth from_block to_block log_chunk_size splits s)
  unfolding collect_parent_range
  collect_parent_range-Covers zero a b size splits s le =
      one_leaf-Covers range a b (collect a b size splits s) refuse le
        (λ leaf s' e. keeps_range a b size splits s leaf s' e) λ s'. (a, refl, omega arith)
  collect_parent_range-Covers (suc depth) a b size splits s le =
      one_leaf-Covers range a b (collect a b size splits s)
        (collect_halves (collect_parent_range collect depth) a b size splits) le
        (λ leaf s' e. keeps_range a b size splits s leaf s' e)
        λ s'.
          collect_halves-Covers range (collect_parent_range collect depth)
            (collect_parent_range-Covers depth) a b size splits s' le

  -- A collector that collects every range of at most 250 blocks, and collects a longer one or refuses
  -- it for its size; of a range that ends before it starts nothing is said.
  abbrev pub AcceptsMinimum : Type 0
  AcceptsMinimum =
      (a b size splits : ℕ) (s : S)
      → a ≤ b
      → ((leaf : Leaf) × (s' : S) × (collect a b size splits s ≡ (done leaf, s')))
        ⊎ ((250 ≤ b - a) × (s' : S) × (collect a b size splits s ≡ (size_limit, s')))

  collect_parent_range-HasEnded :
      AcceptsMinimum
      → (depth a b size splits : ℕ) (s : S) → b - a ≤ depth
      → a ≤ b
      → HasEnded (collect_parent_range collect depth a b size splits s)
  unfolding collect_parent_range
  collect_parent_range-HasEnded p zero a b size splits s d le = elim (p a b size splits s le) [
    | inl (leaf, s', e) ↦ rw e refl
    | inr (long, s', e) ↦ absurd (omega arith)
  ]
  collect_parent_range-HasEnded p (suc depth) a b size splits s d le =
      elim (p a b size splits s le) [
        | inl (leaf, s', e) ↦ rw e refl
        | inr (long, s', e) ↦
            let many : leb (b - a + 1) min_log_chunk_size ≡ false = ground arith in
            let middle = (a + b) / 2 in
            let split_size = max min_log_chunk_size (size / 2) in
            rw (e, many, collect_halves)
              (yield_from-HasEnded
                (collect_parent_range collect depth a middle split_size (splits + 1) s')
                (collect_parent_range collect depth (middle + 1) b split_size (splits + 1))
                (collect_parent_range-HasEnded p depth a middle split_size (splits + 1) s'
                  (omega arith) (omega arith))
                λ s''.
                  collect_parent_range-HasEnded p depth (middle + 1) b split_size (splits + 1) s''
                    (omega arith) (omega arith))
      ]

  -- With a collector whose leaves are of the range it is asked for, that collects every range of at
  -- most 250 blocks and fails on a longer one only by the size limit, the recursion, to a depth of the
  -- range's length, returns no error, and its leaves tile the whole range.
  pub collect_parent_range-Tiles :
      (from_block to_block log_chunk_size splits : ℕ) (s : S)
      → from_block ≤ to_block
      → AcceptsMinimum
      → let r =
          collect_parent_range collect
            (to_block - from_block)
            from_block
            to_block
            log_chunk_size
            splits
            s in
        (r.1 ≡ done tt) × Tiles from_block (map range r.0) (to_block + 1)
  collect_parent_range-Tiles a b size splits s le p =
      let r = collect_parent_range collect (b - a) a b size splits s in
      let ended = collect_parent_range-HasEnded p (b - a) a b size splits s (omega arith) le in
      (
        ended,
        HasEnded-Tiles range a (b + 1) r ended
            (collect_parent_range-Covers (b - a) a b size splits s le),
      )
