-- ===== src/Rpc/Tiling.antt =====
-- Splitting asks for every call once and in order, and for every block once and in order.
use oddsfox_pipeline.Base.{
  ℕ, zero, suc, ◌+◌, ◌-◌, ◌/◌, ◌≤◌, List, map, ◌≡◌, ◌⊎◌, inl, inr, refl, sym, ap, ◌∙◌, leb→lt,
  length, take, drop, length-take, length-drop, take-append-drop, leb, ◌==◌, arith, Bool-cases,
  Interval, Tiles, All,
}
use mathlib.Core.List.{map-append}
use oddsfox_pipeline.Rpc.Coverage.{
  Covers, yield_from-Covers, HasEnded, yield_from-HasEnded, HasEnded-Tiles,
}
use oddsfox_pipeline.Rpc.Batches.{
  Reply, done, size_limit, failed, adaptive_batch_call, Yields, yield_leaf, split_range, give_up,
  adaptive_log_leaves,
}
use oddsfox_pipeline.Rpc.Answered.{IsAnswered, adaptive_log_leaves-IsAnswered}

-- A provider that answers call by call, and may refuse a batch of two or more for its size.
pub record IsSizeLimited {S Call Value : Type 0}
    (batch_call : List Call → S → Reply (List Value) × S) (answer : Call → Value) : Type 0 where
  pub small :
      (calls : List Call) (s : S)
      → length calls ≤ 1
      → (s' : S) × (batch_call calls s ≡ (done (map answer calls), s'))
  pub any :
      (calls : List Call) (s : S)
      → (s' : S) × ((batch_call calls s ≡ (done (map answer calls), s'))
          ⊎ (batch_call calls s ≡ (size_limit, s')))

module _ {S Call Value : Type 0} (batch_call : List Call → S → Reply (List Value) × S)
    (answer : Call → Value) where
  -- A provider answers call by call, and may refuse a batch of two or more for its size: whatever it
  -- refuses, a depth of the number of calls is enough, and every call is answered, in order.
  pub adaptive_batch_call-done :
      IsSizeLimited batch_call answer
      → (depth : ℕ) (calls : List Call) (s : S) → length calls ≤ depth + 1
      → (s' : S) × (adaptive_batch_call batch_call depth calls s ≡ (done (map answer calls), s'))
  unfolding adaptive_batch_call
  adaptive_batch_call-done p zero calls s h = p.small calls s (omega arith)
  adaptive_batch_call-done p (suc depth) calls s h = elim (Bool-cases (leb (length calls) 1)) [
    | inl few ↦
        let (s', e) = p.small calls s (ground arith) in (s', rw (e, adaptive_batch_call) refl)
    | inr many ↦
        let (s₁, outcome) = p.any calls s in
        elim outcome [
          | inl e ↦ (s₁, rw (e, adaptive_batch_call) refl)
          | inr e ↦
              let half = length calls / 2 in
              let (s₂, left) =
                adaptive_batch_call-done p depth (take half calls) s₁
                  (omega (arith, length-take half calls, leb→lt (length calls) 1 many)) in
              let (s₃, right) =
                adaptive_batch_call-done p depth (drop half calls) s₂
                  (omega (arith, length-drop half calls, leb→lt (length calls) 1 many)) in
              (
                s₃,
                rw (e, many, left, right)
                    (ap (λ (values : List Value). (done values, s₃))
                      (sym (map-append answer (take half calls) (drop half calls))
                        ∙ ap (map answer) (take-append-drop half calls))),
              )
        ]
  ]

abbrev pub leaf_range : {Logs : Type 0} → Interval × Logs → Interval
leaf_range leaf = leaf.0

module _ {S Logs : Type 0} where
  yield_leaf-Covers :
      (a b : ℕ) (r : Reply Logs × S) (handler : S → Yields S (Interval × Logs))
      → a ≤ b
      → ((s : S) → Covers leaf_range a (b + 1) (handler s))
      → Covers leaf_range a (b + 1) (yield_leaf a b r handler)
  yield_leaf-Covers a b (done logs, s) handler le h = (refl, le, refl)
  yield_leaf-Covers a b (size_limit, s) handler le h = h s
  yield_leaf-Covers a b (failed e, s) handler le h = (a, refl, omega arith)

  split_range-Covers :
      (leaves : ℕ → ℕ → S → Yields S (Interval × Logs))
      → ((a b : ℕ) (s : S) → a ≤ b → Covers leaf_range a (b + 1) (leaves a b s))
      → (a b : ℕ) (s : S) → a ≤ b
      → Covers leaf_range a (b + 1) (split_range leaves a b s)
  unfolding split_range
  split_range-Covers leaves h a b s le = elim (Bool-cases (a == b)) [
    | inl one ↦ rw (one, split_range) (a, refl, omega arith)
    | inr more ↦
        let middle = (a + b) / 2 in
        rw (more, split_range)
          (yield_from-Covers leaf_range a (middle + 1) (b + 1) (leaves a middle s)
            (leaves (middle + 1) b) (omega arith) (h a middle s (omega arith))
            λ s'. h (middle + 1) b s' (ground arith))
  ]

module _ {S Logs : Type 0} (rpc_logs : ℕ → ℕ → S → Reply Logs × S) where
  adaptive_log_leaves_labels :
      (depth from_block to_block : ℕ) (s : S)
      → from_block ≤ to_block
      → Covers leaf_range from_block
          (to_block + 1)
          (adaptive_log_leaves rpc_logs depth from_block to_block s)
  unfolding adaptive_log_leaves
  adaptive_log_leaves_labels zero from_block to_block s le =
      yield_leaf-Covers from_block to_block (rpc_logs from_block to_block s) give_up le
        λ s'. (from_block, refl, omega arith)
  adaptive_log_leaves_labels (suc depth) from_block to_block s le =
      yield_leaf-Covers from_block to_block (rpc_logs from_block to_block s)
        (split_range (adaptive_log_leaves rpc_logs depth) from_block to_block) le
        λ s'.
          split_range-Covers (adaptive_log_leaves rpc_logs depth) (adaptive_log_leaves_labels depth)
            from_block to_block s' le

  -- For any provider, each leaf that is yielded holds the logs that the provider answered, in some
  -- state, for the leaf's range, and the ranges follow one another without gap or overlap from the
  -- first block on; they reach the last one unless an error ended the generator.
  pub adaptive_log_leaves-Covers :
      (depth from_block to_block : ℕ) (s : S)
      → from_block ≤ to_block
      → let r = adaptive_log_leaves rpc_logs depth from_block to_block s in
        All (IsAnswered rpc_logs) r.0 × Covers leaf_range from_block (to_block + 1) r
  adaptive_log_leaves-Covers depth from_block to_block s le = (
    adaptive_log_leaves-IsAnswered rpc_logs depth from_block to_block s,
    adaptive_log_leaves_labels depth from_block to_block s le,
  )

-- A provider that answers for any single block, and for a longer range answers or refuses it for its
-- size; of a range that ends before it starts nothing is said.
pub record IsRangeLimited {S Logs : Type 0} (rpc_logs : ℕ → ℕ → S → Reply Logs × S) : Type 0 where
  pub single : (n : ℕ) (s : S) → (logs : Logs) × (s' : S) × (rpc_logs n n s ≡ (done logs, s'))
  pub longer :
      (a b : ℕ) (s : S)
      → a ≤ b
      → ((logs : Logs) × (s' : S) × (rpc_logs a b s ≡ (done logs, s')))
        ⊎ ((s' : S) × (rpc_logs a b s ≡ (size_limit, s')))

module _ {S Logs : Type 0} (rpc_logs : ℕ → ℕ → S → Reply Logs × S) where
  adaptive_log_leaves-HasEnded :
      IsRangeLimited rpc_logs
      → (depth from_block to_block : ℕ) (s : S) → to_block - from_block ≤ depth
      → from_block ≤ to_block
      → HasEnded (adaptive_log_leaves rpc_logs depth from_block to_block s)
  unfolding adaptive_log_leaves
  adaptive_log_leaves-HasEnded p zero from_block to_block s d le =
      let same : to_block ≡ from_block = omega arith in
      let (logs, s', e) = p.single from_block s in rw (same, e) refl
  adaptive_log_leaves-HasEnded p (suc depth) from_block to_block s d le =
      elim (p.longer from_block to_block s le) [
        | inl (logs, s', e) ↦ rw e refl
        | inr (s', e) ↦ elim (Bool-cases (from_block == to_block)) [
          | inl one ↦
              let same : to_block ≡ from_block = ground arith in
              let (logs, s'', e') = p.single from_block s in rw (same, e') refl
          | inr more ↦
              let middle = (from_block + to_block) / 2 in
              rw (e, more, split_range)
                (yield_from-HasEnded (adaptive_log_leaves rpc_logs depth from_block middle s')
                  (adaptive_log_leaves rpc_logs depth (middle + 1) to_block)
                  (adaptive_log_leaves-HasEnded p depth from_block middle s' (ground arith)
                    (ground arith))
                  λ s''.
                    adaptive_log_leaves-HasEnded p depth (middle + 1) to_block s'' (ground arith)
                      (ground arith))
        ]
      ]

  -- With a provider that answers for any single block, and that fails on a longer range only by its
  -- size limit, a depth of the range's length is enough: the generator ends without an error, its
  -- leaves tile the whole range, and each holds the logs that the provider answered for it.
  pub adaptive_log_leaves-Tiles :
      IsRangeLimited rpc_logs
      → (from_block to_block : ℕ) (s : S) → from_block ≤ to_block
      → let r = adaptive_log_leaves rpc_logs (to_block - from_block) from_block to_block s in
        (r.1 ≡ done tt)
        × Tiles from_block (map leaf_range r.0) (to_block + 1)
        × All (IsAnswered rpc_logs) r.0
  adaptive_log_leaves-Tiles p from_block to_block s le =
      let r = adaptive_log_leaves rpc_logs (to_block - from_block) from_block to_block s in
      let ended =
        adaptive_log_leaves-HasEnded p (to_block - from_block) from_block to_block s (omega arith)
          le in
      let (answers, covers) =
        adaptive_log_leaves-Covers rpc_logs (to_block - from_block) from_block to_block s le in
      (ended, HasEnded-Tiles leaf_range from_block (to_block + 1) r ended covers, answers)
