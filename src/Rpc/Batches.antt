-- ===== src/Rpc/Batches.antt =====
-- `PolygonRPC._adaptive_batch_call` and `adaptive_log_leaves`: a request that the provider refuses
-- for its size is split in two. The provider is a parameter, a call from a state `S` of its own.
use oddsfox_pipeline.Base.{
  ℕ, zero, suc, ◌+◌, ◌/◌, List, [], ◌∷◌, ◌++◌, true, false, length, take, drop, leb, ◌==◌, Interval,
}

-- How a request ends: with a result, at the provider's size limit, or in any other error.
pub data Reply (A : Type 0) : Type 0 where
  done : A → Reply A
  size_limit : Reply A
  failed : ℕ → Reply A

-- `except PolygonRPCSizeLimitError`: the other outcomes pass.
abbrev pub on_size_limit : {S A : Type 0} → Reply A × S → (S → Reply A × S) → Reply A × S
on_size_limit (done a, s) handler = (done a, s)
on_size_limit (size_limit, s) handler = handler s
on_size_limit (failed e, s) handler = (failed e, s)

-- `[*left, *right]`, where the right half is asked only if the left one came.
abbrev pub prepend :
    {S Value : Type 0} → List Value → Reply (List Value) × S → Reply (List Value) × S
prepend left (done right, s) = (done (left ++ right), s)
prepend left (size_limit, s) = (size_limit, s)
prepend left (failed e, s) = (failed e, s)

abbrev pub concat :
    {S Value : Type 0}
    → Reply (List Value) × S
    → (S → Reply (List Value) × S)
    → Reply (List Value) × S
concat (done left, s) right = prepend left (right s)
concat (size_limit, s) right = (size_limit, s)
concat (failed e, s) right = (failed e, s)

module _ {S Call Value : Type 0} (batch_call : List Call → S → Reply (List Value) × S) where
  -- Each half is shorter, so the number of calls bounds the depth.
  unfoldable pub adaptive_batch_call : ℕ → List Call → S → Reply (List Value) × S
  adaptive_batch_call zero calls s = batch_call calls s
  adaptive_batch_call (suc depth) calls s = on_size_limit (batch_call calls s) λ s'.
      elim (leb (length calls) 1) [
        | true ↦ (size_limit, s')
        | false ↦
            concat (adaptive_batch_call depth (take (length calls / 2) calls) s')
              λ s''. adaptive_batch_call depth (drop (length calls / 2) calls) s''
      ]

-- What a generator yielded, how it ended, and the provider's state then.
abbrev pub Yields : Type 0 → Type 0 → Type 0
Yields S Leaf = List Leaf × Reply (Unit {0}) × S

-- `yield from` one generator and then another, which starts only if the first one ended.
abbrev pub yield_from : {S Leaf : Type 0} → Yields S Leaf → (S → Yields S Leaf) → Yields S Leaf
yield_from (items, done u, s) next = let (more, end, s') = next s in (items ++ more, end, s')
yield_from (items, size_limit, s) next = (items, size_limit, s)
yield_from (items, failed e, s) next = (items, failed e, s)

-- `yield from_block, to_block, logs`, under `except PolygonRPCSizeLimitError`.
abbrev pub yield_leaf :
    {S Logs : Type 0}
    → ℕ
    → ℕ
    → Reply Logs × S
    → (S → Yields S (Interval × Logs))
    → Yields S (Interval × Logs)
yield_leaf from_block to_block (done logs, s) handler =
    (((from_block, to_block), logs) ∷ [], done tt, s)
yield_leaf from_block to_block (size_limit, s) handler = handler s
yield_leaf from_block to_block (failed e, s) handler = ([], failed e, s)

module _ {S Logs : Type 0} where
  -- The handler: one block is refused for good, a longer range is asked for in two halves.
  unfoldable pub split_range :
      (ℕ → ℕ → S → Yields S (Interval × Logs)) → ℕ → ℕ → S → Yields S (Interval × Logs)
  split_range leaves from_block to_block s = elim (from_block == to_block) [
    | true ↦ ([], size_limit, s)
    | false ↦
        yield_from (leaves from_block ((from_block + to_block) / 2) s)
          (leaves ((from_block + to_block) / 2 + 1) to_block)
  ]

  abbrev pub give_up : S → Yields S (Interval × Logs)
  give_up s = ([], size_limit, s)

module _ {S Logs : Type 0} (rpc_logs : ℕ → ℕ → S → Reply Logs × S) where
  -- A split range is halved, so the length of the range bounds the depth.
  unfoldable pub adaptive_log_leaves : ℕ → ℕ → ℕ → S → Yields S (Interval × Logs)
  unfolding split_range
  adaptive_log_leaves zero from_block to_block s =
      yield_leaf from_block to_block (rpc_logs from_block to_block s) give_up
  adaptive_log_leaves (suc depth) from_block to_block s =
      yield_leaf from_block to_block (rpc_logs from_block to_block s)
        (split_range (adaptive_log_leaves depth) from_block to_block)
