-- ===== src/Rpc/Coverage.antt =====
-- Generators of leaves, each of a range of blocks: that they cover their range, and that they end.
use mathlib.Core.List.{map-append}
use oddsfox_pipeline.Base.{ℕ, ◌≤◌, List, ◌++◌, map, ◌≡◌, arith, Interval, Tiles, Tiles-append}
use oddsfox_pipeline.Rpc.Batches.{done, size_limit, failed, Yields, yield_from}

module _ {S Leaf : Type 0} (range : Leaf → Interval) where
  -- The leaves tile the blocks from `a` up to, and without, `b`; up to an earlier block where an
  -- error ended them.
  abbrev pub Covers : ℕ → ℕ → Yields S Leaf → Type 0
  Covers a b (leaves, done u, s) = Tiles a (map range leaves) b
  Covers a b (leaves, size_limit, s) = (c : ℕ) × Tiles a (map range leaves) c × (c ≤ b)
  Covers a b (leaves, failed e, s) = (c : ℕ) × Tiles a (map range leaves) c × (c ≤ b)

  prefix-Covers :
      (a b c : ℕ) (leaves : List Leaf) (r : Yields S Leaf)
      → Tiles a (map range leaves) b
      → Covers b c r
      → Covers a c (leaves ++ r.0, r.1, r.2)
  prefix-Covers a b c leaves (more, done u, s) h k =
      rw (map-append range leaves more) (Tiles-append a b c (map range leaves) (map range more) h k)
  prefix-Covers a b c leaves (more, size_limit, s) h (d, k, le) = (
    d,
    rw (map-append range leaves more) (Tiles-append a b d (map range leaves) (map range more) h k),
    le,
  )
  prefix-Covers a b c leaves (more, failed e, s) h (d, k, le) = (
    d,
    rw (map-append range leaves more) (Tiles-append a b d (map range leaves) (map range more) h k),
    le,
  )

  pub yield_from-Covers :
      (a b c : ℕ) (r : Yields S Leaf) (next : S → Yields S Leaf)
      → b ≤ c
      → Covers a b r
      → ((s : S) → Covers b c (next s))
      → Covers a c (yield_from r next)
  yield_from-Covers a b c (leaves, done u, s) next le h k =
      prefix-Covers a b c leaves (next s) h (k s)
  yield_from-Covers a b c (leaves, size_limit, s) next le (d, h, le') k = (d, h, omega arith)
  yield_from-Covers a b c (leaves, failed e, s) next le (d, h, le') k = (d, h, omega arith)

module _ {S Leaf : Type 0} where
  abbrev pub HasEnded : Yields S Leaf → Type 0
  HasEnded (leaves, end, s) = end ≡ done tt

  pub yield_from-HasEnded :
      (r : Yields S Leaf) (next : S → Yields S Leaf)
      → HasEnded r
      → ((s : S) → HasEnded (next s))
      → HasEnded (yield_from r next)
  yield_from-HasEnded (leaves, done u, s) next h k = k s
  yield_from-HasEnded (leaves, size_limit, s) next h k = cc
  yield_from-HasEnded (leaves, failed e, s) next h k = cc

  -- A generator that ended without an error has covered its whole range.
  pub HasEnded-Tiles :
      (range : Leaf → Interval) (a b : ℕ) (r : Yields S Leaf)
      → HasEnded r
      → Covers range a b r
      → Tiles a (map range r.0) b
  HasEnded-Tiles range a b (leaves, done u, s') h k = k
  HasEnded-Tiles range a b (leaves, size_limit, s') h k = cc
  HasEnded-Tiles range a b (leaves, failed e, s') h k = cc
