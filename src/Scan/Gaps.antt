-- ===== src/Scan/Gaps.antt =====
-- `_gaps` of polygon_settlement_scan.py: the part of a target range that no completed chunk covers.
use oddsfox_pipeline.Base.{
  ℕ, ◌+◌, ◌-◌, List, [], ◌∷◌, Bool, true, false, ◌&&◌, ◌||◌, Result, ok, err, ◌>>=◌, ltb, leb, ◌==◌,
  if◌then◌else◌, Interval,
}

pub data GapError : Type 0 where
  chunks_overlap overlap_or_cross : GapError

-- `sorted(completed)`: pairs in lexicographic order.
abbrev pub pair_le : Interval → Interval → Bool
pair_le (a, b) (c, d) = ltb a c || (a == c && leb b d)

unfoldable pub insert_sorted : Interval → List Interval → List Interval
insert_sorted x [] = x ∷ []
insert_sorted x (y ∷ ys) = if pair_le x y then x ∷ y ∷ ys else y ∷ insert_sorted x ys

unfoldable pub sorted : List Interval → List Interval
unfolding insert_sorted
sorted [] = []
sorted (x ∷ xs) = insert_sorted x (sorted xs)

-- The first loop, from the interval `coalesced[-1]` on.
unfoldable pub coalesce_from : Interval → List Interval → Result GapError (List Interval)
coalesce_from last [] = ok (last ∷ [])
coalesce_from (from, to) ((done_start, done_end) ∷ rest) = elim (leb done_start to) [
  | true ↦ err chunks_overlap
  | false ↦ elim (done_start == to + 1) [
    | true ↦ coalesce_from (from, done_end) rest
    | false ↦ coalesce_from (done_start, done_end) rest >>= λ coalesced. ok ((from, to) ∷ coalesced)
  ]
]

unfoldable pub coalesce : List Interval → Result GapError (List Interval)
unfolding coalesce_from
coalesce [] = ok []
coalesce (first ∷ rest) = coalesce_from first rest

-- The second loop, from the cursor on.
unfoldable pub sweep : ℕ → ℕ → ℕ → List Interval → Result GapError (List Interval)
sweep start end cursor [] = ok (if leb cursor end then (cursor, end) ∷ [] else [])
sweep start end cursor ((done_start, done_end) ∷ rest) =
    elim (ltb done_end start || ltb end done_start) [
      | true ↦ sweep start end cursor rest
      | false ↦ elim (ltb done_start cursor) [
        | true ↦ err overlap_or_cross
        | false ↦ sweep start end (done_end + 1) rest >>= λ gaps.
            ok (if ltb cursor done_start then (cursor, done_start - 1) ∷ gaps else gaps)
      ]
    ]

unfoldable pub gaps : Interval → List Interval → Result GapError (List Interval)
unfolding sorted coalesce sweep
gaps (start, end) completed =
    coalesce (sorted completed) >>= λ coalesced. sweep start end start coalesced
