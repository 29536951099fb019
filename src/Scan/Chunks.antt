-- ===== src/Scan/Chunks.antt =====
-- The chunks that a range's work hands out are its gaps, cut up: none is skipped or handed out
-- twice, whatever chunk sizes are set in between.
use oddsfox_pipeline.Base.{
  ℕ, ◌+◌, ◌-◌, ◌≤◌, ◌<◌, List, [], ◌∷◌, ◌++◌, Option, none, some, ◌≡◌, ◌⊎◌, ◌↔◌, inl, inr, length,
  refl, sym, ap, Bool-cases, arith, min, ◌==◌, if◌then◌else◌, Interval, In, All,
}
use mathlib.Core.Path.{subst}
use native.Mathlib.Decide.{dec_le}
use oddsfox_pipeline.Scan.Work.{
  RangeWork, Chunk, exhausted, chunk, assertion_failed, cut_chunk, next_chunk,
}

abbrev pub IsInterval : Interval → Type 0
IsInterval (a, b) = a ≤ b

-- The open gap, if any: its cursor and end are set and cleared together.
abbrev pub open_gap : Option ℕ → Option ℕ → List Interval
open_gap (some a) (some b) = (a, b) ∷ []
open_gap _ _ = []

abbrev pub IsOpen : Option ℕ → Option ℕ → Type 0
IsOpen none none = Unit
IsOpen (some a) (some b) = a ≤ b
IsOpen none (some b) = ⊥
IsOpen (some a) none = ⊥

pub record IsWork (w : RangeWork) : Type 0 where
  pub sized : 0 < w.chunk_size
  pub gaps_valid : All IsInterval w.gaps
  pub open_valid : IsOpen w.cursor w.gap_end

-- What is left to hand out.
abbrev pub remaining : RangeWork → List Interval
remaining w = open_gap w.cursor w.gap_end ++ w.gaps

-- The first interval begins with `a` to `b`; cut it off.
abbrev pub cut_front : ℕ → List Interval → List Interval
cut_front b [] = []
cut_front b ((from, to) ∷ rest) = if b == to then rest else (b + 1, to) ∷ rest

-- `a` to `b` is the front of the remaining work, at most a chunk long, and the rest stays.
abbrev pub Hands : RangeWork → Chunk × RangeWork → Type 0
Hands w (exhausted, w') = (remaining w ≡ []) × (w' ≡ w)
Hands w (assertion_failed, w') = ⊥
Hands w (chunk a b, w') =
    (to : ℕ) × (rest : List Interval) × (remaining w ≡ (a, to) ∷ rest)
    × (a ≤ b)
    × (b ≤ to)
    × (b + 1 ≤ a + w.chunk_size)
    × (remaining w' ≡ cut_front b (remaining w))
    × IsWork w'
    × (w'.chunk_size ≡ w.chunk_size)

cut_chunk-Hands :
    (gaps : List Interval) (size a e : ℕ) (c g : Option ℕ) (v : RangeWork)
    → 0 < size
    → All IsInterval gaps
    → a ≤ e
    → remaining v ≡ (a, e) ∷ gaps
    → v.chunk_size ≡ size
    → Hands v
        (cut_chunk a (some e) (record { gaps = gaps; chunk_size = size; cursor = c; gap_end = g }))
unfolding cut_chunk
cut_chunk-Hands gaps size a e c g v pos valid le er ev =
    elim (Bool-cases (min e (a + size - 1) == e)) [
      | inl full ↦ rw full (
        e,
        gaps,
        er,
        omega arith,
        omega arith,
        omega arith,
        rw (er, full) refl,
        record { sized = pos; gaps_valid = valid; open_valid = tt },
        sym ev,
      )
      | inr part ↦ rw part (
        e,
        gaps,
        er,
        omega arith,
        omega arith,
        omega arith,
        rw (er, part) refl,
        record { sized = pos; gaps_valid = valid; open_valid = ground arith },
        sym ev,
      )
    ]

abbrev work : List Interval → ℕ → Option ℕ → Option ℕ → RangeWork
work gaps size c g = record { gaps = gaps; chunk_size = size; cursor = c; gap_end = g }

next_chunk-Hands_fields :
    (gaps : List Interval) (size : ℕ) (c g : Option ℕ)
    → IsWork (work gaps size c g)
    → Hands (work gaps size c g) (next_chunk (work gaps size c g))
unfolding next_chunk
next_chunk-Hands_fields gaps size (some a) (some e) v =
    cut_chunk-Hands gaps size a e (some a) (some e) (work gaps size (some a) (some e)) v.sized
      v.gaps_valid v.open_valid refl refl
next_chunk-Hands_fields gaps size (some a) none v = absurd v.open_valid
next_chunk-Hands_fields gaps size none (some e) v = absurd v.open_valid
next_chunk-Hands_fields [] size none none v = (refl, refl)
next_chunk-Hands_fields ((a, e) ∷ gaps) size none none v =
    cut_chunk-Hands gaps size a e (some a) (some e) (work ((a, e) ∷ gaps) size none none) v.sized
      v.gaps_valid.1 v.gaps_valid.0 refl refl

-- With a positive chunk size and intervals the assertion holds, and `next_chunk` cuts at most a chunk's length off the
-- front of what remains, or says that nothing remains.
next_chunk-Hands : (w : RangeWork) → IsWork w → Hands w (next_chunk w)
next_chunk-Hands w v = next_chunk-Hands_fields w.gaps w.chunk_size w.cursor w.gap_end v

-- The number of blocks in the intervals.
pub blocks : List Interval → ℕ
blocks [] = 0
blocks ((a, b) ∷ rest) = (b + 1 - a) + blocks rest

-- The chunks handed out one after another, while the caller sets new chunk sizes in between, as
-- `_concurrent_leaf_results` does.
pub data Run : RangeWork → List Interval → RangeWork → Type 0 where
  stop : {w : RangeWork} → Run w [] w
  hand :
      {w w'' : RangeWork} {chunks : List Interval} (w' : RangeWork) (a b size : ℕ)
      → next_chunk w ≡ (chunk a b, w')
      → 0 < size
      → Run (record w' { chunk_size = size }) chunks w''
      → Run w ((a, b) ∷ chunks) w''

abbrev pub SameBlocks : List Interval → List Interval → List Interval → Type 0
SameBlocks whole part rest = (n : ℕ) → In n whole ↔ (In n part ⊎ In n rest)

cut_within :
    (R : Type 0) (a b to n : ℕ)
    → a ≤ b
    → b ≤ to
    → ((a ≤ n) × (n ≤ to) ⊎ R) ↔ (((a ≤ n) × (n ≤ b) ⊎ ⊥) ⊎ ((b + 1 ≤ n) × (n ≤ to) ⊎ R))
cut_within R a b to n le le' = (
  λ h. elim h [
    | inl p ↦ elim (dec_le n b) [ yes q ↦ inl (inl (p.0, q)) | no q ↦ inr (inl (omega arith, p.1)) ]
    | inr r ↦ inr (inr r)
  ],
  λ h. elim h [
    | inl p ↦ elim p [ inl q ↦ inl (q.0, omega arith) | inr x ↦ absurd x ]
    | inr p ↦ elim p [ inl q ↦ inl (omega arith, q.1) | inr r ↦ inr r ]
  ],
)

cut_whole : (R : Type 0) (a to n : ℕ) → ((a ≤ n) × (n ≤ to) ⊎ R) ↔ (((a ≤ n) × (n ≤ to) ⊎ ⊥) ⊎ R)
cut_whole R a to n = (
  λ h. elim h [ inl p ↦ inl (inl p) | inr r ↦ inr r ],
  λ h. elim h [ inl p ↦ elim p [ inl q ↦ inl q | inr x ↦ absurd x ] | inr r ↦ inr r ],
)

cut_front-SameBlocks :
    (a b to : ℕ) (rest : List Interval)
    → a ≤ b
    → b ≤ to
    → SameBlocks ((a, to) ∷ rest) ((a, b) ∷ []) (cut_front b ((a, to) ∷ rest))
cut_front-SameBlocks a b to rest le le' n = elim (Bool-cases (b == to)) [
  | inl full ↦ let e : b ≡ to = ground arith in rw (full, e) (cut_whole (In n rest) a to n)
  | inr part ↦ rw part (cut_within (In n rest) a b to n le le')
]

blocks-cut_front :
    (a b to : ℕ) (rest : List Interval)
    → a ≤ b
    → b ≤ to
    → blocks ((a, to) ∷ rest) ≡ (b + 1 - a) + blocks (cut_front b ((a, to) ∷ rest))
unfolding blocks
blocks-cut_front a b to rest le le' = ground arith

SameBlocks-cons :
    (whole chunks middle rest : List Interval) (c : Interval)
    → SameBlocks whole (c ∷ []) middle
    → SameBlocks middle chunks rest
    → SameBlocks whole (c ∷ chunks) rest
SameBlocks-cons whole chunks middle rest c h k n = (
  λ p. elim ((h n).0 p) [
    | inl q ↦ elim q [ inl x ↦ inl (inl x) | inr x ↦ absurd x ]
    | inr q ↦ elim ((k n).0 q) [ inl x ↦ inl (inr x) | inr x ↦ inr x ]
  ],
  λ p. elim p [
    | inl q ↦ elim q [ inl x ↦ (h n).1 (inl (inl x)) | inr x ↦ (h n).1 (inr ((k n).1 (inl x))) ]
    | inr q ↦ (h n).1 (inr ((k n).1 (inr q)))
  ],
)

-- A run from a positive chunk size and intervals hands out at least one block each time; with what then remains, its chunks hold exactly
-- the blocks that remained at the start, and as many, so that none is handed out twice.
pub Run-partition :
    (w w' : RangeWork) (chunks : List Interval)
    → IsWork w
    → Run w chunks w'
    → IsWork w'
      × (length chunks ≤ blocks chunks)
      × (blocks (remaining w) ≡ blocks chunks + blocks (remaining w'))
      × SameBlocks (remaining w) chunks (remaining w')
unfolding blocks
Run-partition w w' chunks v stop =
    (v, omega arith, omega arith, λ n. (λ h. inr h, λ h. elim h [ inl x ↦ absurd x | inr x ↦ x ]))
Run-partition w w' chunks v (hand {chunks = cs} u a b size e pos run) =
    let handed : Hands w (chunk a b, u) = subst (Hands w) e (next_chunk-Hands w v) in
    let (to, rest, er, le, le', small, er', vu, eu) = handed in
    let (v', many, count, same) =
      Run-partition (record u { chunk_size = size }) w' cs
        (record { sized = pos; gaps_valid = vu.gaps_valid; open_valid = vu.open_valid }) run in
    let left : remaining u ≡ cut_front b ((a, to) ∷ rest) = rw er at er' in
    (
      v',
      omega arith,
      omega (arith, ap blocks er, blocks-cut_front a b to rest le le', ap blocks left, count),
      SameBlocks-cons (remaining w) cs (remaining u) (remaining w') (a, b)
          (rw (er, left) (cut_front-SameBlocks a b to rest le le')) same,
    )
