-- ===== src/Scan/Resumable.antt =====
-- `_gaps` does not raise on the chunks that a scan completes: disjoint and not before the target.
use oddsfox_pipeline.Base.{
  ℕ, ◌+◌, ◌-◌, ◌≤◌, ◌<◌, List, [], ◌∷◌, ◌≡◌, ◌⊎◌, inl, inr, refl, ok, ◌>>=◌, true, false, ◌||◌,
  arith, Bool-cases, ltb, leb, ◌==◌, if◌then◌else◌, Interval, All,
}
use oddsfox_pipeline.Scan.Chunks.{IsInterval}
use oddsfox_pipeline.Scan.Gaps.{
  pair_le, insert_sorted, sorted, coalesce_from, coalesce, sweep, gaps,
}
use oddsfox_pipeline.Scan.Complement.{Ascends, coalesce_from-Ascends}

-- Two intervals share no block.
abbrev pub Apart : Interval → Interval → Type 0
Apart (a, b) (c, d) = (b < c) ⊎ (d < a)

abbrev pub IsDisjoint : List Interval → Type 0
IsDisjoint [] = Unit
IsDisjoint (x ∷ xs) = All (Apart x) xs × IsDisjoint xs

Apart-before :
    (x y : Interval) → IsInterval x → IsInterval y → pair_le x y ≡ true → Apart x y → x.1 + 1 ≤ y.0
Apart-before x y v w first (inl lt) = omega arith
Apart-before x y v w first (inr lt) = ground arith

Apart-behind :
    (x y : Interval) → IsInterval x → IsInterval y → pair_le x y ≡ false → Apart x y → y.1 + 1 ≤ x.0
Apart-behind x y v w later (inl lt) = ground arith
Apart-behind x y v w later (inr lt) = omega arith

insert_sorted-Ascends :
    (low : ℕ) (x : Interval) (xs : List Interval)
    → IsInterval x
    → low ≤ x.0
    → All (Apart x) xs
    → Ascends low xs
    → Ascends low (insert_sorted x xs)
unfolding insert_sorted
insert_sorted-Ascends low x [] v le p h = (le, v, tt)
insert_sorted-Ascends low x (y ∷ ys) v le p h = elim (Bool-cases (pair_le x y)) [
  | inl first ↦ rw first (le, v, (Apart-before x y v h.1 first p.0, h.1, h.2))
  | inr later ↦
      rw later (
        h.0,
        h.1,
        insert_sorted-Ascends (y.1 + 1) x ys v (Apart-behind x y v h.1 later p.0) p.1 h.2,
      )
]

insert_sorted-Apart :
    (z x : Interval) (xs : List Interval)
    → Apart z x
    → All (Apart z) xs
    → All (Apart z) (insert_sorted x xs)
unfolding insert_sorted
insert_sorted-Apart z x [] h k = (h, tt)
insert_sorted-Apart z x (y ∷ ys) h k = elim (Bool-cases (pair_le x y)) [
  | inl first ↦ rw first (h, k)
  | inr later ↦ rw later (k.0, insert_sorted-Apart z x ys h k.1)
]

sorted-Apart : (z : Interval) (xs : List Interval) → All (Apart z) xs → All (Apart z) (sorted xs)
unfolding sorted
sorted-Apart z [] h = tt
sorted-Apart z (x ∷ xs) h = insert_sorted-Apart z x (sorted xs) h.0 (sorted-Apart z xs h.1)

Ascends-from : (low high : ℕ) (xs : List Interval) → low ≤ high → Ascends high xs → Ascends low xs
Ascends-from low high [] le h = tt
Ascends-from low high (x ∷ xs) le h = (omega (arith, h.0), h.1, h.2)

Ascends-IsInterval : (low : ℕ) (xs : List Interval) → Ascends low xs → All IsInterval xs
Ascends-IsInterval low [] h = tt
Ascends-IsInterval low (x ∷ xs) h = (h.1, Ascends-IsInterval (x.1 + 1) xs h.2)

-- The interval begins at `low` or later.
abbrev pub Starts : ℕ → Interval → Type 0
Starts low (a, b) = (low ≤ a) × (a ≤ b)

sorted-Ascends :
    (low : ℕ) (xs : List Interval) → All (Starts low) xs → IsDisjoint xs → Ascends low (sorted xs)
unfolding sorted
sorted-Ascends low [] h d = tt
sorted-Ascends low (x ∷ xs) h d =
    insert_sorted-Ascends low x (sorted xs) h.0.1 h.0.0 (sorted-Apart x xs d.0)
      (sorted-Ascends low xs h.1 d.1)

coalesce_from-ok :
    (last : Interval) (xs : List Interval)
    → Ascends (last.1 + 1) xs
    → (ys : List Interval) × (coalesce_from last xs ≡ ok ys)
unfolding coalesce_from
coalesce_from-ok last [] h = (last ∷ [], refl)
coalesce_from-ok last (x ∷ xs) h =
    let apart : leb x.0 last.1 ≡ false = ground arith in
    elim (Bool-cases (x.0 == last.1 + 1)) [
      | inl next ↦ rw (apart, next, coalesce_from) (coalesce_from-ok (last.0, x.1) xs h.2)
      | inr gap ↦
          let (ys, e) = coalesce_from-ok x xs h.2 in
          (last ∷ ys, rw (apart, gap, e, coalesce_from) refl)
    ]

sweep-ok :
    (start end cursor : ℕ) (xs : List Interval)
    → Ascends cursor xs
    → (ys : List Interval) × (sweep start end cursor xs ≡ ok ys)
unfolding sweep
sweep-ok start end cursor [] h = (_, refl)
sweep-ok start end cursor (x ∷ xs) h = elim (Bool-cases (ltb x.1 start || ltb end x.0)) [
  | inl skip ↦
      rw (skip, sweep)
        (sweep-ok start end cursor xs
          (Ascends-from cursor (x.1 + 1) xs (omega (arith, h.0, h.1)) h.2))
  | inr hit ↦
      let fits : ltb x.0 cursor ≡ false = ground arith in
      let (ys, e) = sweep-ok start end (x.1 + 1) xs h.2 in
      (if ltb cursor x.0 then (cursor, x.0 - 1) ∷ ys else ys, rw (hit, fits, e, sweep) refl)
]

-- Disjoint completed chunks that do not begin before the target range never make `_gaps` raise.
pub gaps-ok :
    (start end : ℕ) (completed : List Interval)
    → All (Starts start) completed
    → IsDisjoint completed
    → (found : List Interval) × (gaps (start, end) completed ≡ ok found)
unfolding gaps
gaps-ok start end completed h d = joined (sorted completed) (sorted-Ascends start completed h d)
  where
    joined :
        (xs : List Interval)
        → Ascends start xs
        → (found : List Interval) × ((coalesce xs >>= λ coalesced. sweep start end start coalesced)
            ≡ ok found)
    joined [] v = (_, refl)
    joined (x ∷ xs) v =
        let (ys, e) = coalesce_from-ok x xs v.2 in
        let (zs, e') =
          sweep-ok start end start ys
            (coalesce_from-Ascends x xs ys start v.1 (Ascends-IsInterval (x.1 + 1) xs v.2) v.0 e) in
        (zs, rw (e, e') refl)
