-- ===== src/Scan/Complement.antt =====
-- The gaps are the complement of the completed chunks within the target range.
use oddsfox_pipeline.Base.{
  ℕ, ◌+◌, ◌-◌, ◌≤◌, ◌<◌, List, [], ◌∷◌, Bool, true, false, not, ◌&&◌, ◌||◌, ◌≡◌, refl, ap, ◌∙◌, inl,
  inr, ok, arith, Bool-cases, ok-injective, >>=-eq-ok, ==_iff, ltb, leb, ◌==◌, if◌then◌else◌,
  Interval, All,
}
use native.Mathlib.Decide.{dec_lt}
use oddsfox_pipeline.Scan.Chunks.{IsInterval}
use oddsfox_pipeline.Scan.Gaps.{insert_sorted, sorted, coalesce_from, coalesce, sweep, gaps}

-- Block `n` lies in one of the intervals.
pub covers : List Interval → ℕ → Bool
covers [] n = false
covers ((a, b) ∷ rest) n = (leb a n && leb n b) || covers rest n

-- The intervals begin at `low` or later, and each begins behind the one before it.
abbrev pub Ascends : ℕ → List Interval → Type 0
Ascends low [] = Unit
Ascends low ((a, b) ∷ rest) = (low ≤ a) × (a ≤ b) × Ascends (b + 1) rest

covers-insert_sorted :
    (x : Interval) (xs : List Interval) (n : ℕ) → covers (insert_sorted x xs) n ≡ covers (x ∷ xs) n
unfolding covers insert_sorted
covers-insert_sorted x [] n = refl
covers-insert_sorted x (y ∷ ys) n = ground (arith, covers-insert_sorted x ys n)

covers-sorted : (xs : List Interval) (n : ℕ) → covers (sorted xs) n ≡ covers xs n
unfolding covers sorted
covers-sorted [] n = refl
covers-sorted (x ∷ xs) n = ground (arith, covers-insert_sorted x (sorted xs) n, covers-sorted xs n)

insert_sorted-IsInterval :
    (x : Interval) (xs : List Interval)
    → IsInterval x
    → All IsInterval xs
    → All IsInterval (insert_sorted x xs)
unfolding insert_sorted
insert_sorted-IsInterval x [] h k = (h, tt)
insert_sorted-IsInterval x (y ∷ ys) h k = ground (arith, insert_sorted-IsInterval x ys h k.1)

sorted-IsInterval : (xs : List Interval) → All IsInterval xs → All IsInterval (sorted xs)
unfolding sorted
sorted-IsInterval [] h = tt
sorted-IsInterval (x ∷ xs) h = insert_sorted-IsInterval x (sorted xs) h.0 (sorted-IsInterval xs h.1)

merge_cover :
    (a b c d n : ℕ) (rest : Bool)
    → a ≤ b
    → c ≤ d
    → c ≡ b + 1
    → ((leb a n && leb n d) || rest) ≡ ((leb a n && leb n b) || ((leb c n && leb n d) || rest))
merge_cover a b c d n rest h k e = ground arith

coalesce_from-covers :
    (last : Interval) (xs ys : List Interval) (n : ℕ)
    → IsInterval last
    → All IsInterval xs
    → coalesce_from last xs ≡ ok ys
    → covers ys n ≡ covers (last ∷ xs) n
unfolding covers coalesce_from
coalesce_from-covers last [] ys n h k e = rw (← ok-injective e)
coalesce_from-covers last (x ∷ xs) ys n h k e = elim (Bool-cases (leb x.0 last.1)) [
  | inl bad ↦ absurd (ground arith)
  | inr apart ↦ elim (Bool-cases (x.0 == last.1 + 1)) [
    | inl next ↦
        let adjacent = (==_iff x.0 (last.1 + 1)).0 next in
        coalesce_from-covers (last.0, x.1) xs ys n (omega (arith, k.0, adjacent)) k.1
          (rw (apart, next, coalesce_from) at e)
        ∙ merge_cover last.0 last.1 x.0 x.1 n (covers xs n) h k.0 adjacent
    | inr gap ↦
        let (zs, e', e'') =
          >>=-eq-ok (coalesce_from x xs) _ (rw (apart, gap, coalesce_from) at e) in
        rw (← ok-injective e'') (
          ap (λ (r : Bool). (leb last.0 n && leb n last.1) || r)
            (coalesce_from-covers x xs zs n k.0 k.1 e'))
  ]
]

pub coalesce_from-Ascends :
    (last : Interval) (xs ys : List Interval) (low : ℕ)
    → IsInterval last
    → All IsInterval xs
    → low ≤ last.0
    → coalesce_from last xs ≡ ok ys
    → Ascends low ys
unfolding coalesce_from
coalesce_from-Ascends last [] ys low h k le e = rw (← ok-injective e) (le, h, tt)
coalesce_from-Ascends last (x ∷ xs) ys low h k le e = elim (Bool-cases (leb x.0 last.1)) [
  | inl bad ↦ absurd (ground arith)
  | inr apart ↦ elim (Bool-cases (x.0 == last.1 + 1)) [
    | inl next ↦
        coalesce_from-Ascends (last.0, x.1) xs ys low (omega (arith, k.0, (==_iff _ _).0 next)) k.1
          le (rw (apart, next, coalesce_from) at e)
    | inr gap ↦
        let (zs, e', e'') =
          >>=-eq-ok (coalesce_from x xs) _ (rw (apart, gap, coalesce_from) at e) in
        rw (← ok-injective e'')
          (le, h, coalesce_from-Ascends x xs zs (last.1 + 1) k.0 k.1 (ground arith) e')
  ]
]

coalesce-covers :
    (xs ys : List Interval) (n : ℕ)
    → All IsInterval xs
    → coalesce xs ≡ ok ys
    → covers ys n ≡ covers xs n
unfolding coalesce covers
coalesce-covers [] ys n h e = rw (← ok-injective e)
coalesce-covers (x ∷ xs) ys n h e = coalesce_from-covers x xs ys n h.0 h.1 e

coalesce-Ascends : (xs ys : List Interval) → All IsInterval xs → coalesce xs ≡ ok ys → Ascends 0 ys
unfolding coalesce
coalesce-Ascends [] ys h e = rw (← ok-injective e) tt
coalesce-Ascends (x ∷ xs) ys h e = coalesce_from-Ascends x xs ys 0 h.0 h.1 (omega arith) e

front_Ascends :
    (cursor a b : ℕ) (rest : List Interval)
    → cursor ≤ a
    → a ≤ b
    → Ascends (b + 1) rest
    → Ascends cursor (if ltb cursor a then (cursor, a - 1) ∷ rest else rest)
front_Ascends cursor a b [] h k v = ground arith
front_Ascends cursor a b (x ∷ rest) h k v = ground arith

Ascends-covers : (low n : ℕ) (xs : List Interval) → Ascends low xs → n < low → covers xs n ≡ false
unfolding covers
Ascends-covers low n [] h lt = refl
Ascends-covers low n (x ∷ xs) h lt = ground (arith, Ascends-covers (x.1 + 1) n xs h.2)

skip_cover :
    (start end cursor a b n : ℕ) (rest : Bool)
    → start ≤ cursor
    → (ltb b start || ltb end a) ≡ true
    → (leb cursor n && leb n end && not rest)
      ≡ (leb cursor n && leb n end && not ((leb a n && leb n b) || rest))
skip_cover start end cursor a b n rest le t = ground arith

pass_cover :
    (end cursor a b n : ℕ) (rest : Bool)
    → cursor ≤ a
    → a ≤ b
    → a ≤ end
    → (n < b + 1 → rest ≡ false)
    → ((leb cursor n && ltb n a) || (leb (b + 1) n && leb n end && not rest))
      ≡ (leb cursor n && leb n end && not ((leb a n && leb n b) || rest))
pass_cover end cursor a b n rest h k le none_below = elim (Bool-cases rest) [
  | inl r ↦ elim (dec_lt n (b + 1)) [
    | yes below ↦ absurd (cc (none_below below))
    | no above ↦ rw r (ground arith)
  ]
  | inr r ↦ rw r (ground arith)
]

front_cover :
    (cursor a n : ℕ) (rest : List Interval)
    → cursor ≤ a
    → covers (if ltb cursor a then (cursor, a - 1) ∷ rest else rest) n
      ≡ ((leb cursor n && ltb n a) || covers rest n)
unfolding covers
front_cover cursor a n rest h = ground arith

sweep-covers :
    (start end cursor low : ℕ) (xs ys : List Interval) (n : ℕ)
    → start ≤ cursor
    → Ascends low xs
    → sweep start end cursor xs ≡ ok ys
    → covers ys n ≡ (leb cursor n && leb n end && not (covers xs n))
unfolding covers sweep
sweep-covers start end cursor low [] ys n le h e = rw (← ok-injective e) (ground arith)
sweep-covers start end cursor low (x ∷ xs) ys n le h e =
    elim (Bool-cases (ltb x.1 start || ltb end x.0)) [
      | inl skip ↦
          sweep-covers start end cursor (x.1 + 1) xs ys n le h.2 (rw (skip, sweep) at e)
          ∙ skip_cover start end cursor x.0 x.1 n (covers xs n) le skip
      | inr hit ↦ elim (Bool-cases (ltb x.0 cursor)) [
        | inl bad ↦ absurd (ground arith)
        | inr fits ↦
            let (zs, e', e'') =
              >>=-eq-ok (sweep start end (x.1 + 1) xs) _ (rw (hit, fits, sweep) at e) in
            rw (← ok-injective e'') (
              front_cover cursor x.0 n zs (ground arith)
              ∙ ap (λ (r : Bool). (leb cursor n && ltb n x.0) || r)
                  (sweep-covers start end (x.1 + 1) (x.1 + 1) xs zs n (ground arith) h.2 e')
              ∙ pass_cover end cursor x.0 x.1 n (covers xs n) (ground arith) h.1 (ground arith)
                  (Ascends-covers (x.1 + 1) n xs h.2))
      ]
    ]

-- The gaps that are returned ascend within the target range.
sweep-Ascends :
    (start end cursor low : ℕ) (xs ys : List Interval)
    → Ascends low xs
    → sweep start end cursor xs ≡ ok ys
    → Ascends cursor ys
unfolding sweep
sweep-Ascends start end cursor low [] ys h e = rw (← ok-injective e) (ground arith)
sweep-Ascends start end cursor low (x ∷ xs) ys h e =
    elim (Bool-cases (ltb x.1 start || ltb end x.0)) [
      | inl skip ↦ sweep-Ascends start end cursor (x.1 + 1) xs ys h.2 (rw (skip, sweep) at e)
      | inr hit ↦ elim (Bool-cases (ltb x.0 cursor)) [
        | inl bad ↦ absurd (ground arith)
        | inr fits ↦
            let (zs, e', e'') =
              >>=-eq-ok (sweep start end (x.1 + 1) xs) _ (rw (hit, fits, sweep) at e) in
            rw (← ok-injective e'') (
              front_Ascends cursor x.0 x.1 zs (ground arith) h.1
                (sweep-Ascends start end (x.1 + 1) (x.1 + 1) xs zs h.2 e'))
      ]
    ]

-- For completed chunks that are intervals, what `_gaps` returns holds exactly the blocks of the
-- target range that no completed chunk holds, as intervals in ascending order that do not overlap.
pub gaps-covers :
    (start end : ℕ) (completed found : List Interval)
    → All IsInterval completed
    → gaps (start, end) completed ≡ ok found
    → Ascends start found
      × ((n : ℕ) → covers found n ≡ (leb start n && leb n end && not (covers completed n)))
unfolding gaps
gaps-covers start end completed found h e =
    let (joined, e', e'') = >>=-eq-ok (coalesce (sorted completed)) _ e in
    let valid = sorted-IsInterval completed h in
    (
      sweep-Ascends start end start 0 joined found
          (coalesce-Ascends (sorted completed) joined valid e') e'',
      λ n.
          sweep-covers start end start 0 joined found n (omega arith)
            (coalesce-Ascends (sorted completed) joined valid e') e''
          ∙ ap (λ (r : Bool). leb start n && leb n end && not r)
              (coalesce-covers (sorted completed) joined n valid e' ∙ covers-sorted completed n),
    )
