-- ===== src/Books/Depth.antt =====
-- One side of a book: each price once, with a positive quantity, and what the updates do to it.
use oddsfox_pipeline.Base.{
  ℕ, ◌<◌, List, [], ◌∷◌, none, some, ◌≡◌, refl, inl, inr, arith, Bool-cases, ◌==◌, if◌then◌else◌,
  All,
}
use oddsfox_pipeline.Books.Row.{Level}
use oddsfox_pipeline.Books.Apply.{level_at, set_level, pop_level, add_levels, change_side}

-- Each price is listed once, with a positive quantity.
abbrev pub IsDepth : List Level → Type 0
IsDepth [] = Unit
IsDepth ((p, q) ∷ levels) = (0 < q) × (level_at p levels ≡ none) × IsDepth levels

pub level_at-set_level :
    (price j quantity : ℕ) (levels : List Level)
    → level_at j (set_level price quantity levels)
      ≡ (if price == j then some quantity else level_at j levels)
unfolding level_at set_level
level_at-set_level price j quantity [] = refl
level_at-set_level price j quantity (l ∷ levels) =
    ground (arith, level_at-set_level price j quantity levels)

level_at-pop_level :
    (price j : ℕ) (levels : List Level)
    → IsDepth levels
    → level_at j (pop_level price levels) ≡ (if price == j then none else level_at j levels)
unfolding level_at pop_level
level_at-pop_level price j [] h = ground arith
level_at-pop_level price j ((p, q) ∷ levels) h = elim (Bool-cases (p == price)) [
  | inl same ↦
      let e : p ≡ price = ground arith in
      let gone : level_at price levels ≡ none = rw (← e) h.1 in ground (arith, e)
  | inr other ↦ ground (arith, level_at-pop_level price j levels h.2)
]

pub level_at-change_side :
    (price quantity j : ℕ) (levels : List Level)
    → IsDepth levels
    → level_at j (change_side price quantity levels)
      ≡ (if price == j then (if quantity == 0 then none else some quantity) else level_at j levels)
unfolding change_side
level_at-change_side price quantity j levels h =
    ground (arith, level_at-set_level price j quantity levels, level_at-pop_level price j levels h)

set_level-IsDepth :
    (price quantity : ℕ) (levels : List Level)
    → 0 < quantity
    → IsDepth levels
    → IsDepth (set_level price quantity levels)
unfolding set_level level_at
set_level-IsDepth price quantity [] pos h = (pos, refl, tt)
set_level-IsDepth price quantity ((p, q) ∷ levels) pos h = elim (Bool-cases (p == price)) [
  | inl same ↦ let e : p ≡ price = ground arith in rw same (pos, rw (← e) h.1, h.2)
  | inr other ↦ rw other (
    h.0,
    ground (arith, level_at-set_level price p quantity levels),
    set_level-IsDepth price quantity levels pos h.2,
  )
]

pop_level-IsDepth :
    (price : ℕ) (levels : List Level) → IsDepth levels → IsDepth (pop_level price levels)
unfolding pop_level level_at
pop_level-IsDepth price [] h = tt
pop_level-IsDepth price ((p, q) ∷ levels) h = elim (Bool-cases (p == price)) [
  | inl same ↦ rw same h.2
  | inr other ↦ rw other (
    h.0,
    ground (arith, level_at-pop_level price p levels h.2),
    pop_level-IsDepth price levels h.2,
  )
]

pub change_side-IsDepth :
    (price quantity : ℕ) (levels : List Level)
    → IsDepth levels
    → IsDepth (change_side price quantity levels)
unfolding change_side
change_side-IsDepth price quantity levels h = elim (Bool-cases (quantity == 0)) [
  | inl zero_quantity ↦ rw zero_quantity (pop_level-IsDepth price levels h)
  | inr some_quantity ↦ rw some_quantity (set_level-IsDepth price quantity levels (ground arith) h)
]

abbrev pub IsPositive : Level → Type 0
IsPositive (price, quantity) = 0 < quantity

pub add_levels-IsDepth :
    (dict levels : List Level)
    → IsDepth dict
    → All IsPositive levels
    → IsDepth (add_levels dict levels)
unfolding add_levels
add_levels-IsDepth dict [] h k = h
add_levels-IsDepth dict ((p, q) ∷ levels) h k =
    add_levels-IsDepth (set_level p q dict) levels (set_level-IsDepth p q dict k.0 h) k.1
