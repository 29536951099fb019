-- ===== src/Base/Intervals.antt =====
-- Inclusive intervals of block numbers: lists that follow one another without gap or overlap.
use Prim.Native.Nat.{ℕ, ◌+◌, ◌≤◌, ◌<◌}
use mathlib.Core.Path.{◌≡◌}
use mathlib.Core.Logic.{◌⊎◌, inl, inr}
use mathlib.Core.List.{List, [], ◌∷◌, ◌++◌}
use native.Mathlib.Omega.{arith}
use native.Mathlib.Decide.{dec_le}

abbrev pub Interval : Type 0
Interval = ℕ × ℕ

-- The intervals follow one another from block `a` up to, and without, block `b`.
abbrev pub Tiles : ℕ → List Interval → ℕ → Type 0
Tiles a [] b = a ≡ b
Tiles a ((from, to) ∷ rest) b = (from ≡ a) × (from ≤ to) × Tiles (to + 1) rest b

abbrev pub In : ℕ → List Interval → Type 0
In n [] = ⊥
In n ((from, to) ∷ rest) = (from ≤ n) × (n ≤ to) ⊎ In n rest

pub Tiles-le : (a b : ℕ) (xs : List Interval) → Tiles a xs b → a ≤ b
Tiles-le a b [] h = omega arith
Tiles-le a b (x ∷ xs) h = omega (arith, h.0, h.1, Tiles-le (x.1 + 1) b xs h.2)

pub Tiles-append :
    (a b c : ℕ) (xs ys : List Interval) → Tiles a xs b → Tiles b ys c → Tiles a (xs ++ ys) c
Tiles-append a b c [] ys h k = rw h k
Tiles-append a b c (x ∷ xs) ys h k = (h.0, h.1, Tiles-append (x.1 + 1) b c xs ys h.2 k)

-- What tiles a range holds every block of it.
pub Tiles-In : (a b n : ℕ) (xs : List Interval) → Tiles a xs b → a ≤ n → n < b → In n xs
Tiles-In a b n [] h le lt = absurd (omega arith)
Tiles-In a b n ((from, to) ∷ xs) h le lt = elim (dec_le n to) [
  | yes p ↦ inl (omega arith, p)
  | no p ↦ inr (Tiles-In (to + 1) b n xs h.2 (omega arith) lt)
]
