-- ===== src/Base/Pigeonhole.antt =====
-- As many different numbers of a range as it has are all of them.
use Prim.Native.Nat.{ℕ, zero, suc, ◌+◌, ◌≤◌, ◌<◌}
use mathlib.Core.Path.{◌≡◌, refl}
use mathlib.Core.Logic.{inl, inr}
use mathlib.Core.List.{List, [], ◌∷◌}
use native.Mathlib.Omega.{arith}
use oddsfox_pipeline.Base.Tests.{◌==◌, ==_iff, Bool-cases}
use oddsfox_pipeline.Base.Lists.{length, All}
use oddsfox_pipeline.Base.Sets.{count, nat_eq}

-- How often the numbers from `low` up to, and without, `low + n` occur.
total : ℕ → ℕ → List ℕ → ℕ
total low zero xs = 0
total low (suc n) xs = count low xs + total (low + 1) n xs

total-cons_outside : (low n x : ℕ) (xs : List ℕ) → x < low → total low n (x ∷ xs) ≡ total low n xs
unfolding total count
total-cons_outside low zero x xs h = refl
total-cons_outside low (suc n) x xs h =
    ground (arith, total-cons_outside (low + 1) n x xs (ground arith))

total-cons :
    (low n x : ℕ) (xs : List ℕ) → low ≤ x → x < low + n → total low n (x ∷ xs) ≡ 1 + total low n xs
unfolding total count
total-cons low zero x xs h k = absurd (omega arith)
total-cons low (suc n) x xs h k = elim (Bool-cases (x == low)) [
  | inl e ↦ ground (arith, total-cons_outside (low + 1) n x xs (ground arith))
  | inr e ↦ ground (arith, total-cons (low + 1) n x xs (ground arith) (omega arith))
]

total-nil : (low n : ℕ) → total low n [] ≡ 0
unfolding total count
total-nil low zero = refl
total-nil low (suc n) = omega (arith, total-nil (low + 1) n)

total-length :
    (low n : ℕ) (xs : List ℕ) → All (λ x. (low ≤ x) × (x < low + n)) xs → total low n xs ≡ length xs
total-length low n [] h = total-nil low n
total-length low n (x ∷ xs) h =
    omega (arith, total-cons low n x xs h.0.0 h.0.1, total-length low n xs h.1)

total-le : (low n : ℕ) (xs : List ℕ) → ((k : ℕ) → count k xs ≤ 1) → total low n xs ≤ n
unfolding total
total-le low zero xs h = omega arith
total-le low (suc n) xs h = omega (arith, h low, total-le (low + 1) n xs h)

total-missing :
    (low n k : ℕ) (xs : List ℕ)
    → ((j : ℕ) → count j xs ≤ 1)
    → low ≤ k
    → k < low + n
    → total low n xs + 1 ≤ n + count k xs
unfolding total
total-missing low zero k xs h le lt = absurd (omega arith)
total-missing low (suc n) k xs h le lt = elim (Bool-cases (k == low)) [
  | inl e ↦ rw ((==_iff k low).0 e) (omega (arith, total-le (low + 1) n xs h))
  | inr e ↦ omega (arith, h low, total-missing (low + 1) n k xs h (ground arith) (omega arith))
]

pub pigeonhole :
    (low n k : ℕ) (xs : List ℕ)
    → All (λ x. (low ≤ x) × (x < low + n)) xs
    → ((j : ℕ) → count j xs ≤ 1)
    → length xs ≡ n
    → low ≤ k
    → k < low + n
    → count k xs ≡ 1
pigeonhole low n k xs all distinct full le lt =
    omega (arith, distinct k, total-length low n xs all, total-missing low n k xs distinct le lt)
