-- ===== src/Base/Sets.antt =====
-- Equality as an interface, and lists as sets: what `in`, `set(...)` and `dict.fromkeys(...)` do.
use Prim.Native.Nat.{ℕ, ◌+◌, ◌≤◌, min}
use Prim.Native.String.{String}
use mathlib.Core.Path.{◌≡◌, refl, ap, sym, ◌∙◌}
use mathlib.Core.Logic.{◌↔◌, inl, inr}
use mathlib.Core.Bool.{Bool, true, false, ◌&&◌, ◌||◌}
use mathlib.Core.List.{List, [], ◌∷◌, ◌++◌}
use native.Mathlib.Omega.{arith}
use text.Mathlib.TextEquality.{eq_iff}
use oddsfox_pipeline.Base.Tests.{◌==◌, ==_iff, str_eq, if◌then◌else◌, Bool-cases}
use oddsfox_pipeline.Base.Lists.{length}

pub record Eq {ℓ} (A : Type ℓ) : Type ℓ where
  pub beq : A → A → Bool
  pub beq_iff : (a b : A) → (beq a b ≡ true) ↔ (a ≡ b)

instance abbrev pub nat_eq : Eq ℕ
nat_eq = record { beq = ◌==◌; beq_iff = ==_iff }

instance abbrev pub string_eq : Eq String
string_eq = record { beq = str_eq; beq_iff = eq_iff }

module _ {ℓ κ} {A : Type ℓ} {B : Type κ} ⦃e : Eq A⦄ ⦃f : Eq B⦄ where
  abbrev pub pair_beq : A × B → A × B → Bool
  pair_beq p q = e.beq p.0 q.0 && f.beq p.1 q.1

  pub pair_beq_iff : (p q : A × B) → (pair_beq p q ≡ true) ↔ (p ≡ q)
  pair_beq_iff (a, b) (c, d) = (
    λ h.
        (let same : a ≡ c = (e.beq_iff a c).0 (ground arith) in
          let same' : b ≡ d = (f.beq_iff b d).0 (ground arith) in cc),
    λ p.
        (let same = (e.beq_iff a c).1 (ap (λ x. x.0) p) in
          let same' = (f.beq_iff b d).1 (ap (λ x. x.1) p) in ground arith),
  )

  instance abbrev pub pair_eq : Eq (A × B)
  pair_eq = record { beq = pair_beq; beq_iff = pair_beq_iff }

module _ {ℓ} {A : Type ℓ} ⦃e : Eq A⦄ where
  unfoldable pub count : A → List A → ℕ
  count a [] = 0
  count a (x ∷ xs) = (if e.beq x a then 1 else 0) + count a xs

  unfoldable pub contains : A → List A → Bool
  contains a [] = false
  contains a (x ∷ xs) = e.beq x a || contains a xs

  unfoldable pub remove : A → List A → List A
  remove a [] = []
  remove a (x ∷ xs) = let rest = remove a xs in if e.beq x a then rest else x ∷ rest

  -- `dict.fromkeys(xs)`: the first of equal elements stays.
  unfoldable pub from_keys : List A → List A
  unfolding remove
  from_keys [] = []
  from_keys (x ∷ xs) = x ∷ remove x (from_keys xs)

  -- `len(set(xs))`
  abbrev pub set_size : List A → ℕ
  set_size xs = length (from_keys xs)

  pub beq_refl : (a : A) → e.beq a a ≡ true
  beq_refl a = (e.beq_iff a a).1 refl

  pub count-append : (a : A) (xs ys : List A) → count a (xs ++ ys) ≡ count a xs + count a ys
  unfolding count
  count-append a [] ys = omega arith
  count-append a (x ∷ xs) ys = omega (arith, count-append a xs ys)

  pub contains-count : (a : A) (xs : List A) → contains a xs ≡ false → count a xs ≡ 0
  unfolding contains count
  contains-count a [] h = refl
  contains-count a (x ∷ xs) h = ground (arith, contains-count a xs)

  length-remove : (a : A) (xs : List A) → length (remove a xs) + count a xs ≡ length xs
  unfolding remove count
  length-remove a [] = omega arith
  length-remove a (x ∷ xs) = ground (arith, length-remove a xs)

  count-remove :
      (a b : A) (xs : List A) → count b (remove a xs) ≡ (if e.beq a b then 0 else count b xs)
  unfolding remove count
  count-remove a b [] = ground arith
  count-remove a b (x ∷ xs) =
      ground (arith, count-remove a b xs, e.beq_iff x a, e.beq_iff a b, e.beq_iff x b, beq_refl b)

  pub count-from_keys : (a : A) (xs : List A) → count a (from_keys xs) ≡ min 1 (count a xs)
  unfolding from_keys count
  count-from_keys a [] = omega arith
  count-from_keys a (x ∷ xs) = ground (arith, count-remove x a (from_keys xs), count-from_keys a xs)

  pub length-from_keys : (xs : List A) → length (from_keys xs) ≤ length xs
  unfolding from_keys
  length-from_keys [] = omega arith
  length-from_keys (x ∷ xs) = omega (arith, length-remove x (from_keys xs), length-from_keys xs)

  -- A list as long as its set holds no element twice.
  pub from_keys-distinct :
      (a : A) (xs : List A) → length (from_keys xs) ≡ length xs → count a xs ≤ 1
  unfolding from_keys count
  from_keys-distinct a [] h = omega arith
  from_keys-distinct a (x ∷ xs) h =
      let shorter = length-from_keys xs in
      let removed = length-remove x (from_keys xs) in
      let rest = from_keys-distinct a xs (omega arith) in
      let gone : count x xs ≡ 0 = omega (arith, count-from_keys x xs) in
      elim (Bool-cases (e.beq x a)) [
        | inl same ↦
            let e' : x ≡ a = (e.beq_iff x a).0 same in
            let gone' : count a xs ≡ 0 = ap (λ y. count y xs) (sym e') ∙ gone in
            rw same (omega (arith, gone'))
        | inr other ↦ rw other (omega (arith, rest))
      ]
