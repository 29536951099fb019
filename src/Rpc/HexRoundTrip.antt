-- ===== src/Rpc/HexRoundTrip.antt =====
-- A number written by `hex` is canonical, and is read back.
use Prim.Native.Char.{code}
use oddsfox_pipeline.Base.{
  String, codes, ℕ, zero, suc, ◌/◌, ◌%◌, ◌≤◌, ◌<◌, List, [], ◌∷◌, some, Bool, true, false, not,
  ◌&&◌, ◌||◌, ◌≡◌, refl, ap, ◌∙◌, inl, inr, arith, ltb, ◌==◌, Bool-cases, ==_iff,
}
use oddsfox_pipeline.Rpc.Hex.{
  is_hex_digit, digit_value, all_hex, hex_value, is_canonical, canonical_value, hex_quantity,
  digit_char, hex_digits, hex,
}

-- A test that all numbers below `n` pass.
all_below : (ℕ → Bool) → ℕ → Bool
all_below test zero = true
all_below test (suc n) = test n && all_below test n

below : (test : ℕ → Bool) (n d : ℕ) → all_below test n ≡ true → d < n → test d ≡ true
unfolding all_below
below test zero d h k = absurd (omega arith)
below test (suc n) d h k = elim (Bool-cases (d == n)) [
  | inl e ↦ rw ((==_iff d n).0 e) (ground arith)
  | inr e ↦ below test n d (ground arith) (ground arith)
]

digit_value-digit_char : (d : ℕ) → d < 16 → digit_value (code (digit_char d)) ≡ d
unfolding all_below
digit_value-digit_char d h =
    (==_iff _ _).0 (below (λ k. digit_value (code (digit_char k)) == k) 16 d refl h)

is_hex_digit-digit_char : (d : ℕ) → d < 16 → is_hex_digit (code (digit_char d)) ≡ true
unfolding all_below
is_hex_digit-digit_char d h = below (λ k. is_hex_digit (code (digit_char k))) 16 d refl h

digit_char_nonzero : (d : ℕ) → 0 < d → d < 16 → (code (digit_char d) == 48) ≡ false
unfolding all_below
digit_char_nonzero d h k =
    let one : (d == 0 || not (code (digit_char d) == 48)) ≡ true =
      below (λ k. k == 0 || not (code (digit_char k) == 48)) 16 d refl k in
    ground arith

one_digit : (n : ℕ) (rest : String) → hex_digits zero n rest ≡ String.◌∷◌ (digit_char (n % 16)) rest
unfolding hex_digits
one_digit n rest = refl

last_digit :
    (fuel n : ℕ) (rest : String)
    → ltb n 16 ≡ true
    → hex_digits (suc fuel) n rest ≡ String.◌∷◌ (digit_char (n % 16)) rest
unfolding hex_digits
last_digit fuel n rest e = rw (e, hex_digits) refl

more_digits :
    (fuel n : ℕ) (rest : String)
    → ltb n 16 ≡ false
    → hex_digits (suc fuel) n rest
      ≡ hex_digits fuel (n / 16) (String.◌∷◌ (digit_char (n % 16)) rest)
unfolding hex_digits
more_digits fuel n rest e = rw (e, hex_digits) refl

-- Reading the digits of `n` in front of `rest` gets to `n`, and then reads `rest`.
hex_value-hex_digits :
    (fuel n : ℕ) (rest : String)
    → n ≤ fuel
    → hex_value 0 (codes (hex_digits fuel n rest)) ≡ hex_value n (codes rest)
unfolding hex_value
hex_value-hex_digits zero n rest h = rw (one_digit n rest) (
    ap (λ k. hex_value k (codes rest))
      (let e = digit_value-digit_char (n % 16) (omega arith) in omega arith))
hex_value-hex_digits (suc fuel) n rest h = elim (Bool-cases (ltb n 16)) [
  | inl small ↦ rw (last_digit fuel n rest small) (
      ap (λ k. hex_value k (codes rest))
        (let e = digit_value-digit_char (n % 16) (omega arith) in
          let s : n < 16 = ground arith in omega arith))
  | inr large ↦ rw (more_digits fuel n rest large) (
      hex_value-hex_digits fuel (n / 16) (String.◌∷◌ (digit_char (n % 16)) rest) (ground arith)
      ∙ ap (λ k. hex_value k (codes rest))
          (let e = digit_value-digit_char (n % 16) (omega arith) in omega arith))
]

is_canonical-cons :
    (d : ℕ) (rest : List ℕ)
    → 0 < d
    → d < 16
    → all_hex rest ≡ true
    → is_canonical (code (digit_char d) ∷ rest) ≡ true
is_canonical-cons d [] p h r = is_hex_digit-digit_char d h
is_canonical-cons d (c ∷ rest) p h r = rw (is_hex_digit-digit_char d h, digit_char_nonzero d p h) r

-- With a positive number the first digit is not 0.
hex_digits-canonical :
    (fuel n : ℕ) (rest : String)
    → 0 < n
    → n ≤ fuel
    → all_hex (codes rest) ≡ true
    → is_canonical (codes (hex_digits fuel n rest)) ≡ true
unfolding all_hex
hex_digits-canonical zero n rest p h r = absurd (omega arith)
hex_digits-canonical (suc fuel) n rest p h r = elim (Bool-cases (ltb n 16)) [
  | inl small ↦
      rw (last_digit fuel n rest small)
        (is_canonical-cons (n % 16) (codes rest) (ground arith) (omega arith) r)
  | inr large ↦ rw (more_digits fuel n rest large) (
      hex_digits-canonical fuel (n / 16) (String.◌∷◌ (digit_char (n % 16)) rest) (ground arith)
        (ground arith) (rw (is_hex_digit-digit_char (n % 16) (omega arith)) r))
]

-- A block number written as a quantity is read back as the same number.
pub hex_quantity-hex : (n : ℕ) → hex_quantity (codes (hex n)) ≡ some n
unfolding hex_quantity hex canonical_value
hex_quantity-hex zero = refl
hex_quantity-hex (suc n) =
    rw (hex_digits-canonical (suc n) (suc n) "" (omega arith) (omega arith) refl)
      (ap some (hex_value-hex_digits (suc n) (suc n) "" (omega arith)))
