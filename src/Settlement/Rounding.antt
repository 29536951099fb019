-- ===== src/Settlement/Rounding.antt =====
-- The price of a fill is the nearest multiple of 10^-18, ties to even, and lies in (0, 1].
use native.Mathlib.Nat.{div-add-mod, mod-lt}
use oddsfox_pipeline.Base.{
  ℕ, ◌+◌, ◌*◌, ◌/◌, ◌%◌, ◌≤◌, ◌<◌, ◌≡◌, inl, inr, true, false, ok, arith, Bool-cases, ltb, ◌==◌,
  ◌&&◌, ◌||◌,
}
use oddsfox_pipeline.Settlement.Amounts.{price_scale, round_half_even, decimal_price}

-- `q` is `n / d` rounded to the nearest number, and to the even one of two that are as near.
pub record IsNearestEven (n d q : ℕ) : Type 0 where
  pub not_above : 2 * (q * d) ≤ 2 * n + d
  pub not_below : 2 * n ≤ 2 * (q * d) + d
  pub tie_above : 2 * (q * d) ≡ 2 * n + d → q % 2 ≡ 0
  pub tie_below : 2 * n ≡ 2 * (q * d) + d → q % 2 ≡ 0

round_up-IsNearestEven :
    (n d q r : ℕ)
    → q * d + r ≡ n
    → r < d
    → ((ltb d (r * 2) || (r * 2 == d && q % 2 == 1)) ≡ true)
    → IsNearestEven n d (q + 1)
round_up-IsNearestEven n d q r e h t = ground arith

round_down-IsNearestEven :
    (n d q r : ℕ)
    → q * d + r ≡ n
    → r < d
    → ((ltb d (r * 2) || (r * 2 == d && q % 2 == 1)) ≡ false)
    → IsNearestEven n d q
round_down-IsNearestEven n d q r e h t = ground arith

-- With positive shares the rounding is the nearest, ties to even.
pub round_half_even-IsNearestEven :
    (scale collateral shares : ℕ)
    → 0 < shares
    → IsNearestEven (collateral * scale) shares (round_half_even scale collateral shares)
unfolding round_half_even
round_half_even-IsNearestEven scale collateral shares h =
    let n = collateral * scale in
    let e : n / shares * shares + n % shares ≡ n = omega (arith, div-add-mod n shares) in
    let small : n % shares < shares = mod-lt n h in
    elim (Bool-cases
      (ltb shares (n % shares * 2) || (n % shares * 2 == shares && n / shares % 2 == 1))) [
        | inl t ↦ rw t (round_up-IsNearestEven n shares (n / shares) (n % shares) e small t)
        | inr t ↦ rw t (round_down-IsNearestEven n shares (n / shares) (n % shares) e small t)
      ]

nearest-le : (scale c d q : ℕ) → 0 < d → c ≤ d → IsNearestEven (c * scale) d q → q ≤ scale
nearest-le scale c d q h le near = grind (arith, near.not_above)

-- Where 0 < collateral ≤ shares, the price is `collateral * 10^18 / shares` rounded to the nearest
-- number, ties to even, and is at most 10^18, which stands for one.
pub decimal_price-IsNearestEven :
    (collateral shares : ℕ)
    → 0 < collateral
    → collateral ≤ shares
    → (q : ℕ) × (decimal_price collateral shares ≡ ok q)
      × IsNearestEven (collateral * price_scale) shares q
      × (q ≤ price_scale)
unfolding decimal_price
decimal_price-IsNearestEven collateral shares pos le =
    let near = round_half_even-IsNearestEven price_scale collateral shares (omega arith) in
    (
      round_half_even price_scale collateral shares,
      ground arith,
      near,
      nearest-le price_scale collateral shares _ (omega arith) le near,
    )

-- An accepted price had 0 < collateral ≤ shares.
pub decimal_price_inputs :
    (collateral shares q : ℕ)
    → decimal_price collateral shares ≡ ok q
    → (0 < collateral) × (collateral ≤ shares)
unfolding decimal_price
decimal_price_inputs collateral shares q h = ground arith
