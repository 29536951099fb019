-- ===== src/Books/Quoted.antt =====
-- A quote takes what is displayed, up to the quantity, and a BUY takes it at the lowest cost.
use oddsfox_pipeline.Base.{
  ℕ, ◌+◌, ◌*◌, ◌-◌, ◌≤◌, ◌<◌, List, [], ◌∷◌, false, ◌≡◌, refl, ap, ◌∙◌, inl, inr, ok, min, arith,
  ◌==◌, Bool-cases,
}
use oddsfox_pipeline.Books.Row.{BookSide, Level}
use oddsfox_pipeline.Books.Book.{Book, valid, status}
use oddsfox_pipeline.Books.Apply.{total_quantity}
use oddsfox_pipeline.Books.Quote.{Fill, no_fill, take_level, walk, depth_of, quote_of, quote}

-- What the first `n` of the depth cost.
unfoldable pub cost : ℕ → List Level → ℕ
cost n [] = 0
cost n ((price, depth) ∷ levels) = min n depth * price + cost (n - min n depth) levels

cost-zero : (levels : List Level) → cost 0 levels ≡ 0
unfolding cost
cost-zero [] = refl
cost-zero (l ∷ levels) = ground (arith, cost-zero levels)

walk-cost :
    (quantity : ℕ) (levels : List Level) (f : Fill)
    → f.available ≤ quantity
    → ((walk quantity levels f).available
        ≡ f.available + min (quantity - f.available) (total_quantity levels))
      × ((walk quantity levels f).gross ≡ f.gross + cost (quantity - f.available) levels)
unfolding walk take_level total_quantity cost
walk-cost quantity [] f h = (omega arith, omega arith)
walk-cost quantity (l ∷ levels) f h =
    let f' = take_level quantity l f in
    elim (Bool-cases (f'.available == quantity)) [
      | inl filled ↦
          let spent : cost (quantity - f.available - min (quantity - f.available) l.1) levels ≡ 0 =
            ap (λ r. cost r levels) (ground arith) ∙ cost-zero levels in
          (rw (filled, walk) (ground arith), rw (filled, walk) (ground (arith, spent)))
      | inr wanting ↦
          let (more, dearer) = walk-cost quantity levels f' (omega arith) in
          let left : cost (quantity - f'.available) levels
              ≡ cost (quantity - f.available - min (quantity - f.available) l.1) levels =
            ap (λ r. cost r levels) (ground arith) in
          (
            rw (wanting, walk) (ground (arith, more)),
            rw (wanting, walk) (ground (arith, dearer, left)),
          )
    ]

pub quote-cost :
    (side : BookSide) (quantity : ℕ) (b : Book)
    → 0 < quantity
    → status b ≡ valid
    → (f : Fill) × (quote side quantity b ≡ ok (quote_of b quantity f))
      × (f.available ≡ min quantity (total_quantity (depth_of side b)))
      × (f.gross ≡ cost quantity (depth_of side b))
unfolding quote
quote-cost side quantity b pos v =
    let (available, gross) = walk-cost quantity (depth_of side b) no_fill (omega arith) in
    let positive : quantity == 0 ≡ false = ground arith in
    let whole : cost (quantity - 0) (depth_of side b) ≡ cost quantity (depth_of side b) =
      ap (λ n. cost n (depth_of side b)) (omega arith) in
    (
      walk quantity (depth_of side b) no_fill,
      rw (positive, v) refl,
      omega (arith, available),
      omega (arith, gross, whole),
    )

-- Other amounts taken of the levels, each at most what its level displays.
abbrev pub IsTaking : List ℕ → List Level → Type 0
IsTaking [] levels = Unit
IsTaking (x ∷ xs) [] = ⊥
IsTaking (x ∷ xs) ((price, depth) ∷ levels) = (x ≤ depth) × IsTaking xs levels

unfoldable pub taken : List ℕ → ℕ
taken [] = 0
taken (x ∷ xs) = x + taken xs

unfoldable pub paid : List ℕ → List Level → ℕ
paid [] levels = 0
paid (x ∷ xs) [] = 0
paid (x ∷ xs) ((price, depth) ∷ levels) = x * price + paid xs levels

-- The prices do not fall, from `low` on.
abbrev pub Rises : ℕ → List Level → Type 0
Rises low [] = Unit
Rises low ((price, depth) ∷ levels) = (low ≤ price) × Rises price levels
