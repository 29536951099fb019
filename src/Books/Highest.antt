-- ===== src/Books/Highest.antt =====
-- A SELL quote takes what is bid, up to the quantity, and for the highest gross amount.
use native.Mathlib.Nat.{add-mul, mul-le-mul_right}
use oddsfox_pipeline.Base.{
  ℕ, ◌+◌, ◌*◌, ◌-◌, ◌≤◌, ◌<◌, List, [], ◌∷◌, true, ◌≡◌, refl, inl, inr, ok, min, arith, leb,
  Bool-cases,
}
use oddsfox_pipeline.Books.Row.{sell, Level, insert_level, sort_levels}
use oddsfox_pipeline.Books.Book.{Book, valid, status}
use oddsfox_pipeline.Books.Apply.{total_quantity}
use oddsfox_pipeline.Books.Quote.{Quote, depth_of, quote_of, quote}
use oddsfox_pipeline.Books.Quoted.{cost, quote-cost, IsTaking, taken, paid}

-- The prices do not rise, from `high` on.
abbrev Falls : ℕ → List Level → Type 0
Falls high [] = Unit
Falls high ((price, depth) ∷ levels) = (price ≤ high) × Falls price levels

-- `k` units are sold at `high`, beside the `n` that the walk sells.
swap_in :
    (x k' k t price high : ℕ)
    → x + k' ≤ k + t
    → price ≤ high
    → x * price + k' * price ≤ k * high + t * price
swap_in x k' k t price high h h' =
    omega (
      arith,
      add-mul x k' price,
      add-mul k t price,
      mul-le-mul_right price h,
      mul-le-mul_right k h',
    )

paid-le-cost :
    (high n k : ℕ) (xs : List ℕ) (levels : List Level)
    → Falls high levels
    → IsTaking xs levels
    → taken xs ≤ n + k
    → paid xs levels ≤ k * high + cost n levels
unfolding cost taken paid
paid-le-cost high n k [] levels down take h = omega arith
paid-le-cost high n k (x ∷ xs) (l ∷ levels) down take h =
    let t = min n l.1 in
    let k' = taken xs - (n - t) in
    let rest : paid xs levels ≤ k' * l.0 + cost (n - t) levels =
      paid-le-cost l.0 (n - t) k' xs levels down.1 take.1 (omega arith) in
    let room : x + k' ≤ k + t = omega (arith, take.0, h) in
    omega (arith, rest, swap_in x k' k t l.0 high room down.0)
paid-le-cost high n k (x ∷ xs) [] down take h = elim take [ ]

Falls-weaken :
    (low high : ℕ) (levels : List Level) → low ≤ high → Falls low levels → Falls high levels
Falls-weaken low high [] h down = tt
Falls-weaken low high (l ∷ levels) h down = (omega (arith, down.0), down.1)

insert_level-Falls :
    (high : ℕ) (level : Level) (levels : List Level)
    → level.0 ≤ high
    → Falls high levels
    → Falls high (insert_level true level levels)
unfolding insert_level
insert_level-Falls high level [] h down = (h, tt)
insert_level-Falls high level (next ∷ levels) h down = elim (Bool-cases (leb next.0 level.0)) [
  | inl first ↦ rw first (h, (ground arith, down.1))
  | inr later ↦ rw later (down.0, insert_level-Falls next.0 level levels (ground arith) down.1)
]

-- No price is above this.
abbrev price_bound : List Level → ℕ
price_bound [] = 0
price_bound (level ∷ levels) = level.0 + price_bound levels

sort_levels-Falls : (levels : List Level) → Falls (price_bound levels) (sort_levels true levels)
unfolding sort_levels
sort_levels-Falls [] = tt
sort_levels-Falls (level ∷ levels) =
    insert_level-Falls (price_bound (level ∷ levels)) level (sort_levels true levels) (omega arith)
      (Falls-weaken (price_bound levels) (price_bound (level ∷ levels)) (sort_levels true levels)
        (omega arith) (sort_levels-Falls levels))

total_quantity-insert_level :
    (level : Level) (levels : List Level)
    → total_quantity (insert_level true level levels) ≡ level.1 + total_quantity levels
unfolding total_quantity insert_level
total_quantity-insert_level level [] = refl
total_quantity-insert_level level (next ∷ levels) =
    ground (arith, total_quantity-insert_level level levels)

total_quantity-sort_levels :
    (levels : List Level) → total_quantity (sort_levels true levels) ≡ total_quantity levels
unfolding total_quantity sort_levels
total_quantity-sort_levels [] = refl
total_quantity-sort_levels (level ∷ levels) = omega (
  arith,
  total_quantity-insert_level level (sort_levels true levels),
  total_quantity-sort_levels levels,
)

-- A SELL of a positive quantity to a valid book is quoted; the quote is for as much as the bids hold,
-- up to the quantity, and no other way to sell at most the quantity to the bids grosses more.
pub quote-highest :
    (quantity : ℕ) (b : Book) (xs : List ℕ)
    → 0 < quantity
    → status b ≡ valid
    → IsTaking xs (sort_levels true b.bids)
    → taken xs ≤ quantity
    → (q : Quote) × (quote sell quantity b ≡ ok q)
      × (q.available_quantity ≡ min quantity (total_quantity b.bids))
      × (paid xs (sort_levels true b.bids) ≤ q.gross_amount)
unfolding depth_of
quote-highest quantity b xs pos v take few =
    let (f, e, available, gross) = quote-cost sell quantity b pos v in
    let most =
      paid-le-cost (price_bound b.bids) quantity 0 xs (sort_levels true b.bids)
        (sort_levels-Falls b.bids) take (omega arith) in
    (
      quote_of b quantity f,
      e,
      omega (arith, available, total_quantity-sort_levels b.bids),
      omega (arith, gross, most),
    )
