-- ===== src/Books/Quote.antt =====
-- `Book.quote` of books.py: a walk over the displayed depth, from the best price on. The quantity is a
-- parsed number, and `average_price`, the gross amount over the available quantity, is left to them.
use oddsfox_pipeline.Base.{
  ℕ, ◌+◌, ◌*◌, ◌-◌, List, [], ◌∷◌, Option, none, some, true, false, Result, ok, err, min, ◌==◌,
  if◌then◌else◌,
}
use oddsfox_pipeline.Books.Row.{Row, BookSide, buy, sell, Level, sort_levels}
use oddsfox_pipeline.Books.Book.{Book, Status, status}
use oddsfox_pipeline.Books.Apply.{is_valid}

pub data QuoteStatus : Type 0 where
  unavailable partial complete : QuoteStatus

pub record Quote : Type 0 where
  pub requested_quantity : ℕ
  pub available_quantity : ℕ
  pub gross_amount : ℕ
  pub marginal_price : Option ℕ
  pub quote_status : QuoteStatus
  pub status : Status
  pub state : Option Row
  pub snapshot_at : Option ℕ

pub data QuoteError : Type 0 where
  not_positive : QuoteError

-- The keys of `result` that the loop changes.
pub record Fill : Type 0 where
  pub available : ℕ
  pub gross : ℕ
  pub marginal : Option ℕ

abbrev pub no_fill : Fill
no_fill = record { available = 0; gross = 0; marginal = none }

unfoldable pub take_level : ℕ → Level → Fill → Fill
take_level quantity (price, depth) f =
    let taken = min (quantity - f.available) depth in
    record {
      available = f.available + taken;
      gross = f.gross + taken * price;
      marginal = some price;
    }

unfoldable pub walk : ℕ → List Level → Fill → Fill
unfolding take_level
walk quantity [] f = f
walk quantity (level ∷ levels) f =
    let f' = take_level quantity level f in
    elim (f'.available == quantity) [ true ↦ f' | false ↦ walk quantity levels f' ]

-- `sorted(depth, reverse=side == "SELL")`
unfoldable pub depth_of : BookSide → Book → List Level
depth_of buy b = sort_levels false b.asks
depth_of sell b = sort_levels true b.bids

abbrev pub status_of : ℕ → ℕ → QuoteStatus
status_of quantity available =
    if available == 0 then unavailable else if available == quantity then complete else partial

abbrev pub quote_of : Book → ℕ → Fill → Quote
quote_of b quantity f = record {
  requested_quantity = quantity;
  available_quantity = f.available;
  gross_amount = f.gross;
  marginal_price = f.marginal;
  quote_status = status_of quantity f.available;
  status = status b;
  state = b.last;
  snapshot_at = b.snapshot_at;
}

unfoldable pub quote : BookSide → ℕ → Book → Result QuoteError Quote
unfolding walk depth_of
quote side quantity b =
    if quantity == 0
    then err not_positive
    else ok (
        quote_of b quantity
          (if is_valid (status b) then walk quantity (depth_of side b) no_fill else no_fill))
