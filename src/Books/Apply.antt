-- ===== src/Books/Apply.antt =====
-- `Book.apply` of books.py.
use oddsfox_pipeline.Base.{
  ℕ, ◌+◌, ◌-◌, String, List, [], ◌∷◌, Option, none, some, Bool, true, false, ◌&&◌, ◌||◌, ◌==◌,
  str_eq, if◌then◌else◌,
}
use oddsfox_pipeline.Books.Row.{
  Row, RowKind, snapshot, price_change, tick_size_change, market_resolved, reset, buy, sell, Level,
}
use oddsfox_pipeline.Books.Book.{Book, Status, valid, status, best_bid, best_ask, archive_order}

-- `side.get(price)`, `side[price] = quantity` and `side.pop(price, None)`.
unfoldable pub level_at : ℕ → List Level → Option ℕ
level_at price [] = none
level_at price ((p, q) ∷ levels) = if p == price then some q else level_at price levels

unfoldable pub set_level : ℕ → ℕ → List Level → List Level
set_level price quantity [] = (price, quantity) ∷ []
set_level price quantity ((p, q) ∷ levels) =
    if p == price then (price, quantity) ∷ levels else (p, q) ∷ set_level price quantity levels

unfoldable pub pop_level : ℕ → List Level → List Level
pop_level price [] = []
pop_level price ((p, q) ∷ levels) = if p == price then levels else (p, q) ∷ pop_level price levels

-- `{r["price"]: r["quantity"] for r in levels}`, onto a dict.
unfoldable pub add_levels : List Level → List Level → List Level
add_levels dict [] = dict
add_levels dict ((price, quantity) ∷ levels) = add_levels (set_level price quantity dict) levels

unfoldable pub change_side : ℕ → ℕ → List Level → List Level
unfolding set_level pop_level
change_side price quantity side =
    if quantity == 0 then pop_level price side else set_level price quantity side

-- `row.get("reason") or "gap"`
abbrev pub reason_or_gap : Option String → String
reason_or_gap none = "gap"
reason_or_gap (some reason) = if str_eq reason "" then "gap" else reason

abbrev pub cleared : Book → String → Bool → Book
cleared b reason terminal = record b {
  bids = [];
  asks = [];
  initialized = false;
  reason = reason;
  tick_size = none;
  terminal_seen = b.terminal_seen || terminal;
}

abbrev pub or_else : Option ℕ → Option ℕ → Option ℕ
or_else none b = b
or_else (some a) b = some a

-- The state that the row leaves, but for `last`.
unfoldable pub apply_kind : RowKind → Row → Book → Book
unfolding change_side add_levels
apply_kind reset row b = cleared b (reason_or_gap row.reason) false
apply_kind market_resolved row b = cleared b (reason_or_gap row.reason) true
apply_kind (snapshot bids asks) row b = record b {
  bids = add_levels [] bids;
  asks = add_levels [] asks;
  initialized = true;
  snapshot_at = some row.received_at;
  tick_size = or_else row.tick_size b.tick_size;
}
apply_kind tick_size_change row b = record b { tick_size = row.tick_size }
apply_kind (price_change buy price quantity) row b =
    if b.initialized then record b { bids = change_side price quantity b.bids } else b
apply_kind (price_change sell price quantity) row b =
    if b.initialized then record b { asks = change_side price quantity b.asks } else b

abbrev pub is_valid : Status → Bool
is_valid valid = true
is_valid _ = false

abbrev pub quantity_or_zero : Option ℕ → ℕ
quantity_or_zero none = 0
quantity_or_zero (some q) = q

-- (added, removed): `max(0, quantity - old)` and `max(0, old - quantity)`.
abbrev pub displayed : RowKind → Book → Bool → Option (ℕ × ℕ)
displayed (price_change buy price quantity) b both_valid =
    let old = quantity_or_zero (level_at price b.bids) in
    if b.initialized && both_valid then some (quantity - old, old - quantity) else none
displayed (price_change sell price quantity) b both_valid =
    let old = quantity_or_zero (level_at price b.asks) in
    if b.initialized && both_valid then some (quantity - old, old - quantity) else none
displayed _ b both_valid = none

unfoldable pub total_quantity : List Level → ℕ
total_quantity [] = 0
total_quantity ((p, q) ∷ levels) = q + total_quantity levels

-- The derived columns of a state row. The midpoint is given by its double, the sum of the best
-- prices, and the float imbalance by the two quantities that it is computed from.
pub record BookState : Type 0 where
  pub row : Row
  pub snapshot_at : Option ℕ
  pub status : Status
  pub tick_size : Option ℕ
  pub best_bid : Option ℕ
  pub best_ask : Option ℕ
  pub bid_quantity : ℕ
  pub ask_quantity : ℕ
  pub displayed_change : Option (ℕ × ℕ)

unfoldable pub apply : Row → Book → BookState × Book
unfolding apply_kind archive_order status total_quantity level_at
apply raw b =
    let (row, ordered) = archive_order b raw in
    let after = record (apply_kind row.kind row ordered) { last = some row } in
    let both_valid = is_valid (status ordered) && is_valid (status after) in
    (
      record {
        row = row;
        snapshot_at = after.snapshot_at;
        status = status after;
        tick_size = after.tick_size;
        best_bid = best_bid after.bids;
        best_ask = best_ask after.asks;
        bid_quantity = total_quantity after.bids;
        ask_quantity = total_quantity after.asks;
        displayed_change = displayed row.kind ordered both_valid;
      },
      after,
    )

-- The rows of one token and stream, in the order of their receipt.
unfoldable pub replay : List Row → Book → Book
unfolding apply
replay [] b = b
replay (row ∷ rows) b = replay rows (apply row b).1
