-- ===== src/Books/Book.antt =====
-- `class Book` of books.py: its state, `status` and `_archive_order`.
use oddsfox_pipeline.Base.{
  ℕ, String, List, [], ◌∷◌, Option, none, some, Bool, true, false, not, ◌&&◌, ◌||◌, min, max, ltb,
  leb, ◌==◌, str_eq, if◌then◌else◌,
}
use oddsfox_pipeline.Books.Row.{
  Row, RowKind, snapshot, price_change, tick_size_change, market_resolved, reset, BookSide, buy,
  sell, Level,
}

pub record Book : Type 0 where
  pub bids : List Level
  pub asks : List Level
  pub initialized : Bool
  pub snapshot_at : Option ℕ
  pub last : Option Row
  pub reason : String
  pub tick_size : Option ℕ
  pub terminal_seen : Bool
  pub archive_highwater : Option ℕ
  pub archive_previous : Option Row
  pub archive_uncertain : Bool

abbrev pub new_book : Book
new_book = record {
  bids = [];
  asks = [];
  initialized = false;
  snapshot_at = none;
  last = none;
  reason = "missing_initial_snapshot";
  tick_size = none;
  terminal_seen = false;
  archive_highwater = none;
  archive_previous = none;
  archive_uncertain = false;
}

-- `max(self.bids)` and `min(self.asks)`, of a dict's keys, from a first one on.
unfoldable pub max_price : ℕ → List Level → ℕ
max_price p [] = p
max_price p ((q, _) ∷ levels) = max_price (max p q) levels

unfoldable pub min_price : ℕ → List Level → ℕ
min_price p [] = p
min_price p ((q, _) ∷ levels) = min_price (min p q) levels

abbrev pub best_bid : List Level → Option ℕ
best_bid [] = none
best_bid ((p, _) ∷ levels) = some (max_price p levels)

abbrev pub best_ask : List Level → Option ℕ
best_ask [] = none
best_ask ((p, _) ∷ levels) = some (min_price p levels)

-- `reason` carries what a reset or the missing first snapshot left.
pub data Status : Type 0 where
  resolved empty one_sided crossed valid : Status
  waiting : String → Status

unfoldable pub depth_status : Option ℕ → Option ℕ → Status
depth_status none none = empty
depth_status none (some ask) = one_sided
depth_status (some bid) none = one_sided
depth_status (some bid) (some ask) = if leb ask bid then crossed else valid

unfoldable pub status : Book → Status
unfolding depth_status
status b =
    if b.terminal_seen
    then resolved
    else if not b.initialized
    then waiting b.reason
    else depth_status (best_bid b.bids) (best_ask b.asks)

abbrev pub option_eq {ℓ} : {A : Type ℓ} → (A → A → Bool) → Option A → Option A → Bool
option_eq eq none none = true
option_eq eq (some a) (some b) = eq a b
option_eq eq _ _ = false

abbrev pub levels_eq : List Level → List Level → Bool
levels_eq [] [] = true
levels_eq ((p, q) ∷ xs) ((r, s) ∷ ys) = p == r && q == s && levels_eq xs ys
levels_eq _ _ = false

abbrev pub side_eq : BookSide → BookSide → Bool
side_eq buy buy = true
side_eq sell sell = true
side_eq _ _ = false

abbrev pub kind_eq : RowKind → RowKind → Bool
kind_eq (snapshot bids asks) (snapshot bids' asks') = levels_eq bids bids' && levels_eq asks asks'
kind_eq (price_change side p q) (price_change side' p' q') =
    side_eq side side' && p == p' && q == q'
kind_eq tick_size_change tick_size_change = true
kind_eq market_resolved market_resolved = true
kind_eq reset reset = true
kind_eq _ _ = false

abbrev pub is_reset : RowKind → Bool
is_reset reset = true
is_reset _ = false

-- The comparison of the `semantic_fields`.
unfoldable pub same_semantics : Row → Row → Bool
same_semantics a b =
    kind_eq a.kind b.kind
    && option_eq str_eq a.condition_id b.condition_id
    && str_eq a.token_id b.token_id
    && option_eq ◌==◌ a.source_at b.source_at
    && option_eq ◌==◌ a.tick_size b.tick_size
    && option_eq str_eq a.source_hash b.source_hash

-- `any(row.get(key) != self.archive_previous.get(key))`; there is a previous row at a high water.
abbrev pub differs_from : Option Row → Row → Bool
differs_from none row = false
differs_from (some previous) row = not (same_semantics row previous)

abbrev pub is_archive : Row → Bool
is_archive row = str_eq row.source "pmxt-v1" || str_eq row.source "pmxt-v2"

-- Whether the row conflicts with the order, by the high water.
unfoldable pub conflicts : Option ℕ → Bool → Option Row → Row → Bool
conflicts none uncertain previous row = false
conflicts (some highwater) uncertain previous row =
    ltb row.received_at highwater
    || (row.received_at == highwater && (uncertain || differs_from previous row))

-- `self.archive_highwater is None or received > self.archive_highwater`
abbrev pub advances : Option ℕ → Row → Bool
advances none row = true
advances (some highwater) row = ltb highwater row.received_at

abbrev pub raised_highwater : Option ℕ → Row → ℕ
raised_highwater none row = row.received_at
raised_highwater (some highwater) row =
    if ltb highwater row.received_at then row.received_at else highwater

abbrev pub conflict : Book → Row → Bool
conflict b row = conflicts b.archive_highwater b.archive_uncertain b.archive_previous row

-- A conflicting row counts as a reset.
unfoldable pub ordered_row : Book → Row → Row
ordered_row b row =
    if conflict b row && not (is_reset row.kind)
    then record row { kind = reset; reason = some "ambiguous_archive_order" }
    else row

abbrev pub highwater_with : Book → Row → ℕ
highwater_with b row = raised_highwater b.archive_highwater row

unfoldable pub marked : Book → Row → Book
marked b row = record b {
  archive_highwater = some (highwater_with b row);
  archive_previous =
      (if row.received_at == highwater_with b row then some row else b.archive_previous);
  archive_uncertain =
      (if advances b.archive_highwater row then false else b.archive_uncertain)
      || conflict b row
      || is_reset row.kind;
}

unfoldable pub archive_order : Book → Row → Row × Book
unfolding conflicts same_semantics ordered_row marked
archive_order b row = if not (is_archive row) then (row, b) else (ordered_row b row, marked b row)
