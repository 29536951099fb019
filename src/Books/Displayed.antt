-- ===== src/Books/Displayed.antt =====
-- The book against an account of the rows alone: what a side shows at a price is what the latest row
-- that says something about it left there.
use oddsfox_pipeline.Base.{
  ℕ, List, [], ◌∷◌, ◌++◌, Option, none, some, Bool, true, false, ◌&&◌, ◌≡◌, refl, ap, ◌∙◌, arith,
  ◌==◌, if◌then◌else◌, All,
}
use oddsfox_pipeline.Books.Row.{
  Row, RowKind, snapshot, price_change, tick_size_change, market_resolved, reset, BookSide, buy,
  sell, Level,
}
use oddsfox_pipeline.Books.Book.{Book, new_book, is_archive, side_eq, archive_order}
use oddsfox_pipeline.Books.Apply.{level_at, set_level, add_levels, apply_kind, apply, replay}
use oddsfox_pipeline.Books.Depth.{level_at-set_level, level_at-change_side}
use oddsfox_pipeline.Books.Replay.{IsBook, IsRowKind, apply-IsBook}

-- The last quantity that is listed for a price, or what stood there before.
abbrev pub last_listed : Option ℕ → ℕ → List Level → Option ℕ
last_listed before j [] = before
last_listed before j ((price, quantity) ∷ levels) =
    last_listed (if price == j then some quantity else before) j levels

-- Whether a snapshot came behind the last reset and the last resolution.
abbrev is_open_after : RowKind → Bool → Bool
is_open_after (snapshot bids asks) before = true
is_open_after reset before = false
is_open_after market_resolved before = false
is_open_after tick_size_change before = before
is_open_after (price_change side price quantity) before = before

-- The rows are given with the latest one first.
abbrev pub is_opened : List Row → Bool
is_opened [] = false
is_opened (row ∷ earlier) = is_open_after row.kind (is_opened earlier)

abbrev shown_after : RowKind → BookSide → ℕ → Bool → Option ℕ → Option ℕ
shown_after (snapshot bids asks) buy j opened before = last_listed none j bids
shown_after (snapshot bids asks) sell j opened before = last_listed none j asks
shown_after reset side j opened before = none
shown_after market_resolved side j opened before = none
shown_after tick_size_change side j opened before = before
shown_after (price_change changed price quantity) side j opened before =
    if opened && side_eq changed side && price == j
    then (if quantity == 0 then none else some quantity)
    else before

-- The quantity at a price of a side.
abbrev pub shown : BookSide → ℕ → List Row → Option ℕ
shown side j [] = none
shown side j (row ∷ earlier) =
    shown_after row.kind side j (is_opened earlier) (shown side j earlier)

abbrev pub side_of : BookSide → Book → List Level
side_of buy b = b.bids
side_of sell b = b.asks

level_at-add_levels :
    (j : ℕ) (dict levels : List Level)
    → level_at j (add_levels dict levels) ≡ last_listed (level_at j dict) j levels
unfolding add_levels
level_at-add_levels j dict [] = refl
level_at-add_levels j dict ((price, quantity) ∷ levels) =
    level_at-add_levels j (set_level price quantity dict) levels
    ∙ ap (λ before. last_listed before j levels) (level_at-set_level price j quantity dict)

apply_kind-initialized :
    (kind : RowKind) (row : Row) (b : Book)
    → (apply_kind kind row b).initialized ≡ is_open_after kind b.initialized
unfolding apply_kind
apply_kind-initialized (snapshot bids asks) row b = refl
apply_kind-initialized reset row b = refl
apply_kind-initialized market_resolved row b = refl
apply_kind-initialized tick_size_change row b = refl
apply_kind-initialized (price_change buy price quantity) row b = ground arith
apply_kind-initialized (price_change sell price quantity) row b = ground arith

apply_kind_shown :
    (kind : RowKind) (row : Row) (b : Book) (side : BookSide) (j : ℕ)
    → IsBook b
    → level_at j (side_of side (apply_kind kind row b))
      ≡ shown_after kind side j b.initialized (level_at j (side_of side b))
unfolding apply_kind level_at
apply_kind_shown (snapshot bids asks) row b buy j v = level_at-add_levels j [] bids
apply_kind_shown (snapshot bids asks) row b sell j v = level_at-add_levels j [] asks
apply_kind_shown reset row b buy j v = refl
apply_kind_shown reset row b sell j v = refl
apply_kind_shown market_resolved row b buy j v = refl
apply_kind_shown market_resolved row b sell j v = refl
apply_kind_shown tick_size_change row b buy j v = refl
apply_kind_shown tick_size_change row b sell j v = refl
apply_kind_shown (price_change buy price quantity) row b buy j v =
    ground (arith, level_at-change_side price quantity j b.bids v.bid_depth)
apply_kind_shown (price_change buy price quantity) row b sell j v = ground arith
apply_kind_shown (price_change sell price quantity) row b buy j v = ground arith
apply_kind_shown (price_change sell price quantity) row b sell j v =
    ground (arith, level_at-change_side price quantity j b.asks v.ask_depth)

abbrev pub oldest_first : List Row → List Row
oldest_first [] = []
oldest_first (row ∷ earlier) = oldest_first earlier ++ (row ∷ [])

replay-append :
    (rows : List Row) (row : Row) (b : Book)
    → replay (rows ++ (row ∷ [])) b ≡ (apply row (replay rows b)).1
unfolding replay
replay-append [] row b = refl
replay-append (first ∷ rows) row b = replay-append rows row (apply first b).1

-- A row that is not of an archive passes as it is.
abbrev pub IsLive : Row → Type 0
IsLive row = (is_archive row ≡ false) × IsRowKind row.kind

apply-IsBook_live : (row : Row) (b : Book) → IsLive row → IsBook b → IsBook (apply row b).1
apply-IsBook_live row b live v = apply-IsBook b row live.1 v

archive_order_live :
    (row : Row) (b : Book) → is_archive row ≡ false → archive_order b row ≡ (row, b)
unfolding archive_order
archive_order_live row b live = rw live refl

apply_shown :
    (row : Row) (b : Book) (side : BookSide) (j : ℕ)
    → IsLive row
    → IsBook b
    → ((apply row b).1.initialized ≡ is_open_after row.kind b.initialized)
      × (level_at j (side_of side (apply row b).1)
          ≡ shown_after row.kind side j b.initialized (level_at j (side_of side b)))
unfolding apply
apply_shown row b buy j live v =
    rw (archive_order_live row b live.0)
      (apply_kind-initialized row.kind row b, apply_kind_shown row.kind row b buy j v)
apply_shown row b sell j live v =
    rw (archive_order_live row b live.0)
      (apply_kind-initialized row.kind row b, apply_kind_shown row.kind row b sell j v)

new_book-IsBook : IsBook new_book
new_book-IsBook = record {
  bid_depth = tt;
  ask_depth = tt;
  hidden_bids = λ e. refl;
  hidden_asks = λ e. refl;
}

replayed :
    (latest : List Row) (side : BookSide) (j : ℕ)
    → All IsLive latest
    → IsBook (replay (oldest_first latest) new_book)
      × ((replay (oldest_first latest) new_book).initialized ≡ is_opened latest)
      × (level_at j (side_of side (replay (oldest_first latest) new_book)) ≡ shown side j latest)
unfolding replay level_at
replayed [] buy j live = (new_book-IsBook, refl, refl)
replayed [] sell j live = (new_book-IsBook, refl, refl)
replayed (row ∷ earlier) side j live =
    let before = replay (oldest_first earlier) new_book in
    let (v, opened, quantity) = replayed earlier side j live.1 in
    let (opened', quantity') = apply_shown row before side j live.0 v in
    rw (replay-append (oldest_first earlier) row new_book) (
      apply-IsBook_live row before live.0 v,
      rw (← opened) opened',
      rw (← opened, ← quantity) quantity',
    )

-- After any rows that are not of an archive, with positive quantities in their snapshots, a new book is
-- initialized exactly where a snapshot came behind the last reset and the last resolution; and the
-- quantity at any price of either side is the one the rows tell, read from the latest back: a
-- snapshot tells what its own side lists last for the price, a reset or a resolution that nothing is
-- left, and a change, where the book is initialized, its quantity for its own price and side, or that
-- the price is gone at 0, and nothing of other prices or of the other side.
pub replay-shown :
    (latest : List Row) (side : BookSide) (j : ℕ)
    → All IsLive latest
    → ((replay (oldest_first latest) new_book).initialized ≡ is_opened latest)
      × (level_at j (side_of side (replay (oldest_first latest) new_book)) ≡ shown side j latest)
replay-shown latest side j live =
    let (v, opened, quantity) = replayed latest side j live in (opened, quantity)
