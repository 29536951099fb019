-- ===== src/Books/Tests.antt =====
-- The book's theorems on a few rows of one token.
use oddsfox_pipeline.Base.{
  ℕ, ◌≤◌, ◌<◌, Option, String, List, [], ◌∷◌, none, some, true, false, ◌≡◌, refl, arith, ok, min,
  All,
}
use oddsfox_pipeline.Books.Row.{
  Row, RowKind, snapshot, price_change, buy, sell, Level, insert_level, sort_levels,
}
use oddsfox_pipeline.Books.Book.{
  Book, new_book, valid, status, conflict, conflicts, max_price, min_price,
}
use oddsfox_pipeline.Books.Apply.{level_at, replay, total_quantity}
use oddsfox_pipeline.Books.Pair.{pair_complete, quotes_of, pair_quote}
use oddsfox_pipeline.Books.Paired.{IsPair, IsComplement, pair_quote-IsPair}
use oddsfox_pipeline.Books.Quote.{Quote, walk, take_level, Fill, depth_of, quote, quote_of}
use oddsfox_pipeline.Books.Displayed.{IsLive, oldest_first, is_opened, shown, side_of, replay-shown}
use oddsfox_pipeline.Books.Replay.{IsBook, replay-IsBook}
use oddsfox_pipeline.Books.Healing.{replay-conflict_hides}
use oddsfox_pipeline.Books.Quoted.{IsTaking, taken, paid}
use oddsfox_pipeline.Books.Highest.{quote-highest}

abbrev row_at : ℕ → String → RowKind → Row
row_at received_at source kind = record {
  source = source;
  stream = "s";
  sequence = 0;
  ordinal = 0;
  received_at = received_at;
  source_at = none;
  condition_id = some "0xc";
  token_id = "1";
  kind = kind;
  reason = none;
  tick_size = none;
  source_hash = none;
  raw_identity = "s:0";
}

abbrev bids : List Level
bids = (40, 5) ∷ (39, 2) ∷ []

abbrev rows : List Row
rows =
    row_at 1 "live" (snapshot bids ((60, 7) ∷ []))
    ∷ row_at 2 "live" (price_change buy 41 3)
    ∷ row_at 3 "live" (price_change sell 60 0)
    ∷ []

-- The same rows, the latest one first.
abbrev latest : List Row
latest =
    row_at 3 "live" (price_change sell 60 0)
    ∷ row_at 2 "live" (price_change buy 41 3)
    ∷ row_at 1 "live" (snapshot bids ((60, 7) ∷ []))
    ∷ []

latest-IsLive : All IsLive latest
latest-IsLive =
    ((refl, tt), ((refl, tt), ((refl, ((omega arith, (omega arith, tt)), (omega arith, tt))), tt)))

replay-shown_example :
    ((replay (oldest_first latest) new_book).initialized ≡ is_opened latest)
    × (level_at 41 (side_of buy (replay (oldest_first latest) new_book)) ≡ shown buy 41 latest)
replay-shown_example = replay-shown latest buy 41 latest-IsLive

told : shown buy 41 latest ≡ some 3
told = refl

sold_out : shown sell 60 latest ≡ none
sold_out = refl

new_book-IsBook : IsBook new_book
new_book-IsBook = record {
  bid_depth = tt;
  ask_depth = tt;
  hidden_bids = λ e. refl;
  hidden_asks = λ e. refl;
}

replay-IsBook_example : IsBook (replay rows new_book)
replay-IsBook_example =
    replay-IsBook rows new_book
      (((omega arith, (omega arith, tt)), (omega arith, tt)), (tt, (tt, tt))) new_book-IsBook

abbrev resolved_book : Book
resolved_book = record new_book { terminal_seen = true; reason = "market_resolved" }

-- An archive has been read up to time 5; a row of time 4 comes late.
abbrev archived_book : Book
archived_book = record new_book {
  initialized = true;
  archive_highwater = some 5;
  archive_previous = some (row_at 5 "pmxt-v2" (price_change buy 41 3));
}

late_conflict : conflict archived_book (row_at 4 "pmxt-v2" (snapshot bids [])) ≡ true
unfolding conflicts
late_conflict = refl

replay-conflict_hides_example :
    ((replay
        (row_at 4 "pmxt-v2" (snapshot bids []) ∷ row_at 5 "pmxt-v2" (snapshot bids []) ∷ [])
        archived_book).initialized
      ≡ false)
    × ((replay
          (row_at 4 "pmxt-v2" (snapshot bids []) ∷ row_at 5 "pmxt-v2" (snapshot bids []) ∷ [])
          archived_book).archive_highwater
        ≡ some 5)
replay-conflict_hides_example =
    replay-conflict_hides 5 (row_at 4 "pmxt-v2" (snapshot bids []))
      (row_at 5 "pmxt-v2" (snapshot bids []) ∷ []) archived_book refl refl late_conflict
      ((refl, omega arith), tt)

abbrev quoted_book : Book
quoted_book = record new_book { initialized = true; bids = bids; asks = (61, 4) ∷ (60, 7) ∷ [] }

quoted_book-valid : status quoted_book ≡ valid
unfolding status max_price min_price
quoted_book-valid = refl

-- Four of the higher bid and two of the lower.
six_taken : IsTaking (4 ∷ 2 ∷ []) (sort_levels true quoted_book.bids)
unfolding sort_levels insert_level
six_taken = (omega arith, (omega arith, tt))

at_most_six : taken (4 ∷ 2 ∷ []) ≤ 6
unfolding taken
at_most_six = omega arith

quote-highest_example :
    (q : Quote) × (quote sell 6 quoted_book ≡ ok q)
    × (q.available_quantity ≡ min 6 (total_quantity quoted_book.bids))
    × (paid (4 ∷ 2 ∷ []) (sort_levels true quoted_book.bids) ≤ q.gross_amount)
quote-highest_example =
    quote-highest 6 quoted_book (4 ∷ 2 ∷ []) (omega arith) quoted_book-valid six_taken at_most_six

-- Both outcomes of a condition, as the same stream shows them.
abbrev outcome_book : String → Book
outcome_book token = record quoted_book {
  last = some (record (row_at 3 "live" (snapshot [] [])) { token_id = token });
}

abbrev outcome_fill : Fill
outcome_fill = record { available = 5; gross = 300; marginal = some 60 }

abbrev outcome_quote : String → Quote
outcome_quote token = quote_of (outcome_book token) 5 outcome_fill

pair_quoted :
    pair_quote (outcome_book "1") (outcome_book "2") 5 (some 100) (some ("2" ∷ "1" ∷ []))
    ≡ ok (pair_complete (outcome_quote "1") (outcome_quote "2") 600 300 500)
unfolding pair_quote quotes_of quote depth_of sort_levels insert_level walk take_level status
    max_price min_price
pair_quoted = refl

pair_quote-IsPair_example :
    (a b : Row) × (n : ℕ) × ((outcome_book "1").last ≡ some a)
    × ((outcome_book "2").last ≡ some b)
    × (◌≡◌ {A = Option ℕ} (some 100) (some n))
    × IsComplement a b
    × (0 < n)
    × IsPair
        (outcome_book "1")
        (outcome_book "2")
        5
        n
        (outcome_quote "1")
        (outcome_quote "2")
        600
        300
        500
pair_quote-IsPair_example =
    pair_quote-IsPair (outcome_book "1") (outcome_book "2") 5 (some 100) (some ("2" ∷ "1" ∷ []))
      (outcome_quote "1") (outcome_quote "2") 600 300 500 pair_quoted
