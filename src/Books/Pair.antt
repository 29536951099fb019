-- ===== src/Books/Pair.antt =====
-- `pair_quote` of books.py: the cost of both outcomes of a condition. The net exit proceeds are left
-- to the merge proceeds and the opposite cost, whose difference may be negative.
use oddsfox_pipeline.Base.{
  ℕ, ◌+◌, ◌*◌, String, List, [], ◌∷◌, Option, some, Bool, true, false, not, ◌&&◌, ◌||◌, Result, ok,
  ◌>>=◌, ◌==◌, str_eq, if◌then◌else◌,
}
use oddsfox_pipeline.Books.Row.{Row, buy}
use oddsfox_pipeline.Books.Book.{Book}
use oddsfox_pipeline.Books.Quote.{Quote, QuoteStatus, complete, QuoteError, quote}

pub data PairReason : Type 0 where
  unverified_mechanics inconsistent_provenance not_distinct_outcomes unverified_complement :
      PairReason

pub data PairQuote : Type 0 where
  pair_unavailable : PairReason → PairQuote
  pair_partial : Quote → Quote → PairQuote
  pair_complete :
      (first opposite : Quote)
      (combined_acquisition_cost opposite_acquisition_cost gross_merge_proceeds : ℕ)
      → PairQuote

abbrev pub is_complete : QuoteStatus → Bool
is_complete complete = true
is_complete _ = false

abbrev pub same_provenance : Row → Row → Bool
same_provenance a b = str_eq a.source b.source && str_eq a.stream b.stream

-- `row.get("condition_id")` where it is neither missing nor empty, against the other row's.
abbrev pub same_condition : Option String → Option String → Bool
same_condition (some a) (some b) = not (str_eq a "") && str_eq a b
same_condition _ _ = false

abbrev pub distinct_outcomes : Row → Row → Bool
distinct_outcomes a b =
    same_condition a.condition_id b.condition_id && not (str_eq a.token_id b.token_id)

-- `len(tokens) == 2 and set(tokens) == {a, b}`, for two different tokens `a` and `b`.
abbrev pub is_binary : List String → String → String → Bool
is_binary (x ∷ y ∷ []) a b = (str_eq x a && str_eq y b) || (str_eq x b && str_eq y a)
is_binary _ a b = false

unfoldable pub quotes_of : Quote → Quote → ℕ → ℕ → PairQuote
quotes_of left right quantity unit =
    if not (is_complete left.quote_status && is_complete right.quote_status)
    then pair_partial left right
    else pair_complete left right (left.gross_amount + right.gross_amount) right.gross_amount
        (quantity * unit)

unfoldable pub verified_pair :
    Book → Book → ℕ → ℕ → List String → Option Row → Option Row → Result QuoteError PairQuote
unfolding quotes_of
verified_pair first opposite quantity unit tokens (some a) (some b) =
    if not (same_provenance a b)
    then ok (pair_unavailable inconsistent_provenance)
    else if not (distinct_outcomes a b)
    then ok (pair_unavailable not_distinct_outcomes)
    else if not (is_binary tokens a.token_id b.token_id) || unit == 0
    then ok (pair_unavailable unverified_complement)
    else (quote buy quantity first >>= λ left.
        quote buy quantity opposite >>= λ right. ok (quotes_of left right quantity unit))
verified_pair first opposite quantity unit tokens _ _ =
    ok (pair_unavailable inconsistent_provenance)

unfoldable pub pair_quote :
    Book → Book → ℕ → Option ℕ → Option (List String) → Result QuoteError PairQuote
unfolding verified_pair
pair_quote first opposite quantity (some unit) (some tokens) =
    verified_pair first opposite quantity unit tokens first.last opposite.last
pair_quote first opposite quantity _ _ = ok (pair_unavailable unverified_mechanics)
