-- ===== src/Settlement/Tests.antt =====
-- A segment with a complementary leg and a mint leg, through the normalizer, and the theorems on it.
use oddsfox_pipeline.Base.{
  ℕ, ◌*◌, ◌≤◌, String, List, [], ◌∷◌, none, ◌≡◌, ◌≢◌, ◌↔◌, refl, eq_iff, Result, ok, err, arith,
  All,
}
use oddsfox_pipeline.Settlement.Types.{
  SettlementEvent, PolygonMarket, FillRow, EventKind, order_filled, orders_matched, Side, buy, sell,
  SettlementError,
}
use oddsfox_pipeline.Settlement.Amounts.{
  amounts, decimal_volume, round_half_even, decimal_price, price_scale,
}
use oddsfox_pipeline.Settlement.Index.{insert, add_markets, by_token, effective_index, lookup}
use oddsfox_pipeline.Settlement.Segment.{
  normalize_v2_segment, check_segment, all_same_location, any_target, target_segment, passive_legs,
  passive_leg, complementary_leg, paired_leg, base_fill_row, aggregate_conserves,
}
use oddsfox_pipeline.Settlement.Transactions.{Segment, transaction_segments}
use oddsfox_pipeline.Settlement.Sides.{HasTwoTokens, IsSideIndex, by_token-IsSideIndex}
use oddsfox_pipeline.Settlement.Rounding.{IsNearestEven, decimal_price-IsNearestEven}
use oddsfox_pipeline.Settlement.Conservation.{
  token_shares, token_collateral, any_paired, Reconciles,
}
use oddsfox_pipeline.Settlement.Pricing.{IsPriced, paired_collateral, paired_shares}
use oddsfox_pipeline.Settlement.Aggregate.{IsAggregate, check_segment-IsAggregate}
use oddsfox_pipeline.Settlement.RoundTrip.{
  Cuts, IsSegment, events_of, transaction_segments-Cuts, transaction_segments-events_of,
}
use oddsfox_pipeline.Settlement.Normalized.{
  normalize_v2_segment-Reconciles, normalize_v2_segment-IsPriced,
}

abbrev market : PolygonMarket
market = record {
  proposition_id = "p";
  fifa_match_id = 1;
  stage = "final";
  group_label = none;
  home_team = "home";
  away_team = "away";
  kickoff_at_utc = 100;
  window_start_at_utc = 100;
  window_end_at_utc = 200;
  proposition_type = "home_wins_final";
  yes_represents = "home";
  no_represents = "not home";
  condition_id = "c";
  yes_token_id = "1";
  no_token_id = "2";
  market_structure = "standard";
  exchange_address = "0xe";
  reference_bundle_id = "b";
  reference_table = "t";
  reference_row_key = "1";
  reference_row_sha256 = "r";
  condition_init_tx_hash = "i";
  condition_init_log_index = 0;
  question_init_tx_hash = "q";
  question_init_log_index = 0;
  ancillary_data_sha256 = "a";
  token_verification_block_number = 1;
  token_verification_block_hash = "h";
  manifest_sha256 = "m";
  manifest_version = "1.0.0";
  reviewed_at_utc = 1;
}

abbrev event : EventKind → ℕ → Side → String → ℕ → ℕ → SettlementEvent
event kind log_index side token_id maker_amount taker_amount = record {
  kind = kind;
  exchange_address = "0xe";
  block_number = 10;
  block_hash = "0xb";
  transaction_hash = "0xt";
  transaction_index = 0;
  log_index = log_index;
  side = side;
  token_id = token_id;
  maker_amount = maker_amount;
  taker_amount = taker_amount;
}

abbrev passive : List SettlementEvent
passive = event order_filled 0 sell "1" 4 2 ∷ event order_filled 1 buy "2" 2 6 ∷ []

abbrev active : SettlementEvent
active = event order_filled 2 buy "1" 6 10

abbrev matched : SettlementEvent
matched = event orders_matched 3 buy "1" 6 10

abbrev hash : List SettlementEvent → SettlementEvent → SettlementEvent → String
hash xs a m = "digest"

abbrev normalized : Result SettlementError (List FillRow)
normalized = normalize_v2_segment hash (market ∷ []) none "scan" 0 20 150 160 passive active matched

abbrev rows_or_nil : Result SettlementError (List FillRow) → List FillRow
rows_or_nil (ok rows) = rows
rows_or_nil (err e) = []

abbrev rows : List FillRow
rows = rows_or_nil normalized

normalized_ok : normalized ≡ ok rows
unfolding normalize_v2_segment check_segment all_same_location any_target lookup effective_index
    by_token insert add_markets target_segment passive_legs passive_leg amounts complementary_leg
    base_fill_row decimal_volume decimal_price paired_leg aggregate_conserves round_half_even
normalized_ok = refl

some_rows : rows ≢ []
unfolding normalize_v2_segment check_segment all_same_location any_target lookup effective_index
    by_token insert add_markets target_segment passive_legs passive_leg amounts complementary_leg
    base_fill_row decimal_volume decimal_price paired_leg aggregate_conserves round_half_even
some_rows = λ e. cc e

two_tokens : All HasTwoTokens (market ∷ [])
two_tokens = ((λ e. ground (arith, eq_iff "1" "2")), tt)

sides : IsSideIndex (effective_index none (market ∷ []))
unfolding effective_index
sides = by_token-IsSideIndex (market ∷ []) two_tokens

normalize_v2_segment-Reconciles_example :
    (pair : ℕ × ℕ) × (amounts active ≡ ok pair)
    × Reconciles buy (any_paired rows) pair (token_shares "1" rows) (token_collateral "1" rows)
normalize_v2_segment-Reconciles_example =
    normalize_v2_segment-Reconciles hash (market ∷ []) none "scan" 0 20 150 160 passive active
      matched rows sides normalized_ok some_rows

normalize_v2_segment-IsPriced_example :
    All IsPriced rows × (paired_collateral rows ≡ paired_shares rows)
normalize_v2_segment-IsPriced_example =
    normalize_v2_segment-IsPriced hash (market ∷ []) none "scan" 0 20 150 160 passive active matched
      rows normalized_ok some_rows

check_segment-IsAggregate_example :
    (check_segment passive active matched ≡ ok tt) ↔ IsAggregate passive active matched
check_segment-IsAggregate_example = check_segment-IsAggregate passive active matched

abbrev segment : Segment
segment = record { passive = passive; active = active; matched = matched }

transaction_segments-Cuts_example :
    Cuts (events_of (segment ∷ [])) (transaction_segments (events_of (segment ∷ [])))
transaction_segments-Cuts_example = transaction_segments-Cuts (events_of (segment ∷ []))

segment-IsSegment : IsSegment segment
segment-IsSegment = record {
  some_passive = λ e. cc e;
  passive_filled = (refl, (refl, tt));
  active_filled = refl;
  matched_last = refl;
}

transaction_segments-events_of_example :
    transaction_segments (events_of (segment ∷ segment ∷ [])) ≡ (segment ∷ segment ∷ [], none)
transaction_segments-events_of_example =
    transaction_segments-events_of (segment ∷ segment ∷ [])
      (segment-IsSegment, (segment-IsSegment, tt))

decimal_price-IsNearestEven_example :
    (q : ℕ) × (decimal_price 1 3 ≡ ok q) × IsNearestEven (1 * price_scale) 3 q × (q ≤ price_scale)
decimal_price-IsNearestEven_example = decimal_price-IsNearestEven 1 3 (omega arith) (omega arith)
