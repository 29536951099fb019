-- ===== src/Leaf/Tests.antt =====
-- A leaf of one transaction: a passive sale, the active purchase and its `OrdersMatched`.
use oddsfox_pipeline.Base.{
  ℕ, ◌≤◌, String, List, [], ◌∷◌, map, false, none, ◌≡◌, refl, ok, length, All, count, from_keys,
  remove, contains, string_eq, nat_eq, pair_eq,
}
use oddsfox_pipeline.Rpc.Json.{
  Json, bool, text, array, end_items, item, Fields, end_fields, entry, get_or_null, list_of,
}
use oddsfox_pipeline.Rpc.Client.{Payload, Posted, broken, PolygonRpc}
use oddsfox_pipeline.Rpc.Headers.{blocks, cached, missing_of, fetch_missing}
use oddsfox_pipeline.Rpc.Batches.{done}
use oddsfox_pipeline.Rpc.Decoded.{IsDecoded, decode_settlement_log-IsDecoded}
use oddsfox_pipeline.Rpc.Logs.{decode_settlement_log, order_filled_topic, orders_matched_topic}
use oddsfox_pipeline.Settlement.Types.{
  SettlementEvent, PolygonMarket, FillRow, order_filled, sell, yes_side, complementary,
}
use oddsfox_pipeline.Settlement.Index.{insert, add_markets, by_token, lookup, effective_index}
use oddsfox_pipeline.Settlement.Amounts.{amounts, decimal_volume, decimal_price, round_half_even}
use oddsfox_pipeline.Settlement.Segment.{
  check_segment, all_same_location, any_target, target_segment, passive_legs, passive_leg,
  complementary_leg, base_fill_row, aggregate_conserves,
}
use oddsfox_pipeline.Settlement.Pricing.{IsPriced}
use oddsfox_pipeline.Leaf.Events.{decode_logs, location, targets}
use oddsfox_pipeline.Leaf.Normalize.{LeafResult, decode_and_normalize_leaf}
use oddsfox_pipeline.Leaf.Accepted.{InScope, decode_and_normalize_leaf-IsPriced}

abbrev exchange : String
exchange = "0xe1e1e1e1e1e1e1e1e1e1e1e1e1e1e1e1e1e1e1e1"

abbrev hash : String
hash = "0x00000000000000000000000000000000000000000000000000000000000000a1"

abbrev topics_of_fill : Json
topics_of_fill = array (
    item (text order_filled_topic)
      (item (text hash) (item (text hash) (item (text hash) end_items))))

abbrev topics_of_match : Json
topics_of_match =
    array (item (text orders_matched_topic) (item (text hash) (item (text hash) end_items)))

abbrev log_at : String → Json → String → Fields
log_at log_index topics payload = entry "removed" (bool false) (
    entry "address" (text exchange) (
      entry "topics" topics (
        entry "data" (text payload) (
          entry "blockNumber" (text "0x7") (
            entry "blockHash" (text hash) (
              entry "transactionHash" (text hash) (
                entry "transactionIndex" (text "0x2")
                  (entry "logIndex" (text log_index) end_fields))))))))

abbrev sale : String
sale =
    "0x0000000000000000000000000000000000000000000000000000000000000001000000000000000000000000000000000000000000000000000000000000000100000000000000000000000000000000000000000000000000000000000000640000000000000000000000000000000000000000000000000000000000000032000000000000000000000000000000000000000000000000000000000000000000000000000000000000000000000000000000000000000000000000000000000000000000000000000000000000000000000000000000000000000000000000"

abbrev purchase : String
purchase =
    "0x0000000000000000000000000000000000000000000000000000000000000000000000000000000000000000000000000000000000000000000000000000000100000000000000000000000000000000000000000000000000000000000000320000000000000000000000000000000000000000000000000000000000000064000000000000000000000000000000000000000000000000000000000000000000000000000000000000000000000000000000000000000000000000000000000000000000000000000000000000000000000000000000000000000000000000"

abbrev match_data : String
match_data =
    "0x0000000000000000000000000000000000000000000000000000000000000000000000000000000000000000000000000000000000000000000000000000000100000000000000000000000000000000000000000000000000000000000000320000000000000000000000000000000000000000000000000000000000000064"

abbrev raw_logs : List Fields
raw_logs =
    log_at "0x2" topics_of_match match_data
    ∷ log_at "0x0" topics_of_fill sale
    ∷ log_at "0x1" topics_of_fill purchase
    ∷ []

abbrev market : PolygonMarket
market = record {
  proposition_id = "p";
  fifa_match_id = 1;
  stage = "final";
  group_label = none;
  home_team = "home";
  away_team = "away";
  kickoff_at_utc = 10;
  window_start_at_utc = 10;
  window_end_at_utc = 20;
  proposition_type = "home_wins_final";
  yes_represents = "home";
  no_represents = "not home";
  condition_id = "c";
  yes_token_id = "1";
  no_token_id = "2";
  market_structure = "standard";
  exchange_address = exchange;
  reference_bundle_id = "b";
  reference_table = "t";
  reference_row_key = "1";
  reference_row_sha256 = "r";
  condition_init_tx_hash = "i";
  condition_init_log_index = 0;
  question_init_tx_hash = "q";
  question_init_log_index = 0;
  ancillary_data_sha256 = "a";
  token_verification_block_number = 1;
  token_verification_block_hash = "h";
  manifest_sha256 = "m";
  manifest_version = "1.0.0";
  reviewed_at_utc = 1;
}

-- Lower-case texts only.
abbrev folded : Json → String
folded (text value) = value
folded _ = ""

abbrev segment_hash : List SettlementEvent → SettlementEvent → SettlementEvent → String
segment_hash passive active matched = "segment"

abbrev events_hash : List SettlementEvent → String
events_hash events = "events"

-- The header is in the cache, so that no request is sent.
abbrev silent : Payload → Unit {0} → Posted × Unit {0}
silent payload s = (broken, s)

abbrev client : PolygonRpc (Unit {0})
client = record {
  request_id = 0;
  blocks = (7, record { number = 7; hash = hash; timestamp = 15 }) ∷ [];
  metrics = record {
    http_request_count = 0;
    log_rpc_call_count = 0;
    receipt_rpc_call_count = 0;
    header_rpc_call_count = 0;
    retry_count = 0;
  };
  activities = [];
  provider = tt;
}

abbrev row : FillRow
row = record {
  scan_id = "scan";
  chain_id = 137;
  exchange_address = exchange;
  chunk_from_block = 5;
  chunk_to_block = 9;
  block_number = 7;
  block_hash = hash;
  block_timestamp = 15;
  transaction_hash = hash;
  transaction_index = 2;
  passive_log_index = 0;
  active_log_index = 1;
  matched_log_index = 2;
  normalized_leg_ordinal = 0;
  proposition_id = "p";
  condition_id = "c";
  token_id = "1";
  outcome_side = yes_side;
  order_side = sell;
  source_token_id = "1";
  source_maker_amount = 100;
  source_taker_amount = 50;
  share_volume = 100;
  gross_collateral_volume = 50;
  price = 500000000000000000;
  normalization_kind = complementary;
  is_derived = false;
  segment_sha256 = "segment";
  decoder_version = "polygon-v2-settlement-v4";
  ingested_at = 99;
}

abbrev leaf : LeafResult
leaf = record { rows = row ∷ []; scoped_count = 3; scoped_hash = "events" }

accepted :
    (decode_and_normalize_leaf segment_hash events_hash folded silent raw_logs
      (market ∷ [])
      "scan"
      exchange
      5
      9
      99
      client).0
    ≡ ok leaf
unfolding decode_and_normalize_leaf blocks cached missing_of fetch_missing get_or_null from_keys
    remove contains by_token add_markets insert list_of lookup check_segment all_same_location
    any_target effective_index target_segment passive_legs passive_leg amounts complementary_leg
    base_fill_row decimal_volume decimal_price aggregate_conserves round_half_even
accepted = refl

decode_and_normalize_leaf-IsPriced_example :
    (events : List SettlementEvent) × (decode_logs folded raw_logs ≡ ok events)
    × All (InScope exchange 5 9) events
    × ((place : String × ℕ) → count place (map location events) ≤ 1)
    × (3 ≡ length (targets (by_token (market ∷ [])) events))
    × All IsPriced (row ∷ [])
decode_and_normalize_leaf-IsPriced_example =
    decode_and_normalize_leaf-IsPriced folded segment_hash events_hash silent raw_logs (market ∷ [])
      "scan" exchange 5 9 99 client leaf accepted

abbrev sold : SettlementEvent
sold = record {
  kind = order_filled;
  exchange_address = exchange;
  block_number = 7;
  block_hash = hash;
  transaction_hash = hash;
  transaction_index = 2;
  log_index = 0;
  side = sell;
  token_id = "1";
  maker_amount = 100;
  taker_amount = 50;
}

decoded : decode_settlement_log folded (log_at "0x0" topics_of_fill sale) ≡ done sold
unfolding decode_settlement_log get_or_null list_of
decoded = refl

decode_settlement_log-IsDecoded_example : IsDecoded folded (log_at "0x0" topics_of_fill sale) sold
decode_settlement_log-IsDecoded_example =
    decode_settlement_log-IsDecoded folded (log_at "0x0" topics_of_fill sale) sold decoded
