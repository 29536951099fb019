-- ===== src/Settlement/Types.antt =====
-- The events, markets and rows of the settlement normalizer: `DecodedSettlementEvent`
-- (polygon_rpc.py), `PolygonMarket` (polygon_seed.py), and the row that `_base_fill_row` builds.
use oddsfox_pipeline.Base.{ℕ, String, Option, Bool, true, false}

pub data EventKind : Type 0 where
  order_filled orders_matched : EventKind

-- The decoder emits "BUY" and "SELL" only.
pub data Side : Type 0 where
  buy sell : Side

pub data Outcome : Type 0 where
  yes_side no_side : Outcome

pub data NormalizationKind : Type 0 where
  complementary mint merge : NormalizationKind

abbrev pub side_eq : Side → Side → Bool
side_eq buy buy = true
side_eq sell sell = true
side_eq _ _ = false

pub record SettlementEvent : Type 0 where
  pub kind : EventKind
  pub exchange_address : String
  pub block_number : ℕ
  pub block_hash : String
  pub transaction_hash : String
  pub transaction_index : ℕ
  pub log_index : ℕ
  pub side : Side
  pub token_id : String
  pub maker_amount : ℕ
  pub taker_amount : ℕ

-- A time is a number of seconds.
pub record PolygonMarket : Type 0 where
  pub proposition_id : String
  pub fifa_match_id : ℕ
  pub stage : String
  pub group_label : Option String
  pub home_team : String
  pub away_team : String
  pub kickoff_at_utc : ℕ
  pub window_start_at_utc : ℕ
  pub window_end_at_utc : ℕ
  pub proposition_type : String
  pub yes_represents : String
  pub no_represents : String
  pub condition_id : String
  pub yes_token_id : String
  pub no_token_id : String
  pub market_structure : String
  pub exchange_address : String
  pub reference_bundle_id : String
  pub reference_table : String
  pub reference_row_key : String
  pub reference_row_sha256 : String
  pub condition_init_tx_hash : String
  pub condition_init_log_index : ℕ
  pub question_init_tx_hash : String
  pub question_init_log_index : ℕ
  pub ancillary_data_sha256 : String
  pub token_verification_block_number : ℕ
  pub token_verification_block_hash : String
  pub manifest_sha256 : String
  pub manifest_version : String
  pub reviewed_at_utc : ℕ

-- A decimal is its unscaled number: volumes in units of 10^-6, a price in units of 10^-18.
pub record FillRow : Type 0 where
  pub scan_id : String
  pub chain_id : ℕ
  pub exchange_address : String
  pub chunk_from_block : ℕ
  pub chunk_to_block : ℕ
  pub block_number : ℕ
  pub block_hash : String
  pub block_timestamp : ℕ
  pub transaction_hash : String
  pub transaction_index : ℕ
  pub passive_log_index : ℕ
  pub active_log_index : ℕ
  pub matched_log_index : ℕ
  pub normalized_leg_ordinal : ℕ
  pub proposition_id : String
  pub condition_id : String
  pub token_id : String
  pub outcome_side : Outcome
  pub order_side : Side
  pub source_token_id : String
  pub source_maker_amount : ℕ
  pub source_taker_amount : ℕ
  pub share_volume : ℕ
  pub gross_collateral_volume : ℕ
  pub price : ℕ
  pub normalization_kind : NormalizationKind
  pub is_derived : Bool
  pub segment_sha256 : String
  pub decoder_version : String
  pub ingested_at : ℕ

-- The `ValueError`s of the normalizer, one for each message.
pub data SettlementError : Type 0 where
  volume_out_of_bound price_inputs invalid_amounts : SettlementError
  no_passive_leg malformed_boundary crosses_transactions aggregate_mismatch : SettlementError
  unregistered_active wrong_exchange unregistered_passive crosses_conditions : SettlementError
  unsupported_shape derived_not_positive not_conserved : SettlementError
  no_active_leg unmatched_fills : SettlementError
