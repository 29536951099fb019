-- ===== src/Settlement/Segment.antt =====
-- `normalize_v2_segment` of polygon_settlement_normalize.py: one taker aggregate, the passive fills
-- before it and the `OrdersMatched` event behind it, to economic legs.
use Prim.Native.Char.{code}
use oddsfox_pipeline.Base.{
  ℕ, ◌+◌, ◌-◌, String, List, [], ◌∷◌, ◌++◌, Option, none, some, Bool, true, false, not, ◌&&◌, ◌||◌,
  Result, ok, err, ◌>>=◌, ◌>>◌, raise_if, ltb, leb, ◌==◌, str_eq, is_empty, codes, if◌then◌else◌,
}
use oddsfox_pipeline.Settlement.Types.{
  SettlementEvent, PolygonMarket, FillRow, EventKind, order_filled, orders_matched, Side, buy, sell,
  side_eq, Outcome, yes_side, no_side, NormalizationKind, complementary, mint, merge,
  SettlementError, no_passive_leg, malformed_boundary, crosses_transactions, aggregate_mismatch,
  unregistered_active, wrong_exchange, unregistered_passive, crosses_conditions, unsupported_shape,
  derived_not_positive, not_conserved,
}
use oddsfox_pipeline.Settlement.Amounts.{decimal_volume, decimal_price, amounts}
use oddsfox_pipeline.Settlement.Index.{TokenIndex, lookup, effective_index}

abbrev pub polygon_chain_id : ℕ
polygon_chain_id = 137

abbrev pub normalizer_version : String
normalizer_version = "polygon-v2-settlement-v4"

-- What is fixed while the legs of one segment are emitted.
pub record SegmentContext : Type 0 where
  pub scan_id : String
  pub from_block : ℕ
  pub to_block : ℕ
  pub active : SettlementEvent
  pub matched : SettlementEvent
  pub active_market : PolygonMarket
  pub active_outcome : Outcome
  pub segment_sha256 : String
  pub block_timestamp : ℕ
  pub ingested_at : ℕ

unfoldable pub base_fill_row :
    SegmentContext
    → SettlementEvent
    → PolygonMarket
    → String
    → Outcome
    → Side
    → ℕ
    → ℕ
    → NormalizationKind
    → Bool
    → ℕ
    → Result SettlementError FillRow
base_fill_row c event market token outcome side shares collateral kind derived ordinal = do
  share_volume ← decimal_volume shares
  gross ← decimal_volume collateral
  price ← decimal_price collateral shares
  ok (record {
    scan_id = c.scan_id;
    chain_id = polygon_chain_id;
    exchange_address = event.exchange_address;
    chunk_from_block = c.from_block;
    chunk_to_block = c.to_block;
    block_number = event.block_number;
    block_hash = event.block_hash;
    block_timestamp = c.block_timestamp;
    transaction_hash = event.transaction_hash;
    transaction_index = event.transaction_index;
    passive_log_index = event.log_index;
    active_log_index = c.active.log_index;
    matched_log_index = c.matched.log_index;
    normalized_leg_ordinal = ordinal;
    proposition_id = market.proposition_id;
    condition_id = market.condition_id;
    token_id = token;
    outcome_side = outcome;
    order_side = side;
    source_token_id = event.token_id;
    source_maker_amount = event.maker_amount;
    source_taker_amount = event.taker_amount;
    share_volume = share_volume;
    gross_collateral_volume = gross;
    price = price;
    normalization_kind = kind;
    is_derived = derived;
    segment_sha256 = c.segment_sha256;
    decoder_version = normalizer_version;
    ingested_at = c.ingested_at;
  })

-- The variables of the loop over the passive fills.
pub record Tally : Type 0 where
  pub expected_active_shares : ℕ
  pub expected_active_collateral : ℕ
  pub has_paired_leg : Bool
  pub rows : List FillRow

abbrev pub start_tally : Tally
start_tally = record {
  expected_active_shares = 0;
  expected_active_collateral = 0;
  has_paired_leg = false;
  rows = [];
}

abbrev pub complement_token : PolygonMarket → Outcome → String
complement_token market yes_side = market.no_token_id
complement_token market no_side = market.yes_token_id

-- `"mint" if active.side == "BUY" else "merge"`
abbrev pub paired_kind : Side → NormalizationKind
paired_kind buy = mint
paired_kind sell = merge

abbrev pub or_raise {ℓ} : {A : Type ℓ} → Option A → SettlementError → Result SettlementError A
or_raise none e = err e
or_raise (some a) e = ok a

unfoldable pub complementary_leg :
    SegmentContext
    → PolygonMarket
    → Outcome
    → SettlementEvent
    → ℕ
    → ℕ
    → Tally
    → Result SettlementError Tally
complementary_leg c market outcome event shares collateral t = do
  row ←
      base_fill_row c event market event.token_id outcome event.side shares collateral complementary
        false 0
  ok (record {
    expected_active_shares = t.expected_active_shares + shares;
    expected_active_collateral = t.expected_active_collateral + collateral;
    has_paired_leg = t.has_paired_leg;
    rows = t.rows ++ row ∷ [];
  })

-- `derived` does not truncate: `amounts` has checked `collateral <= shares`.
unfoldable pub paired_leg :
    SegmentContext
    → PolygonMarket
    → Outcome
    → SettlementEvent
    → ℕ
    → ℕ
    → Tally
    → Result SettlementError Tally
paired_leg c market outcome event shares collateral t = do
  raise_if
      (not (
        str_eq event.token_id (complement_token c.active_market c.active_outcome)
        && side_eq event.side c.active.side))
      unsupported_shape
  let derived = shares - collateral
  raise_if (derived == 0) derived_not_positive
  row ←
      base_fill_row c event market event.token_id outcome event.side shares collateral
        (paired_kind c.active.side) false 0
  other ←
      base_fill_row c event c.active_market c.active.token_id c.active_outcome c.active.side shares
        derived (paired_kind c.active.side) true 1
  ok (record {
    expected_active_shares = t.expected_active_shares + shares;
    expected_active_collateral = t.expected_active_collateral + derived;
    has_paired_leg = true;
    rows = t.rows ++ row ∷ other ∷ [];
  })

unfoldable pub passive_leg :
    TokenIndex → SegmentContext → SettlementEvent → Tally → Result SettlementError Tally
passive_leg index c event t = do
  mapped ← or_raise (lookup event.token_id index) unregistered_passive
  raise_if (not (str_eq mapped.0.proposition_id c.active_market.proposition_id)) crosses_conditions
  pair ← amounts event
  (if str_eq event.token_id c.active.token_id && not (side_eq event.side c.active.side)
      then complementary_leg c mapped.0 mapped.1 event pair.0 pair.1 t
      else paired_leg c mapped.0 mapped.1 event pair.0 pair.1 t)

unfoldable pub passive_legs :
    TokenIndex → SegmentContext → List SettlementEvent → Tally → Result SettlementError Tally
passive_legs index c [] t = ok t
passive_legs index c (event ∷ passive) t =
    passive_leg index c event t >>= λ t'. passive_legs index c passive t'

unfoldable pub aggregate_conserves : Side → Bool → ℕ → ℕ → ℕ → ℕ → Bool
aggregate_conserves side false shares collateral expected_shares expected_collateral =
    shares == expected_shares && collateral == expected_collateral
aggregate_conserves buy true shares collateral expected_shares expected_collateral =
    shares == expected_shares && leb expected_collateral collateral
aggregate_conserves sell true shares collateral expected_shares expected_collateral =
    leb expected_shares shares && collateral == expected_collateral

abbrev pub is_filled : EventKind → Bool
is_filled order_filled = true
is_filled orders_matched = false

abbrev pub same_location : SettlementEvent → SettlementEvent → Bool
same_location e a =
    str_eq e.exchange_address a.exchange_address
    && e.block_number == a.block_number
    && str_eq e.block_hash a.block_hash
    && str_eq e.transaction_hash a.transaction_hash
    && e.transaction_index == a.transaction_index

unfoldable pub all_same_location : List SettlementEvent → SettlementEvent → Bool
all_same_location [] a = true
all_same_location (e ∷ es) a = same_location e a && all_same_location es a

abbrev pub same_order : SettlementEvent → SettlementEvent → Bool
same_order a m =
    side_eq a.side m.side
    && str_eq a.token_id m.token_id
    && a.maker_amount == m.maker_amount
    && a.taker_amount == m.taker_amount

abbrev pub is_some {ℓ} : {A : Type ℓ} → Option A → Bool
is_some none = false
is_some (some a) = true

unfoldable pub any_target : TokenIndex → List SettlementEvent → Bool
any_target index [] = false
any_target index (e ∷ es) = is_some (lookup e.token_id index) || any_target index es

-- `str.casefold` on the ASCII texts that addresses are, as code points.
abbrev pub casefold : String → List ℕ
casefold String.[] = []
casefold (String.◌∷◌ ch s) =
    let n = code ch in (if leb 65 n && leb n 90 then n + 32 else n) ∷ casefold s

abbrev pub codes_eq : List ℕ → List ℕ → Bool
codes_eq [] [] = true
codes_eq (a ∷ as') (b ∷ bs) = a == b && codes_eq as' bs
codes_eq _ _ = false

-- The boundary, location and aggregate checks ahead of the token tests.
unfoldable pub check_segment :
    List SettlementEvent → SettlementEvent → SettlementEvent → Result SettlementError (Unit {0})
check_segment passive active matched = do
  raise_if (is_empty passive) no_passive_leg
  raise_if (not (is_filled active.kind) || is_filled matched.kind) malformed_boundary
  raise_if (not (all_same_location (passive ++ active ∷ matched ∷ []) active)) crosses_transactions
  raise_if (not (same_order active matched)) aggregate_mismatch

-- The legs of a segment whose active token is registered.
unfoldable pub target_segment :
    TokenIndex → SegmentContext → List SettlementEvent → Result SettlementError (List FillRow)
target_segment index c passive = do
  raise_if
      (not (codes_eq (codes c.active.exchange_address) (casefold c.active_market.exchange_address)))
      wrong_exchange
  t ← passive_legs index c passive start_tally
  pair ← amounts c.active
  raise_if
      (not (
        aggregate_conserves c.active.side t.has_paired_leg pair.0 pair.1 t.expected_active_shares
          t.expected_active_collateral))
      not_conserved
  ok (
      if leb c.active_market.window_start_at_utc c.block_timestamp
        && ltb c.block_timestamp c.active_market.window_end_at_utc
      then t.rows
      else [])

-- `segment_hash` stands for `_segment_hash`, a digest of the three parts.
module _ (segment_hash : List SettlementEvent → SettlementEvent → SettlementEvent → String) where
  unfoldable pub normalize_v2_segment :
      List PolygonMarket
      → Option TokenIndex
      → String
      → ℕ
      → ℕ
      → ℕ
      → ℕ
      → List SettlementEvent
      → SettlementEvent
      → SettlementEvent
      → Result SettlementError (List FillRow)
  normalize_v2_segment markets token_index scan_id from_block to_block block_timestamp ingested_at
        passive active matched =
      do
        check_segment passive active matched
        let index = effective_index token_index markets
        if not (any_target index (passive ++ active ∷ [])) then ok [] else do
          found ← or_raise (lookup active.token_id index) unregistered_active
          target_segment index
              (record {
                scan_id = scan_id;
                from_block = from_block;
                to_block = to_block;
                active = active;
                matched = matched;
                active_market = found.0;
                active_outcome = found.1;
                segment_sha256 = segment_hash passive active matched;
                block_timestamp = block_timestamp;
                ingested_at = ingested_at;
              })
              passive
