-- ===== src/Settlement/Normalized.antt =====
-- `normalize_v2_segment` as a whole: what it accepts, and what the rows of an accepted segment are.
use oddsfox_pipeline.Base.{
  ℕ, ◌≤◌, ◌<◌, String, List, [], Option, some, ◌≡◌, ◌≢◌, inl, inr, Result, ok, arith, Option-cases,
  Result-cases, All,
}
use oddsfox_pipeline.Settlement.Types.{
  SettlementEvent, PolygonMarket, FillRow, SettlementError, Outcome,
}
use oddsfox_pipeline.Settlement.Amounts.{amounts}
use oddsfox_pipeline.Settlement.Index.{TokenIndex, lookup, effective_index}
use oddsfox_pipeline.Settlement.Segment.{
  SegmentContext, check_segment, target_segment, normalize_v2_segment,
}
use oddsfox_pipeline.Settlement.Sides.{IsSideIndex, lookup-IsSideEntry, complement-ne}
use oddsfox_pipeline.Settlement.Conservation.{
  token_shares, token_collateral, any_paired, Reconciles, target_segment-Reconciles,
  target_segment_passed,
}
use oddsfox_pipeline.Settlement.Pricing.{
  IsPriced, paired_collateral, paired_shares, target_segment-IsPriced, target_segment-SplitsUnit,
}

module _ (segment_hash : List SettlementEvent → SettlementEvent → SettlementEvent → String)
    (markets : List PolygonMarket) (token_index : Option TokenIndex) (scan_id : String)
    (from_block to_block block_timestamp ingested_at : ℕ) (passive : List SettlementEvent)
    (active matched : SettlementEvent) where
  abbrev run : Result SettlementError (List FillRow)
  run =
      normalize_v2_segment segment_hash markets token_index scan_id from_block to_block
        block_timestamp ingested_at passive active matched

  abbrev index : TokenIndex
  index = effective_index token_index markets

  abbrev context : PolygonMarket → Outcome → SegmentContext
  context market outcome = record {
    scan_id = scan_id;
    from_block = from_block;
    to_block = to_block;
    active = active;
    matched = matched;
    active_market = market;
    active_outcome = outcome;
    segment_sha256 = segment_hash passive active matched;
    block_timestamp = block_timestamp;
    ingested_at = ingested_at;
  }

  -- An accepted segment with rows is that of a registered active token.
  accepted_target :
      (rows : List FillRow)
      → run ≡ ok rows
      → rows ≢ []
      → (found : PolygonMarket × Outcome) × (lookup active.token_id index ≡ some found)
        × (target_segment index (context found.0 found.1) passive ≡ ok rows)
  unfolding normalize_v2_segment
  accepted_target rows h some_rows = elim (Result-cases (check_segment passive active matched)) [
    | inl (u, e) ↦ elim (Option-cases (lookup active.token_id index)) [
      | inl e' ↦ absurd (ground arith)
      | inr (found, e') ↦ (found, e', ground arith)
    ]
    | inr (x, e) ↦ absurd (ground arith)
  ]

  -- Where every index entry names a side of a market with two different tokens, the rows of an
  -- accepted segment show the active order once: summed over its token, their shares and collateral
  -- are the aggregate's, up to the refund that a mint (collateral) or a merge (shares) may leave.
  pub normalize_v2_segment-Reconciles :
      (rows : List FillRow)
      → IsSideIndex index
      → run ≡ ok rows
      → rows ≢ []
      → (pair : ℕ × ℕ) × (amounts active ≡ ok pair)
        × Reconciles active.side
            (any_paired rows)
            pair
            (token_shares active.token_id rows)
            (token_collateral active.token_id rows)
  normalize_v2_segment-Reconciles rows sides h some_rows =
      let (found, e, target) = accepted_target rows h some_rows in
      target_segment-Reconciles index (context found.0 found.1) passive rows
        (complement-ne active.token_id found.0 found.1
          (lookup-IsSideEntry active.token_id index found.0 found.1 sides e))
        target some_rows

  -- Every row of an accepted segment has 0 < collateral ≤ shares within the exact bound and the
  -- nearest price, and the rows of mints and merges hold one unit of collateral for each share.
  pub normalize_v2_segment-IsPriced :
      (rows : List FillRow)
      → run ≡ ok rows
      → rows ≢ []
      → All IsPriced rows × (paired_collateral rows ≡ paired_shares rows)
  normalize_v2_segment-IsPriced rows h some_rows =
      let (found, e, target) = accepted_target rows h some_rows in
      (
        target_segment-IsPriced index (context found.0 found.1) passive rows target some_rows,
        target_segment-SplitsUnit index (context found.0 found.1) passive rows target some_rows,
      )

  -- Rows are emitted only for a block inside the analysis window of the active token's market.
  normalize_v2_segment_window :
      (rows : List FillRow)
      → run ≡ ok rows
      → rows ≢ []
      → (found : PolygonMarket × Outcome) × (lookup active.token_id index ≡ some found)
        × (found.0.window_start_at_utc ≤ block_timestamp)
        × (block_timestamp < found.0.window_end_at_utc)
  normalize_v2_segment_window rows h some_rows =
      let (found, e, target) = accepted_target rows h some_rows in
      let (t, pair, _, _, _, _, after, before) =
        target_segment_passed index (context found.0 found.1) passive rows target some_rows in
      (found, e, after, before)
