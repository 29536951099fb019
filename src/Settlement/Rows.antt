-- ===== src/Settlement/Rows.antt =====
-- What an emitted row holds.
use oddsfox_pipeline.Base.{ℕ, ◌≤◌, ◌<◌, String, Bool, ◌≡◌, ok, arith}
use oddsfox_pipeline.Settlement.Types.{
  SettlementEvent, PolygonMarket, FillRow, Outcome, Side, NormalizationKind,
}
use oddsfox_pipeline.Settlement.Amounts.{
  decimal_volume, decimal_price, max_ratio_safe_volume_unscaled,
}
use oddsfox_pipeline.Settlement.Segment.{SegmentContext, base_fill_row}

pub decimal_volume_lem :
    (value v : ℕ)
    → decimal_volume value ≡ ok v
    → (v ≡ value) × (0 < value) × (value ≤ max_ratio_safe_volume_unscaled)
unfolding decimal_volume
decimal_volume_lem value v h = ground arith

-- The arguments of `_base_fill_row` that the proofs follow into the row.
pub record HoldsFill (row : FillRow) (token : String) (side : Side) (shares collateral : ℕ)
    (kind : NormalizationKind) (derived : Bool) : Type 0 where
  pub token_at : row.token_id ≡ token
  pub side_at : row.order_side ≡ side
  pub shares_at : row.share_volume ≡ shares
  pub gross_at : row.gross_collateral_volume ≡ collateral
  pub kind_at : row.normalization_kind ≡ kind
  pub derived_at : row.is_derived ≡ derived
  pub shares_fit : shares ≤ max_ratio_safe_volume_unscaled
  pub price_at : decimal_price collateral shares ≡ ok row.price

pub base_fill_row-HoldsFill :
    (c : SegmentContext) (event : SettlementEvent) (market : PolygonMarket) (token : String)
    (outcome : Outcome) (side : Side) (shares collateral : ℕ) (kind : NormalizationKind)
    (derived : Bool) (ordinal : ℕ) (row : FillRow)
    → base_fill_row c event market token outcome side shares collateral kind derived ordinal
      ≡ ok row
    → HoldsFill row token side shares collateral kind derived
unfolding base_fill_row decimal_volume
base_fill_row-HoldsFill c event market token outcome side shares collateral kind derived ordinal row
      h =
    ground arith
