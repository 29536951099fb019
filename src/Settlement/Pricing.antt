-- ===== src/Settlement/Pricing.antt =====
-- Every emitted row is priced in range, and the two rows of a mint or merge split one unit of
-- collateral for each share.
use mathlib.Core.Path.{subst}
use oddsfox_pipeline.Base.{
  ℕ, ◌+◌, ◌-◌, ◌*◌, ◌≤◌, ◌<◌, String, List, [], ◌∷◌, ◌++◌, Bool, true, false, ◌≡◌, ◌≢◌, refl, sym,
  ◌∙◌, inl, inr, ok, arith, Bool-cases, Option-cases, Result-cases, ok-injective, All,
  if◌then◌else◌, str_eq, ◌&&◌, not,
}
use oddsfox_pipeline.Settlement.Types.{
  SettlementEvent, PolygonMarket, FillRow, Outcome, Side, side_eq, NormalizationKind, complementary,
}
use oddsfox_pipeline.Settlement.Amounts.{amounts, price_scale, max_ratio_safe_volume_unscaled}
use oddsfox_pipeline.Settlement.Rounding.{
  IsNearestEven, decimal_price-IsNearestEven, decimal_price_inputs,
}
use oddsfox_pipeline.Settlement.Index.{TokenIndex, lookup}
use oddsfox_pipeline.Settlement.Segment.{
  SegmentContext, base_fill_row, Tally, start_tally, complementary_leg, paired_leg, paired_kind,
  passive_leg, passive_legs, target_segment,
}
use oddsfox_pipeline.Settlement.Rows.{HoldsFill, base_fill_row-HoldsFill}
use oddsfox_pipeline.Settlement.Conservation.{
  target_segment_passed, is_paired, is_paired-paired_kind,
}

-- The rows that one passive fill adds.
data Emitted (c : SegmentContext) (t t' : Tally) : Type 0 where
  one :
      (row : FillRow) (token : String) (side : Side) (shares collateral : ℕ)
      → HoldsFill row token side shares collateral complementary false
      → t'.rows ≡ t.rows ++ row ∷ []
      → Emitted c t t'
  two :
      (row other : FillRow) (token : String) (side : Side) (shares collateral : ℕ)
      → HoldsFill row token side shares collateral (paired_kind c.active.side) false
      → HoldsFill other c.active.token_id c.active.side shares
          (shares - collateral)
          (paired_kind c.active.side)
          true
      → t'.rows ≡ t.rows ++ row ∷ other ∷ []
      → Emitted c t t'

module _ (c : SegmentContext) (market : PolygonMarket) (outcome : Outcome) (event : SettlementEvent)
    (shares collateral : ℕ) (t t' : Tally) where
  complementary_leg-Emitted :
      complementary_leg c market outcome event shares collateral t ≡ ok t' → Emitted c t t'
  unfolding complementary_leg
  complementary_leg-Emitted h =
      elim (Result-cases (
        base_fill_row c event market event.token_id outcome event.side shares collateral
          complementary false 0)) [
            | inl (row, e) ↦
                one row event.token_id event.side shares collateral
                  (base_fill_row-HoldsFill c event market event.token_id outcome event.side shares
                    collateral complementary false 0 row e)
                  (ground arith)
            | inr (x, e) ↦ absurd (ground arith)
          ]

  paired_leg-Emitted :
      paired_leg c market outcome event shares collateral t ≡ ok t' → Emitted c t t'
  unfolding paired_leg
  paired_leg-Emitted h =
      elim (Result-cases (
        base_fill_row c event market event.token_id outcome event.side shares collateral
          (paired_kind c.active.side) false 0)) [
            | inl (row, e) ↦
                elim (Result-cases (
                  base_fill_row c event c.active_market c.active.token_id c.active_outcome
                    c.active.side shares (shares - collateral) (paired_kind c.active.side) true
                    1)) [
                      | inl (other, e') ↦
                          two row other event.token_id event.side shares collateral
                            (base_fill_row-HoldsFill c event market event.token_id outcome
                              event.side shares collateral (paired_kind c.active.side) false 0 row
                              e)
                            (base_fill_row-HoldsFill c event c.active_market c.active.token_id
                              c.active_outcome c.active.side shares (shares - collateral)
                              (paired_kind c.active.side) true 1 other e')
                            (ground arith)
                      | inr (x, e') ↦ absurd (ground arith)
                    ]
            | inr (x, e) ↦ absurd (ground arith)
          ]

passive_leg-Emitted :
    (index : TokenIndex) (c : SegmentContext) (event : SettlementEvent) (t t' : Tally)
    → passive_leg index c event t ≡ ok t'
    → Emitted c t t'
unfolding passive_leg
passive_leg-Emitted index c event t t' h = elim (Option-cases (lookup event.token_id index)) [
  | inl e ↦ absurd (ground arith)
  | inr (mapped, e) ↦ elim (Result-cases (amounts event)) [
    | inl (pair, e') ↦
        elim (Bool-cases
          (str_eq event.token_id c.active.token_id && not (side_eq event.side c.active.side))) [
            | inl same ↦
                complementary_leg-Emitted c mapped.0 mapped.1 event pair.0 pair.1 t t'
                  (ground arith)
            | inr other ↦
                paired_leg-Emitted c mapped.0 mapped.1 event pair.0 pair.1 t t' (ground arith)
          ]
    | inr (x, e') ↦ absurd (ground arith)
  ]
]

-- A property of the rows that every emission keeps holds of the rows of all the legs.
passive_legs_induction :
    (P : List FillRow → Type 0) (index : TokenIndex) (c : SegmentContext)
    → ((t t' : Tally) → Emitted c t t' → P t.rows → P t'.rows)
    → (passive : List SettlementEvent) (t t' : Tally) → passive_legs index c passive t ≡ ok t'
    → P t.rows
    → P t'.rows
unfolding passive_legs
passive_legs_induction P index c keep [] t t' h p =
    subst (λ (u : Tally). P u.rows) (ok-injective h) p
passive_legs_induction P index c keep (event ∷ passive) t t' h p =
    elim (Result-cases (passive_leg index c event t)) [
      | inl (s, e) ↦
          passive_legs_induction P index c keep passive s t' (rw e at h)
            (keep t s (passive_leg-Emitted index c event t s e) p)
      | inr (x, e) ↦ absurd (cc)
    ]

-- 0 < collateral ≤ shares within the exact bound, and the price is their ratio in units of 10^-18,
-- to the nearest, ties to even.
pub record IsPriced (row : FillRow) : Type 0 where
  pub some_collateral : 0 < row.gross_collateral_volume
  pub covered : row.gross_collateral_volume ≤ row.share_volume
  pub exact : row.share_volume ≤ max_ratio_safe_volume_unscaled
  pub at_most_one : row.price ≤ price_scale
  pub nearest : IsNearestEven (row.gross_collateral_volume * price_scale) row.share_volume row.price

HoldsFill-IsPriced :
    (row : FillRow) (token : String) (side : Side) (shares collateral : ℕ)
    (kind : NormalizationKind) (derived : Bool)
    → HoldsFill row token side shares collateral kind derived
    → IsPriced row
HoldsFill-IsPriced row token side shares collateral kind derived r =
    let (pos, le) = decimal_price_inputs collateral shares row.price r.price_at in
    let (q, e, near, small) = decimal_price-IsNearestEven collateral shares pos le in
    let same : q ≡ row.price = ok-injective (sym e ∙ r.price_at) in
    record {
      some_collateral = rw r.gross_at pos;
      covered = rw (r.gross_at, r.shares_at) le;
      exact = rw r.shares_at r.shares_fit;
      at_most_one = rw (← same) small;
      nearest = rw (r.gross_at, r.shares_at, ← same) near;
    }

All-append :
    (rows more : List FillRow) → All IsPriced rows → All IsPriced more → All IsPriced (rows ++ more)
All-append [] more h k = k
All-append (row ∷ rows) more h k = (h.0, All-append rows more h.1 k)

Emitted-IsPriced :
    (c : SegmentContext) (t t' : Tally)
    → Emitted c t t'
    → All IsPriced t.rows
    → All IsPriced t'.rows
Emitted-IsPriced c t t' (one row token side shares collateral r e) h = rw e (
    All-append t.rows (row ∷ []) h
      (HoldsFill-IsPriced row token side shares collateral complementary false r, tt))
Emitted-IsPriced c t t' (two row other token side shares collateral r o e) h = rw e (
    All-append t.rows (row ∷ other ∷ []) h (
      HoldsFill-IsPriced row token side shares collateral (paired_kind c.active.side) false r,
      (
        HoldsFill-IsPriced other c.active.token_id c.active.side shares (shares - collateral)
            (paired_kind c.active.side) true o,
        tt,
      ),
    ))

-- The collateral of the rows of mints and merges, and the shares of those that are not derived.
pub paired_collateral : List FillRow → ℕ
paired_collateral [] = 0
paired_collateral (row ∷ rows) =
    (if is_paired row.normalization_kind then row.gross_collateral_volume else 0)
    + paired_collateral rows

pub paired_shares : List FillRow → ℕ
paired_shares [] = 0
paired_shares (row ∷ rows) =
    (if is_paired row.normalization_kind && not row.is_derived then row.share_volume else 0)
    + paired_shares rows

paired_collateral-append :
    (rows more : List FillRow)
    → paired_collateral (rows ++ more) ≡ paired_collateral rows + paired_collateral more
unfolding paired_collateral
paired_collateral-append [] more = omega arith
paired_collateral-append (row ∷ rows) more = omega (arith, paired_collateral-append rows more)

paired_shares-append :
    (rows more : List FillRow)
    → paired_shares (rows ++ more) ≡ paired_shares rows + paired_shares more
unfolding paired_shares
paired_shares-append [] more = omega arith
paired_shares-append (row ∷ rows) more = omega (arith, paired_shares-append rows more)

abbrev SplitsUnit : List FillRow → Type 0
SplitsUnit rows = paired_collateral rows ≡ paired_shares rows

Emitted-SplitsUnit :
    (c : SegmentContext) (t t' : Tally) → Emitted c t t' → SplitsUnit t.rows → SplitsUnit t'.rows
unfolding paired_collateral paired_shares
Emitted-SplitsUnit c t t' (one row token side shares collateral r e) h = rw e (
    ground (
      arith,
      r.kind_at,
      paired_collateral-append t.rows (row ∷ []),
      paired_shares-append t.rows (row ∷ []),
    ))
Emitted-SplitsUnit c t t' (two row other token side shares collateral r o e) h =
    let inputs = decimal_price_inputs collateral shares row.price r.price_at in
    rw e (
      ground (
        arith,
        r.kind_at,
        r.derived_at,
        r.shares_at,
        r.gross_at,
        o.kind_at,
        o.derived_at,
        o.gross_at,
        inputs.1,
        is_paired-paired_kind c.active.side,
        paired_collateral-append t.rows (row ∷ other ∷ []),
        paired_shares-append t.rows (row ∷ other ∷ []),
      ))

module _ (index : TokenIndex) (c : SegmentContext) (passive : List SettlementEvent)
    (rows : List FillRow) (accepted : target_segment index c passive ≡ ok rows)
    (some_rows : rows ≢ []) where
  pub target_segment-IsPriced : All IsPriced rows
  target_segment-IsPriced =
      let (t, pair, e, _, _, same, _, _) =
        target_segment_passed index c passive rows accepted some_rows in
      subst (All IsPriced) same (
        passive_legs_induction (All IsPriced) index c (Emitted-IsPriced c) passive start_tally t e
          tt)

  pub target_segment-SplitsUnit : paired_collateral rows ≡ paired_shares rows
  target_segment-SplitsUnit =
      let (t, pair, e, _, _, same, _, _) =
        target_segment_passed index c passive rows accepted some_rows in
      subst SplitsUnit same (
        passive_legs_induction SplitsUnit index c (Emitted-SplitsUnit c) passive start_tally t e
          (unfold paired_collateral paired_shares in refl))
