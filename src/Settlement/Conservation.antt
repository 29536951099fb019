-- ===== src/Settlement/Conservation.antt =====
-- The rows of a segment carry the active order's volume once: summed over the active token they
-- make up the aggregate that the exchange reported.
use oddsfox_pipeline.Base.{
  ℕ, ◌+◌, ◌-◌, ◌≤◌, ◌<◌, String, List, [], ◌∷◌, ◌++◌, Bool, true, false, ◌||◌, ◌≡◌, ◌≢◌, refl, inl,
  inr, ok, arith, Option-cases, Result-cases, ok-injective, str_eq, eq_iff, if◌then◌else◌,
}
use mathlib.Core.Path.{subst}
use oddsfox_pipeline.Settlement.Types.{
  SettlementEvent, PolygonMarket, FillRow, Outcome, Side, buy, sell, NormalizationKind,
  complementary, mint, merge,
}
use oddsfox_pipeline.Settlement.Amounts.{amounts}
use oddsfox_pipeline.Settlement.Index.{TokenIndex, lookup}
use oddsfox_pipeline.Settlement.Segment.{
  SegmentContext, base_fill_row, Tally, start_tally, complement_token, complementary_leg,
  paired_leg, paired_kind, passive_leg, passive_legs, aggregate_conserves, target_segment,
}
use oddsfox_pipeline.Settlement.Rows.{base_fill_row-HoldsFill}

-- The share and collateral volume that the rows show for a token.
pub token_shares : String → List FillRow → ℕ
token_shares token [] = 0
token_shares token (row ∷ rows) =
    (if str_eq row.token_id token then row.share_volume else 0) + token_shares token rows

pub token_collateral : String → List FillRow → ℕ
token_collateral token [] = 0
token_collateral token (row ∷ rows) =
    (if str_eq row.token_id token then row.gross_collateral_volume else 0)
    + token_collateral token rows

-- Some row came from a mint or a merge.
abbrev pub is_paired : NormalizationKind → Bool
is_paired complementary = false
is_paired mint = true
is_paired merge = true

pub any_paired : List FillRow → Bool
any_paired [] = false
any_paired (row ∷ rows) = is_paired row.normalization_kind || any_paired rows

any_paired-append :
    (rows more : List FillRow) → any_paired (rows ++ more) ≡ (any_paired rows || any_paired more)
unfolding any_paired
any_paired-append [] more = refl
any_paired-append (row ∷ rows) more = ground (arith, any_paired-append rows more)

pub is_paired-paired_kind : (side : Side) → is_paired (paired_kind side) ≡ true
is_paired-paired_kind buy = refl
is_paired-paired_kind sell = refl

token_shares-append :
    (token : String) (rows more : List FillRow)
    → token_shares token (rows ++ more) ≡ token_shares token rows + token_shares token more
unfolding token_shares
token_shares-append token [] more = omega arith
token_shares-append token (row ∷ rows) more = omega (arith, token_shares-append token rows more)

token_collateral-append :
    (token : String) (rows more : List FillRow)
    → token_collateral token (rows ++ more)
      ≡ token_collateral token rows + token_collateral token more
unfolding token_collateral
token_collateral-append token [] more = omega arith
token_collateral-append token (row ∷ rows) more =
    omega (arith, token_collateral-append token rows more)

-- The loop's two expectations are the sums over the rows emitted so far.
pub record IsTallied (c : SegmentContext) (t : Tally) : Type 0 where
  pub shares_tallied : t.expected_active_shares ≡ token_shares c.active.token_id t.rows
  pub collateral_tallied : t.expected_active_collateral ≡ token_collateral c.active.token_id t.rows
  pub paired_tallied : t.has_paired_leg ≡ any_paired t.rows

module _ (c : SegmentContext) (market : PolygonMarket) (outcome : Outcome) (event : SettlementEvent)
    (shares collateral : ℕ) (t t' : Tally) where
  complementary_leg-IsTallied :
      str_eq event.token_id c.active.token_id ≡ true
      → complementary_leg c market outcome event shares collateral t ≡ ok t'
      → IsTallied c t
      → IsTallied c t'
  unfolding complementary_leg token_shares token_collateral any_paired
  complementary_leg-IsTallied same h v =
      elim (Result-cases (
        base_fill_row c event market event.token_id outcome event.side shares collateral
          complementary false 0)) [
            | inl (row, e) ↦
                let r =
                  base_fill_row-HoldsFill c event market event.token_id outcome event.side shares
                    collateral complementary false 0 row e in
                ground (
                  arith,
                  r.token_at,
                  r.shares_at,
                  r.gross_at,
                  r.kind_at,
                  any_paired-append t.rows (row ∷ []),
                  token_shares-append c.active.token_id t.rows (row ∷ []),
                  token_collateral-append c.active.token_id t.rows (row ∷ []),
                )
            | inr (x, e) ↦ ground arith
          ]

  paired_leg-IsTallied :
      complement_token c.active_market c.active_outcome ≢ c.active.token_id
      → paired_leg c market outcome event shares collateral t ≡ ok t'
      → IsTallied c t
      → IsTallied c t'
  unfolding paired_leg token_shares token_collateral any_paired
  paired_leg-IsTallied apart h v =
      elim (Result-cases (
        base_fill_row c event market event.token_id outcome event.side shares collateral
          (paired_kind c.active.side) false 0)) [
            | inl (row, e) ↦
                elim (Result-cases (
                  base_fill_row c event c.active_market c.active.token_id c.active_outcome
                    c.active.side shares (shares - collateral) (paired_kind c.active.side) true
                    1)) [
                      | inl (other, e') ↦
                          let r =
                            base_fill_row-HoldsFill c event market event.token_id outcome event.side
                              shares collateral (paired_kind c.active.side) false 0 row e in
                          let o =
                            base_fill_row-HoldsFill c event c.active_market c.active.token_id
                              c.active_outcome c.active.side shares (shares - collateral)
                              (paired_kind c.active.side) true 1 other e' in
                          ground (
                            arith,
                            r.token_at,
                            r.shares_at,
                            r.gross_at,
                            r.kind_at,
                            o.token_at,
                            o.shares_at,
                            o.gross_at,
                            is_paired-paired_kind c.active.side,
                            any_paired-append t.rows (row ∷ other ∷ []),
                            eq_iff event.token_id
                                (complement_token c.active_market c.active_outcome),
                            eq_iff row.token_id c.active.token_id,
                            eq_iff other.token_id c.active.token_id,
                            token_shares-append c.active.token_id t.rows (row ∷ other ∷ []),
                            token_collateral-append c.active.token_id t.rows (row ∷ other ∷ []),
                          )
                      | inr (x, e') ↦ ground arith
                    ]
            | inr (x, e) ↦ ground arith
          ]

module _ (index : TokenIndex) (c : SegmentContext)
    (apart : complement_token c.active_market c.active_outcome ≢ c.active.token_id) where
  passive_leg-IsTallied :
      (event : SettlementEvent) (t t' : Tally)
      → passive_leg index c event t ≡ ok t'
      → IsTallied c t
      → IsTallied c t'
  unfolding passive_leg
  passive_leg-IsTallied event t t' h v = elim (Option-cases (lookup event.token_id index)) [
    | inl e ↦ ground arith
    | inr (mapped, e) ↦ elim (Result-cases (amounts event)) [
      | inl (pair, e') ↦ ground (
        arith,
        complementary_leg-IsTallied c mapped.0 mapped.1 event pair.0 pair.1 t t',
        paired_leg-IsTallied c mapped.0 mapped.1 event pair.0 pair.1 t t' apart,
      )
      | inr (x, e') ↦ ground arith
    ]
  ]

  passive_legs-IsTallied :
      (passive : List SettlementEvent) (t t' : Tally)
      → passive_legs index c passive t ≡ ok t'
      → IsTallied c t
      → IsTallied c t'
  unfolding passive_legs
  passive_legs-IsTallied [] t t' h v = subst (IsTallied c) (ok-injective h) v
  passive_legs-IsTallied (event ∷ passive) t t' h v =
      elim (Result-cases (passive_leg index c event t)) [
        | inl (s, e) ↦
            passive_legs-IsTallied passive s t' (rw e at h) (passive_leg-IsTallied event t s e v)
        | inr (x, e) ↦ cc
      ]

start-IsTallied : (c : SegmentContext) → IsTallied c start_tally
unfolding token_shares token_collateral any_paired
start-IsTallied c = record {
  shares_tallied = refl;
  collateral_tallied = refl;
  paired_tallied = refl;
}

-- The active aggregate against what the rows show for its token: a fully complementary match
-- agrees in both amounts; otherwise a BUY may be refunded collateral and a SELL shares.
abbrev pub Reconciles : Side → Bool → ℕ × ℕ → ℕ → ℕ → Type 0
Reconciles side false (shares, collateral) row_shares row_collateral =
    (row_shares ≡ shares) × (row_collateral ≡ collateral)
Reconciles buy true (shares, collateral) row_shares row_collateral =
    (row_shares ≡ shares) × (row_collateral ≤ collateral)
Reconciles sell true (shares, collateral) row_shares row_collateral =
    (row_shares ≤ shares) × (row_collateral ≡ collateral)

aggregate_conserves-Reconciles :
    (side : Side) (paired : Bool) (shares collateral s k : ℕ)
    → aggregate_conserves side paired shares collateral s k ≡ true
    → Reconciles side paired (shares, collateral) s k
unfolding aggregate_conserves
aggregate_conserves-Reconciles buy false shares collateral s k h = ground arith
aggregate_conserves-Reconciles sell false shares collateral s k h = ground arith
aggregate_conserves-Reconciles buy true shares collateral s k h = ground arith
aggregate_conserves-Reconciles sell true shares collateral s k h = ground arith

module _ (index : TokenIndex) (c : SegmentContext) (passive : List SettlementEvent) where
  -- What an accepted segment with rows has passed.
  pub target_segment_passed :
      (rows : List FillRow)
      → target_segment index c passive ≡ ok rows
      → rows ≢ []
      → (t : Tally) × (pair : ℕ × ℕ) × (passive_legs index c passive start_tally ≡ ok t)
        × (amounts c.active ≡ ok pair)
        × (aggregate_conserves c.active.side t.has_paired_leg pair.0 pair.1 t.expected_active_shares
              t.expected_active_collateral
            ≡ true)
        × (t.rows ≡ rows)
        × (c.active_market.window_start_at_utc ≤ c.block_timestamp)
        × (c.block_timestamp < c.active_market.window_end_at_utc)
  unfolding target_segment
  target_segment_passed rows h some_rows =
      elim (Result-cases (passive_legs index c passive start_tally)) [
        | inl (t, e) ↦ elim (Result-cases (amounts c.active)) [
          | inl (pair, e') ↦
              (t, pair, e, e', ground arith, ground arith, ground arith, ground arith)
          | inr (x, e') ↦ absurd (ground arith)
        ]
        | inr (x, e) ↦ absurd (ground arith)
      ]

  pub target_segment-Reconciles :
      (rows : List FillRow)
      → complement_token c.active_market c.active_outcome ≢ c.active.token_id
      → target_segment index c passive ≡ ok rows
      → rows ≢ []
      → (pair : ℕ × ℕ) × (amounts c.active ≡ ok pair)
        × Reconciles c.active.side
            (any_paired rows)
            pair
            (token_shares c.active.token_id rows)
            (token_collateral c.active.token_id rows)
  target_segment-Reconciles rows apart h some_rows =
      let (t, pair, e, e', fits, same, _, _) = target_segment_passed rows h some_rows in
      let v = passive_legs-IsTallied index c apart passive start_tally t e (start-IsTallied c) in
      (pair, e', reconciled t pair v fits same)
    where
      reconciled :
          (t : Tally) (pair : ℕ × ℕ)
          → IsTallied c t
          → aggregate_conserves c.active.side t.has_paired_leg pair.0 pair.1
              t.expected_active_shares t.expected_active_collateral
            ≡ true
          → t.rows ≡ rows
          → Reconciles c.active.side
              (any_paired rows)
              pair
              (token_shares c.active.token_id rows)
              (token_collateral c.active.token_id rows)
      reconciled t pair v fits same =
          rw (← same, ← v.paired_tallied, ← v.shares_tallied, ← v.collateral_tallied)
            (aggregate_conserves-Reconciles c.active.side t.has_paired_leg pair.0 pair.1
              t.expected_active_shares t.expected_active_collateral fits)
