-- ===== src/Settlement/Aggregate.antt =====
-- The checks ahead of the token tests of `normalize_v2_segment` accept exactly the taker aggregates.
use oddsfox_pipeline.Base.{
  List, [], ◌∷◌, ◌++◌, true, ◌≡◌, ◌≢◌, ◌↔◌, refl, inl, inr, ok, arith, All, Bool-cases, eq_iff,
}
use oddsfox_pipeline.Settlement.Types.{SettlementEvent, order_filled, orders_matched}
use oddsfox_pipeline.Settlement.Segment.{same_location, all_same_location, check_segment}

-- Both events stand in the same transaction of the same block, under the same exchange.
pub record SameTransaction (a e : SettlementEvent) : Type 0 where
  pub exchange : e.exchange_address ≡ a.exchange_address
  pub number : e.block_number ≡ a.block_number
  pub block : e.block_hash ≡ a.block_hash
  pub transaction : e.transaction_hash ≡ a.transaction_hash
  pub position : e.transaction_index ≡ a.transaction_index

-- Some passive fills, an active fill and an `OrdersMatched` that repeats it, in one transaction.
pub record IsAggregate (passive : List SettlementEvent) (active matched : SettlementEvent)
    : Type 0 where
  pub some_passive : passive ≢ []
  pub active_kind : active.kind ≡ order_filled
  pub matched_kind : matched.kind ≡ orders_matched
  pub located : All (SameTransaction active) (passive ++ active ∷ matched ∷ [])
  pub side_repeated : active.side ≡ matched.side
  pub token_repeated : active.token_id ≡ matched.token_id
  pub maker_repeated : active.maker_amount ≡ matched.maker_amount
  pub taker_repeated : active.taker_amount ≡ matched.taker_amount

same_location_iff : (e a : SettlementEvent) → (same_location e a ≡ true) ↔ SameTransaction a e
same_location_iff e a = (
  λ h. ground (
    arith,
    eq_iff e.exchange_address a.exchange_address,
    eq_iff e.block_hash a.block_hash,
    eq_iff e.transaction_hash a.transaction_hash,
  ),
  λ s. ground (
    arith,
    eq_iff e.exchange_address a.exchange_address,
    eq_iff e.block_hash a.block_hash,
    eq_iff e.transaction_hash a.transaction_hash,
  ),
)

all_same_location_iff :
    (es : List SettlementEvent) (a : SettlementEvent)
    → (all_same_location es a ≡ true) ↔ All (SameTransaction a) es
unfolding all_same_location
all_same_location_iff [] a = (λ h. tt, λ h. refl)
all_same_location_iff (e ∷ es) a =
    let (to, from) = all_same_location_iff es a in
    let (to', from') = same_location_iff e a in
    (
      λ h. elim (Bool-cases (same_location e a)) [
        | inl s ↦ (to' s, to (rw s at h))
        | inr s ↦ absurd (ground arith)
      ],
      λ h. rw (from' h.0) (from h.1),
    )

check_segment_sound :
    (passive : List SettlementEvent) (active matched : SettlementEvent)
    → check_segment passive active matched ≡ ok tt
    → IsAggregate passive active matched
unfolding check_segment
check_segment_sound [] active matched h = absurd (ground arith)
check_segment_sound (e ∷ passive) active matched h =
    elim (Bool-cases (all_same_location ((e ∷ passive) ++ active ∷ matched ∷ []) active)) [
      | inl l ↦ record {
        some_passive = λ p. cc p;
        active_kind = ground arith;
        matched_kind = ground arith;
        located = (all_same_location_iff _ active).0 l;
        side_repeated = ground arith;
        token_repeated = ground (arith, eq_iff active.token_id matched.token_id);
        maker_repeated = ground arith;
        taker_repeated = ground arith;
      }
      | inr l ↦ absurd (ground arith)
    ]

check_segment_complete :
    (passive : List SettlementEvent) (active matched : SettlementEvent)
    → IsAggregate passive active matched
    → check_segment passive active matched ≡ ok tt
unfolding check_segment
check_segment_complete [] active matched a = absurd (a.some_passive refl)
check_segment_complete (e ∷ passive) active matched a =
    let l = (all_same_location_iff ((e ∷ passive) ++ active ∷ matched ∷ []) active).1 a.located in
    ground (
      arith,
      l,
      a.active_kind,
      a.matched_kind,
      a.side_repeated,
      eq_iff active.token_id matched.token_id,
    )

-- The normalizer's checks pass exactly on taker aggregates: some passive fills, the active fill and
-- an `OrdersMatched` that repeats its side, token and amounts, all of one transaction.
pub check_segment-IsAggregate :
    (passive : List SettlementEvent) (active matched : SettlementEvent)
    → (check_segment passive active matched ≡ ok tt) ↔ IsAggregate passive active matched
check_segment-IsAggregate passive active matched =
    (check_segment_sound passive active matched, check_segment_complete passive active matched)
