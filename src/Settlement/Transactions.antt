-- ===== src/Settlement/Transactions.antt =====
-- `_transaction_segments` of polygon_settlement_normalize.py: the events of one transaction, in log
-- order, cut behind each `OrdersMatched`. The generator's result is the list of what it yielded and
-- the error that it raised after that, if any.
use oddsfox_pipeline.Base.{
  List, [], ◌∷◌, ◌++◌, Option, none, some, true, false, is_empty, if◌then◌else◌,
}
use oddsfox_pipeline.Settlement.Types.{
  SettlementEvent, SettlementError, no_active_leg, unmatched_fills,
}
use oddsfox_pipeline.Settlement.Segment.{is_filled}

-- (passive, active, matched)
pub record Segment : Type 0 where
  pub passive : List SettlementEvent
  pub active : SettlementEvent
  pub matched : SettlementEvent

-- `(pending[:-1], pending[-1])` of `e ∷ pending`.
abbrev pub split_last :
    SettlementEvent → List SettlementEvent → List SettlementEvent × SettlementEvent
split_last e [] = ([], e)
split_last e (f ∷ pending) = let (before, last) = split_last f pending in (e ∷ before, last)

-- `none` where `len(pending) < 2`.
abbrev pub boundary : List SettlementEvent → SettlementEvent → Option Segment
boundary [] matched = none
boundary (e ∷ []) matched = none
boundary (e ∷ f ∷ pending) matched =
    let (before, last) = split_last e (f ∷ pending) in
    some (record { passive = before; active = last; matched = matched })

unfoldable pub segments_from :
    List SettlementEvent → List SettlementEvent → List Segment × Option SettlementError
segments_from pending [] = ([], if is_empty pending then none else some unmatched_fills)
segments_from pending (event ∷ events) = elim (is_filled event.kind) [
  | true ↦ segments_from (pending ++ event ∷ []) events
  | false ↦ elim (boundary pending event) [
    | none ↦ ([], some no_active_leg)
    | some s ↦ let (rest, error) = segments_from [] events in (s ∷ rest, error)
  ]
]

unfoldable pub transaction_segments : List SettlementEvent → List Segment × Option SettlementError
unfolding segments_from
transaction_segments events = segments_from [] events
