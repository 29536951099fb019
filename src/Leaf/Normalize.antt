-- ===== src/Leaf/Normalize.antt =====
-- `decode_and_normalize_leaf`. The digests of the events and of the segments are parameters.
use oddsfox_pipeline.Base.{
  ℕ, String, List, [], ◌∷◌, ◌++◌, map, Option, none, some, not, str_eq, pos, Result, ok, err, ◌>>=◌,
  ◌>>◌, raise_if, length,
}
use oddsfox_pipeline.Rpc.Json.{Json, Fields, text}
use oddsfox_pipeline.Rpc.Search.{PolygonBlock}
use oddsfox_pipeline.Rpc.Client.{Payload, Posted, PolygonRpc}
use oddsfox_pipeline.Rpc.Batch.{value_of}
use oddsfox_pipeline.Rpc.Headers.{blocks}
use oddsfox_pipeline.Settlement.Types.{SettlementEvent, SettlementError, PolygonMarket, FillRow}
use oddsfox_pipeline.Settlement.Index.{by_token}
use oddsfox_pipeline.Settlement.Segment.{normalize_v2_segment}
use oddsfox_pipeline.Settlement.Transactions.{Segment, transaction_segments}
use oddsfox_pipeline.Leaf.Events.{
  LeafError, settlement, outside_scope, duplicate_logs, hash_disagrees, missing_header, of_reply,
  of_result, decode_logs, all_in_scope, all_located_apart, sort_events, targets,
  ordered_transactions,
}

abbrev pub Headers : Type 0
Headers = List (ℕ × PolygonBlock)

-- The blocks of the transactions' events.
unfoldable pub block_numbers : List (List SettlementEvent) → List ℕ
block_numbers [] = []
block_numbers (transaction ∷ transactions) =
    map (λ (event : SettlementEvent). event.block_number) transaction ++ block_numbers transactions

abbrev pub header_at : ℕ → Headers → Result LeafError PolygonBlock
header_at number headers = elim (value_of number headers) [
  | none ↦ err missing_header
  | some block ↦ ok block
]

unfoldable pub check_hashes : Headers → List SettlementEvent → Result LeafError (Unit {0})
unfolding value_of
check_hashes headers [] = ok tt
check_hashes headers (event ∷ events) = header_at event.block_number headers >>= λ block.
    raise_if (not (str_eq block.hash event.block_hash)) hash_disagrees
    >> check_hashes headers events

unfoldable pub check_all_hashes :
    Headers → List (List SettlementEvent) → Result LeafError (Unit {0})
unfolding check_hashes
check_all_hashes headers [] = ok tt
check_all_hashes headers (transaction ∷ transactions) =
    check_hashes headers transaction >> check_all_hashes headers transactions

-- The error that a generator raised behind what it yielded.
abbrev pub raised : Option SettlementError → Result LeafError (List FillRow)
raised none = ok []
raised (some e) = err (settlement e)

pub record LeafResult : Type 0 where
  pub rows : List FillRow
  pub scoped_count : ℕ
  pub scoped_hash : String

module _ (casefold : Json → String) where
  -- The events of the leaf, in the order of the chain.
  unfoldable pub leaf_events :
      List Fields → String → ℕ → ℕ → Result LeafError (List SettlementEvent)
  unfolding decode_logs all_in_scope all_located_apart sort_events
  leaf_events raw_logs exchange_address from_block to_block =
      decode_logs casefold raw_logs >>= λ events.
      raise_if (not (all_in_scope (casefold (text exchange_address)) from_block to_block events))
        outside_scope
      >> raise_if (not (all_located_apart events)) duplicate_logs
      >> ok (sort_events events)

module _ (segment_hash : List SettlementEvent → SettlementEvent → SettlementEvent → String) where
  module _ (markets : List PolygonMarket) (scan_id : String) (from_block to_block ingested_at : ℕ)
      (headers : Headers) where
    unfoldable pub segment_rows : Segment → Result LeafError (List FillRow)
    unfolding normalize_v2_segment
    segment_rows s = header_at s.active.block_number headers >>= λ block. of_result (
        normalize_v2_segment segment_hash markets none scan_id from_block to_block block.timestamp
          ingested_at s.passive s.active s.matched)

    unfoldable pub segments_rows :
        List Segment → Option SettlementError → Result LeafError (List FillRow)
    unfolding segment_rows
    segments_rows [] error = raised error
    segments_rows (s ∷ segments) error =
        segment_rows s >>= λ rows. segments_rows segments error >>= λ more. ok (rows ++ more)

    unfoldable pub transactions_rows : List (List SettlementEvent) → Result LeafError (List FillRow)
    unfolding segments_rows transaction_segments
    transactions_rows [] = ok []
    transactions_rows (transaction ∷ transactions) =
        let (segments, error) = transaction_segments transaction in
        segments_rows segments error >>= λ rows.
        transactions_rows transactions >>= λ more. ok (rows ++ more)

  module _ (sha256_events : List SettlementEvent → String) where
    -- What is made of the events once their headers came.
    unfoldable pub finish_leaf :
        List PolygonMarket
        → String
        → ℕ
        → ℕ
        → ℕ
        → List SettlementEvent
        → Headers
        → Result LeafError LeafResult
    unfolding check_all_hashes transactions_rows targets ordered_transactions by_token
    finish_leaf markets scan_id from_block to_block ingested_at events headers =
        let transactions = ordered_transactions (by_token markets) events in
        let scoped_events = targets (by_token markets) events in
        check_all_hashes headers transactions
        >> transactions_rows markets scan_id from_block to_block ingested_at headers transactions
        >>= λ rows. ok record {
          rows = rows;
          scoped_count = length scoped_events;
          scoped_hash = sha256_events scoped_events;
        }

    module _ (casefold : Json → String) {S : Type 0} (send : Payload → S → Posted × S) where
      unfoldable pub decode_and_normalize_leaf :
          List Fields
          → List PolygonMarket
          → String
          → String
          → ℕ
          → ℕ
          → ℕ
          → PolygonRpc S
          → Result LeafError LeafResult × PolygonRpc S
      unfolding leaf_events finish_leaf ordered_transactions by_token block_numbers
      decode_and_normalize_leaf raw_logs markets scan_id exchange_address from_block to_block
            ingested_at client =
          elim (leaf_events casefold raw_logs exchange_address from_block to_block) [
            | err e ↦ (err e, client)
            | ok events ↦
                let (headers, client') =
                  blocks casefold send
                    (map pos (block_numbers (ordered_transactions (by_token markets) events)))
                    client in
                (
                  of_reply headers
                      >>= finish_leaf markets scan_id from_block to_block ingested_at events,
                  client',
                )
          ]
