-- ===== src/Leaf/Discover.antt =====
-- `discover_and_normalize_leaf`: the `OrdersMatched` logs of a range name the transactions whose
-- receipts hold all logs of the target segments.
use oddsfox_pipeline.Base.{
  ℕ, ◌+◌, String, List, [], ◌∷◌, ◌++◌, map, Option, none, some, Bool, true, false, not, ◌&&◌, ◌||◌,
  leb, ◌==◌, str_eq, pos, Result, ok, err, ◌>>=◌, ◌>>◌, raise_if, length, is_empty, from_keys,
  string_eq, if◌then◌else◌,
}
use oddsfox_pipeline.Rpc.Json.{Json, Fields, text, list_of, get, get_or_null, as_array}
use oddsfox_pipeline.Rpc.Client.{Payload, Posted, PolygonRpc}
use oddsfox_pipeline.Rpc.Headers.{blocks}
use oddsfox_pipeline.Rpc.Logs.{address_of, order_filled_topic, orders_matched_topic}
use oddsfox_pipeline.Rpc.ReceiptBatches.{PolygonReceipt, transaction_receipts}
use oddsfox_pipeline.Settlement.Types.{SettlementEvent, PolygonMarket, side_eq}
use oddsfox_pipeline.Settlement.Index.{TokenIndex, by_token}
use oddsfox_pipeline.Settlement.Segment.{is_filled}
use oddsfox_pipeline.Leaf.Events.{
  LeafError, invalid_discovery, duplicate_discoveries, no_receipt, logs_disagree, of_reply,
  decode_logs, in_scope, all_located_apart, sort_events, targets,
}
use oddsfox_pipeline.Leaf.Normalize.{LeafResult, decode_and_normalize_leaf}

-- The rows with what `decode_and_normalize_leaf` returns beside them, and the count of provider logs.
pub record DiscoveredLeaf : Type 0 where
  pub leaf : LeafResult
  pub provider_logs : ℕ

unfoldable pub all_valid_discoveries : String → ℕ → ℕ → List SettlementEvent → Bool
all_valid_discoveries expected_address from_block to_block [] = true
all_valid_discoveries expected_address from_block to_block (event ∷ events) =
    not (is_filled event.kind)
    && in_scope expected_address from_block to_block event
    && all_valid_discoveries expected_address from_block to_block events

unfoldable pub matched_only : List SettlementEvent → List SettlementEvent
matched_only [] = []
matched_only (event ∷ events) =
    let rest = matched_only events in if is_filled event.kind then rest else event ∷ rest

-- `_event_payload(a) == _event_payload(b)`: every field; amounts differ where their texts do.
abbrev pub same_payload : SettlementEvent → SettlementEvent → Bool
same_payload a b =
    (if is_filled a.kind then is_filled b.kind else not (is_filled b.kind))
    && str_eq a.exchange_address b.exchange_address
    && a.block_number == b.block_number
    && str_eq a.block_hash b.block_hash
    && str_eq a.transaction_hash b.transaction_hash
    && a.transaction_index == b.transaction_index
    && a.log_index == b.log_index
    && side_eq a.side b.side
    && str_eq a.token_id b.token_id
    && a.maker_amount == b.maker_amount
    && a.taker_amount == b.taker_amount

unfoldable pub same_payloads : List SettlementEvent → List SettlementEvent → Bool
same_payloads [] [] = true
same_payloads (a ∷ first) (b ∷ second) = same_payload a b && same_payloads first second
same_payloads _ _ = false

unfoldable pub receipt_at : String → List (String × PolygonReceipt) → Option PolygonReceipt
receipt_at hash [] = none
receipt_at hash ((key, receipt) ∷ receipts) =
    if str_eq key hash then some receipt else receipt_at hash receipts

abbrev pub transaction_hashes : List SettlementEvent → List String
transaction_hashes = map (λ (event : SettlementEvent). event.transaction_hash)

module _ (casefold : Json → String) where
  abbrev pub has_event_topic : List Json → Bool
  has_event_topic [] = false
  has_event_topic (topic ∷ topics) =
      str_eq (casefold topic) order_filled_topic || str_eq (casefold topic) orders_matched_topic

  abbrev topics_match : Option (List Json) → Bool
  topics_match none = false
  topics_match (some topics) = has_event_topic topics

  abbrev listed : Json → Option (List Json)
  listed value = elim (as_array value) [ none ↦ none | some items ↦ some (list_of items) ]

  -- A log of the exchange with one of the two topics.
  unfoldable pub is_exchange_log : String → Fields → Bool
  is_exchange_log expected_address raw =
      str_eq (address_of casefold (get "address" raw)) expected_address
      && topics_match (listed (get_or_null "topics" raw))

  unfoldable pub exchange_logs : String → List Fields → List Fields
  unfolding is_exchange_log
  exchange_logs expected_address [] = []
  exchange_logs expected_address (raw ∷ raw_logs) =
      let rest = exchange_logs expected_address raw_logs in
      if is_exchange_log expected_address raw then raw ∷ rest else rest

  abbrev in_range : ℕ → ℕ → PolygonReceipt → Bool
  in_range from_block to_block receipt =
      leb from_block receipt.block_number && leb receipt.block_number to_block

  unfoldable pub receipt_logs_of :
      String → ℕ → ℕ → List (String × PolygonReceipt) → List String → Result LeafError (List Fields)
  unfolding exchange_logs receipt_at
  receipt_logs_of expected_address from_block to_block receipts [] = ok []
  receipt_logs_of expected_address from_block to_block receipts (hash ∷ hashes) =
      let rest = receipt_logs_of expected_address from_block to_block receipts hashes in
      elim (receipt_at hash receipts) [
        | none ↦ err no_receipt
        | some receipt ↦
            raise_if (not (in_range from_block to_block receipt)) no_receipt >> rest >>= λ more.
            ok (exchange_logs expected_address receipt.logs ++ more)
      ]

  -- The discoveries of the leaf, in the order of the chain, that are of a target token.
  unfoldable pub target_discoveries :
      TokenIndex → List Fields → String → ℕ → ℕ → Result LeafError (List SettlementEvent)
  unfolding decode_logs all_valid_discoveries all_located_apart sort_events targets
  target_discoveries index raw_matched_logs exchange_address from_block to_block =
      decode_logs casefold raw_matched_logs >>= λ discoveries.
      raise_if
        (not (
          all_valid_discoveries (casefold (text exchange_address)) from_block to_block discoveries))
        invalid_discovery
      >> raise_if (not (all_located_apart discoveries)) duplicate_discoveries
      >> ok (sort_events (targets index discoveries))

  -- The logs of the receipts and their events, which have to show the discoveries again.
  unfoldable pub reconstructed :
      TokenIndex
      → String
      → ℕ
      → ℕ
      → List SettlementEvent
      → List (String × PolygonReceipt)
      → Result LeafError (List Fields × List SettlementEvent)
  unfolding receipt_logs_of decode_logs sort_events targets matched_only same_payloads
  reconstructed index exchange_address from_block to_block discoveries receipts =
      receipt_logs_of (casefold (text exchange_address)) from_block to_block receipts
        (from_keys (transaction_hashes discoveries))
      >>= λ receipt_logs. decode_logs casefold receipt_logs >>= λ receipt_events.
          raise_if
            (not (
              same_payloads (sort_events (targets index (matched_only receipt_events)))
                discoveries))
            logs_disagree
          >> ok (receipt_logs, receipt_events)

module _ (segment_hash : List SettlementEvent → SettlementEvent → SettlementEvent → String)
    (sha256_events : List SettlementEvent → String) (casefold : Json → String) {S : Type 0}
    (send : Payload → S → Posted × S) where
  abbrev with_provider_logs : ℕ → LeafResult → Result LeafError DiscoveredLeaf
  with_provider_logs n leaf = ok record { leaf = leaf; provider_logs = n }

  -- From the receipt logs on: their headers, and the leaf of the complete logs.
  unfoldable pub normalize_receipts :
      List PolygonMarket
      → String
      → String
      → ℕ
      → ℕ
      → ℕ
      → ℕ
      → List Fields × List SettlementEvent
      → PolygonRpc S
      → Result LeafError DiscoveredLeaf × PolygonRpc S
  normalize_receipts markets scan_id exchange_address from_block to_block ingested_at discovered
        (receipt_logs, receipt_events) client =
      let (headers, client') =
        blocks casefold send
          (map (λ (event : SettlementEvent). pos event.block_number) receipt_events) client in
      elim (of_reply headers) [
        | err e ↦ (err e, client')
        | ok known ↦
            let (leaf, client'') =
              decode_and_normalize_leaf segment_hash sha256_events casefold send receipt_logs
                markets scan_id exchange_address from_block to_block ingested_at client' in
            (leaf >>= with_provider_logs (discovered + length receipt_logs), client'')
      ]

  unfoldable pub discover_and_normalize_leaf :
      List Fields
      → List PolygonMarket
      → String
      → String
      → ℕ
      → ℕ
      → ℕ
      → PolygonRpc S
      → Result LeafError DiscoveredLeaf × PolygonRpc S
  unfolding target_discoveries reconstructed normalize_receipts by_token
  discover_and_normalize_leaf raw_matched_logs markets scan_id exchange_address from_block to_block
        ingested_at client =
      elim (target_discoveries casefold (by_token markets) raw_matched_logs exchange_address
        from_block to_block) [
          | err e ↦ (err e, client)
          | ok discoveries ↦ elim (is_empty discoveries) [
            | true ↦ (
              with_provider_logs (length raw_matched_logs)
                  record { rows = []; scoped_count = 0; scoped_hash = sha256_events [] },
              client,
            )
            | false ↦
                let (receipts, client') =
                  transaction_receipts casefold send (transaction_hashes discoveries) client in
                elim (of_reply receipts
                  >>= reconstructed casefold (by_token markets) exchange_address from_block to_block
                      discoveries) [
                        | err e ↦ (err e, client')
                        | ok complete ↦
                            normalize_receipts markets scan_id exchange_address from_block to_block
                              ingested_at (length raw_matched_logs) complete client'
                      ]
          ]
        ]
