-- ===== src/Rpc/Logs.antt =====
-- `PolygonRPC.logs` and `decode_settlement_log`.
use oddsfox_pipeline.Base.{
  ℕ, String, List, [], ◌∷◌, map, Option, none, some, Bool, true, not, ◌&&◌, ◌||◌, length, ◌==◌, ltb,
  str_eq, is_empty, codes, if◌then◌else◌,
}
use oddsfox_pipeline.Rpc.Json.{
  Json, text, array, object, Fields, end_fields, entry, list_of, items_of, get, get_or_null,
  is_false, as_array, objects_of,
}
use oddsfox_pipeline.Rpc.Hex.{is_hex32, is_address, data_words, hex, decimal}
use oddsfox_pipeline.Rpc.Batches.{Reply, done, failed}
use oddsfox_pipeline.Rpc.Provider.{
  ◌>>=◌, ◌>>◌, fail_if, require, bad_range, bad_topics, bad_log_rows, removed_log, bad_address,
  topics_missing, topic_count, bad_words, unexpected_topic, bad_side, not_positive,
}
use oddsfox_pipeline.Rpc.Client.{Payload, Posted, PolygonRpc, call}
use oddsfox_pipeline.Rpc.Headers.{quantity, hex32}
use oddsfox_pipeline.Settlement.Types.{
  EventKind, order_filled, orders_matched, buy, sell, SettlementEvent,
}

abbrev pub order_filled_topic : String
order_filled_topic = "0xd543adfd945773f1a62f74f0ee55a5e3b9b1a28262980ba90b1a89f2ea84d8ee"

abbrev pub orders_matched_topic : String
orders_matched_topic = "0x174b3811690657c217184f89418266767c87e4805d09680c39fc9c031c0cab7c"

abbrev pub event_topics : List String
event_topics = order_filled_topic ∷ orders_matched_topic ∷ []

unfoldable pub all_hex32 : List String → Bool
unfolding is_hex32
all_hex32 [] = true
all_hex32 (topic ∷ topics) = is_hex32 (codes topic) && all_hex32 topics

abbrev filter_of : String → ℕ → ℕ → List String → Json
filter_of address from_block to_block topics = object (
    entry "address" (text address) (
      entry "fromBlock" (text (hex from_block)) (
        entry "toBlock" (text (hex to_block)) (
          entry "topics" (array (items_of (array (items_of (map text topics)) ∷ []))) end_fields))))

-- The event of the fields that both kinds have, before the kind is known.
pub record Located : Type 0 where
  pub exchange_address : String
  pub block_number : ℕ
  pub block_hash : String
  pub transaction_hash : String
  pub transaction_index : ℕ
  pub log_index : ℕ

-- `side, token_id, maker_amount, taker_amount, *_`
abbrev pub first_four : List ℕ → Option (ℕ × ℕ × ℕ × ℕ)
first_four (side ∷ token_id ∷ maker_amount ∷ taker_amount ∷ rest) =
    some (side, token_id, maker_amount, taker_amount)
first_four _ = none

-- The topics of an event and the words of its data, by its kind.
abbrev pub topics_of : EventKind → ℕ
topics_of order_filled = 4
topics_of orders_matched = 3

abbrev pub words_of_kind : EventKind → ℕ
words_of_kind order_filled = 7
words_of_kind orders_matched = 4

abbrev pub kind_of : String → Option EventKind
kind_of topic =
    if str_eq topic order_filled_topic
    then some order_filled
    else if str_eq topic orders_matched_topic
    then some orders_matched
    else none

unfoldable pub event_of : EventKind → Located → ℕ × ℕ × ℕ × ℕ → Reply SettlementEvent
unfolding decimal
event_of kind common (side, token_id, maker_amount, taker_amount) =
    fail_if (not (side == 0 || side == 1)) bad_side
    >> fail_if (token_id == 0 || maker_amount == 0 || taker_amount == 0) not_positive
    >> done record {
      kind = kind;
      exchange_address = common.exchange_address;
      block_number = common.block_number;
      block_hash = common.block_hash;
      transaction_hash = common.transaction_hash;
      transaction_index = common.transaction_index;
      log_index = common.log_index;
      side = if side == 0 then buy else sell;
      token_id = decimal token_id;
      maker_amount = maker_amount;
      taker_amount = taker_amount;
    }

module _ (casefold : Json → String) where
  -- `str(raw.get("address", "")).casefold()`
  abbrev pub address_of : Option Json → String
  address_of none = ""
  address_of (some value) = casefold value

  unfoldable pub hex32s : List Json → Reply (List String)
  unfolding hex32
  hex32s [] = done []
  hex32s (value ∷ values) =
      hex32 casefold value >>= λ topic. hex32s values >>= λ topics. done (topic ∷ topics)

  unfoldable pub located_of : String → Fields → Reply Located
  unfolding quantity hex32
  located_of address raw = quantity casefold (get_or_null "blockNumber" raw) >>= λ block_number.
      hex32 casefold (get_or_null "blockHash" raw) >>= λ block_hash.
      hex32 casefold (get_or_null "transactionHash" raw) >>= λ transaction_hash.
      quantity casefold (get_or_null "transactionIndex" raw) >>= λ transaction_index.
      quantity casefold (get_or_null "logIndex" raw) >>= λ log_index. done record {
        exchange_address = address;
        block_number = block_number;
        block_hash = block_hash;
        transaction_hash = transaction_hash;
        transaction_index = transaction_index;
        log_index = log_index;
      }

  -- What the topics and the data say.
  unfoldable pub decode_kind : List String → Fields → Located → Reply SettlementEvent
  unfolding data_words event_of
  decode_kind [] raw common = failed topics_missing
  decode_kind (topic ∷ topics) raw common = require (kind_of topic) unexpected_topic >>= λ kind.
      fail_if (not (length (topic ∷ topics) == topics_of kind)) topic_count
      >> require (data_words (codes (casefold (get_or_null "data" raw))) (words_of_kind kind))
          bad_words
      >>= λ words. require (first_four words) bad_words >>= λ amounts. event_of kind common amounts

  unfoldable pub topics_from : Json → Reply (List Json)
  topics_from value = require (as_array value) topics_missing >>= λ items.
      fail_if (is_empty (list_of items)) topics_missing >> done (list_of items)

  unfoldable pub decode_settlement_log : Fields → Reply SettlementEvent
  unfolding is_address topics_from hex32s located_of decode_kind
  decode_settlement_log raw =
      fail_if (not (is_false (get_or_null "removed" raw))) removed_log
      >> fail_if (not (is_address (codes (address_of (get "address" raw))))) bad_address
      >> topics_from (get_or_null "topics" raw)
      >>= λ values. hex32s values >>= λ topics.
          located_of (address_of (get "address" raw)) raw >>= λ common.
          decode_kind topics raw common

  module _ {S : Type 0} (send : Payload → S → Posted × S) where
    unfoldable pub logs :
        String → ℕ → ℕ → List String → PolygonRpc S → Reply (List Fields) × PolygonRpc S
    unfolding call all_hex32
    logs address from_block to_block requested_topics client =
        let topics = map (λ topic. casefold (text topic)) requested_topics in
        if ltb to_block from_block
        then (failed bad_range, client)
        else if is_empty topics || not (all_hex32 topics)
        then (failed bad_topics, client)
        else let (reply, client') =
            call casefold send ("eth_getLogs", filter_of address from_block to_block topics ∷ [])
              client in
          (
            reply >>= λ value. require (as_array value) bad_log_rows >>= λ items.
                require (objects_of (list_of items)) bad_log_rows,
            client',
          )
