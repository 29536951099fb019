-- ===== src/Rpc/ClientTests.antt =====
-- A provider that answers the second of two calls first, and one that knows a header and a receipt.
use oddsfox_pipeline.Base.{
  ℕ, ◌+◌, ◌≤◌, String, codes, List, [], ◌∷◌, map, some, false, ◌≡◌, ◌≢◌, refl, arith, count, nat_eq,
  string_eq, contains, remove, from_keys, pos,
}
use oddsfox_pipeline.Rpc.Json.{
  Json, bool, number, text, array, object, Items, end_items, item, Fields, end_fields, entry,
  list_of, get, get_or_null, has_key, equals_number, objects_of, as_array,
}
use oddsfox_pipeline.Rpc.Hex.{hex, hex_quantity, all_hex}
use oddsfox_pipeline.Rpc.HexRoundTrip.{hex_quantity-hex}
use oddsfox_pipeline.Rpc.Search.{PolygonBlock}
use oddsfox_pipeline.Rpc.Batches.{done, failed, adaptive_batch_call}
use oddsfox_pipeline.Rpc.Provider.{missing_key}
use oddsfox_pipeline.Rpc.Client.{Call, Payload, single, batch, Posted, answered, PolygonRpc, post}
use oddsfox_pipeline.Rpc.Batch.{batch_call}
use oddsfox_pipeline.Rpc.Envelopes.{IsAnswer}
use oddsfox_pipeline.Rpc.Restored.{ids_from, EachAnswered}
use oddsfox_pipeline.Rpc.Ordered.{AllAnswers}
use oddsfox_pipeline.Rpc.InOrder.{
  response_to, batch_call-map, batch_call-EachAnswered, batch_call-finds,
}
use oddsfox_pipeline.Rpc.Headers.{
  blocks, block, cached, missing_of, fetch_missing, fetch_batch, naturals, store_batch,
}
use oddsfox_pipeline.Rpc.Fetched.{AreHeadersOf, blocks-AreHeadersOf, block-again}
use oddsfox_pipeline.Rpc.ReceiptBatches.{
  PolygonReceipt, validate_transaction_hashes, parse_receipts, transaction_receipt_batch,
}
use oddsfox_pipeline.Rpc.ReceiptKeys.{AreReceiptsOf, transaction_receipt_batch-AreReceiptsOf}

hex_quantity-hex_example : hex_quantity (codes (hex 65000)) ≡ some 65000
hex_quantity-hex_example = hex_quantity-hex 65000

-- Lower-case texts only.
abbrev folded : Json → String
folded (text value) = value
folded _ = ""

abbrev client : PolygonRpc (Unit {0})
client = record {
  request_id = 4;
  blocks = [];
  metrics = record {
    http_request_count = 0;
    log_rpc_call_count = 0;
    receipt_rpc_call_count = 0;
    header_rpc_call_count = 0;
    retry_count = 0;
  };
  activities = [];
  provider = tt;
}

abbrev two_calls : List Call
two_calls = ("eth_chainId", []) ∷ ("eth_blockNumber", []) ∷ []

abbrev doubled : ℕ → Json
doubled n = number (pos (n + n))

abbrev envelope : ℕ → Json → Json
envelope id value =
    object (
      entry "jsonrpc" (text "2.0") (entry "id" (number (pos id)) (entry "result" value end_fields)))

abbrev backwards : Payload → Unit {0} → Posted × Unit {0}
backwards payload s =
    (answered (array (item (envelope 6 (doubled 6)) (item (envelope 5 (doubled 5)) end_items))), s)

envelope-IsAnswer : (id : ℕ) (value : Json) → IsAnswer id value (envelope id value)
unfolding get get_or_null
envelope-IsAnswer id value = record {
  fields =
      entry "jsonrpc" (text "2.0") (entry "id" (number (pos id)) (entry "result" value end_fields));
  is_object = refl;
  has_version = refl;
  has_id = refl;
  has_no_error = refl;
  has_result = refl;
}

two_answers :
    AllAnswers doubled
      (6 ∷ 5 ∷ [])
      (list_of (item (envelope 6 (doubled 6)) (item (envelope 5 (doubled 5)) end_items)))
unfolding list_of
two_answers = (envelope-IsAnswer 6 (doubled 6), (envelope-IsAnswer 5 (doubled 5), tt))

distinct : (k : ℕ) → count k (6 ∷ 5 ∷ []) ≤ 1
unfolding count
distinct k = ground arith

batch_call-map_example :
    (batch_call folded backwards two_calls client).0 ≡ done (map doubled (ids_from 4 2))
batch_call-map_example =
    batch_call-map folded backwards two_calls client doubled (6 ∷ 5 ∷ [])
      (item (envelope 6 (doubled 6)) (item (envelope 5 (doubled 5)) end_items)) refl two_answers
      ((omega arith, omega arith), ((omega arith, omega arith), tt)) distinct refl

in_call_order : (batch_call folded backwards two_calls client).0 ≡ done (doubled 5 ∷ doubled 6 ∷ [])
unfolding batch_call ids_from get_or_null contains has_key
in_call_order = refl

batch_call-EachAnswered_example :
    (response : Json) × (items : Items) × (response_to folded backwards two_calls client
      ≡ done response)
    × (as_array response ≡ some items)
    × EachAnswered (ids_from 4 2) (doubled 5 ∷ doubled 6 ∷ []) (list_of items)
batch_call-EachAnswered_example =
    batch_call-EachAnswered folded backwards ("eth_chainId", []) (("eth_blockNumber", []) ∷ [])
      client in_call_order

batch_call-finds_example : (batch_call folded backwards two_calls client).0 ≢ failed missing_key
batch_call-finds_example = batch_call-finds folded backwards two_calls client

abbrev hash : String
hash = "0x00000000000000000000000000000000000000000000000000000000000000a1"

abbrev header_of_7 : Json
header_of_7 = object (
    entry "number" (text "0x7")
      (entry "hash" (text hash) (entry "timestamp" (text "0x10") end_fields)))

abbrev header_of : Payload → Unit {0} → Posted × Unit {0}
header_of (single request) s = (answered (envelope 5 header_of_7), s)
header_of (batch requests) s = (answered (array (item (envelope 5 header_of_7) end_items)), s)

abbrev block_7 : PolygonBlock
block_7 = record { number = 7; hash = hash; timestamp = 16 }

found_7 : (blocks folded header_of (pos 7 ∷ pos 7 ∷ []) client).0 ≡ done ((7, block_7) ∷ [])
unfolding blocks cached missing_of fetch_missing fetch_batch adaptive_batch_call batch_call
    get_or_null contains has_key from_keys remove store_batch
found_7 = refl

naturals_7 : naturals (pos 7 ∷ pos 7 ∷ []) ≡ some (7 ∷ 7 ∷ [])
unfolding naturals
naturals_7 = refl

blocks-AreHeadersOf_example : AreHeadersOf (from_keys (7 ∷ 7 ∷ [])) ((7, block_7) ∷ [])
blocks-AreHeadersOf_example =
    blocks-AreHeadersOf folded header_of (pos 7 ∷ pos 7 ∷ []) (7 ∷ 7 ∷ []) client
      ((7, block_7) ∷ []) naturals_7 tt found_7

one_block : (block folded header_of 7 client).0 ≡ done block_7
unfolding block get_or_null has_key post equals_number
one_block = refl

block-again_example :
    block folded header_of 7 (block folded header_of 7 client).1
    ≡ (done block_7, (block folded header_of 7 client).1)
block-again_example = block-again folded header_of 7 client block_7 one_block

abbrev log_fields : Fields
log_fields = entry "removed" (bool false) (
    entry "transactionHash" (text hash) (
      entry "blockNumber" (text "0x7")
        (entry "blockHash" (text hash) (entry "transactionIndex" (text "0x2") end_fields))))

abbrev receipt_json : Json
receipt_json = object (
    entry "transactionHash" (text hash) (
      entry "status" (text "0x1") (
        entry "blockNumber" (text "0x7") (
          entry "blockHash" (text hash) (
            entry "transactionIndex" (text "0x2")
              (entry "logs" (array (item (object log_fields) end_items)) end_fields))))))

abbrev receipt : PolygonReceipt
receipt = record {
  transaction_hash = hash;
  block_number = 7;
  block_hash = hash;
  transaction_index = 2;
  logs = log_fields ∷ [];
}

abbrev receipt_of : Payload → Unit {0} → Posted × Unit {0}
receipt_of payload s = (answered (array (item (envelope 5 receipt_json) end_items)), s)

hash_accepted : validate_transaction_hashes folded (hash ∷ []) ≡ done (hash ∷ [])
unfolding validate_transaction_hashes from_keys remove all_hex
hash_accepted = refl

receipt_received :
    (transaction_receipt_batch folded receipt_of (hash ∷ []) client).0 ≡ done ((hash, receipt) ∷ [])
unfolding transaction_receipt_batch parse_receipts batch_call get_or_null contains has_key list_of
    objects_of from_keys remove
receipt_received = refl

transaction_receipt_batch-AreReceiptsOf_example :
    AreReceiptsOf folded (hash ∷ []) ((hash, receipt) ∷ [])
transaction_receipt_batch-AreReceiptsOf_example =
    transaction_receipt_batch-AreReceiptsOf folded receipt_of (hash ∷ []) (hash ∷ []) client
      ((hash, receipt) ∷ []) hash_accepted receipt_received
