-- ===== src/Rpc/ReceiptBatches.antt =====
-- `_validate_transaction_hashes`, `_parse_receipts`, `transaction_receipt_batch` and
-- `transaction_receipts` of `PolygonRPC`.
use oddsfox_pipeline.Base.{
  ℕ, zero, suc, String, List, [], ◌∷◌, ◌++◌, map, true, false, not, length, take, drop, ◌==◌,
  str_eq, string_eq, from_keys, is_empty, if◌then◌else◌,
}
use oddsfox_pipeline.Rpc.Json.{
  Json, text, Fields, list_of, get_or_null, is_false, as_object, as_array, objects_of,
}
use oddsfox_pipeline.Rpc.Batches.{Reply, done, failed, adaptive_batch_call}
use oddsfox_pipeline.Rpc.Provider.{
  ◌>>=◌, ◌>>◌, ◌>>>◌, fail_if, require, bad_hashes, receipt_unavailable, wrong_receipt,
  not_successful, bad_receipt_logs, inconsistent_log, unequal_lengths,
}
use oddsfox_pipeline.Rpc.Client.{Call, Payload, Posted, PolygonRpc}
use oddsfox_pipeline.Rpc.Batch.{batch_call}
use oddsfox_pipeline.Rpc.Headers.{quantity, hex32, rpc_batch_size}
use oddsfox_pipeline.Rpc.Logs.{all_hex32}

pub record PolygonReceipt : Type 0 where
  pub transaction_hash : String
  pub block_number : ℕ
  pub block_hash : String
  pub transaction_index : ℕ
  pub logs : List Fields

abbrev pub receipt_call : String → Call
receipt_call transaction_hash = ("eth_getTransactionReceipt", text transaction_hash ∷ [])

module _ (casefold : Json → String) where
  unfoldable pub validate_transaction_hashes : List String → Reply (List String)
  unfolding all_hex32
  validate_transaction_hashes transaction_hashes =
      let requested = from_keys (map (λ value. casefold (text value)) transaction_hashes) in
      if all_hex32 requested then done requested else failed bad_hashes

  -- A log that is not removed, and stands where its receipt does.
  unfoldable pub check_log : PolygonReceipt → Fields → Reply (Unit {0})
  unfolding quantity hex32
  check_log receipt raw =
      fail_if (not (is_false (get_or_null "removed" raw))) inconsistent_log
      >> hex32 casefold (get_or_null "transactionHash" raw)
      >>= λ transaction_hash.
          fail_if (not (str_eq transaction_hash receipt.transaction_hash)) inconsistent_log
          >> quantity casefold (get_or_null "blockNumber" raw)
          >>= λ block_number.
              fail_if (not (block_number == receipt.block_number)) inconsistent_log
              >> hex32 casefold (get_or_null "blockHash" raw)
              >>= λ block_hash.
                  fail_if (not (str_eq block_hash receipt.block_hash)) inconsistent_log
                  >> quantity casefold (get_or_null "transactionIndex" raw)
                  >>= λ transaction_index.
                      fail_if (not (transaction_index == receipt.transaction_index))
                        inconsistent_log

  unfoldable pub check_logs : PolygonReceipt → List Fields → Reply (Unit {0})
  unfolding check_log
  check_logs receipt [] = done tt
  check_logs receipt (raw ∷ raw_logs) = check_log receipt raw >> check_logs receipt raw_logs

  unfoldable pub parse_fields : String → Fields → Reply PolygonReceipt
  unfolding quantity hex32 check_logs
  parse_fields expected_hash value =
      hex32 casefold (get_or_null "transactionHash" value) >>= λ transaction_hash.
      fail_if (not (str_eq transaction_hash expected_hash)) wrong_receipt
      >> quantity casefold (get_or_null "status" value)
      >>= λ status.
          fail_if (not (status == 1)) not_successful
          >> quantity casefold (get_or_null "blockNumber" value)
          >>= λ block_number. hex32 casefold (get_or_null "blockHash" value) >>= λ block_hash.
              quantity casefold (get_or_null "transactionIndex" value) >>= λ transaction_index.
              require (as_array (get_or_null "logs" value)) bad_receipt_logs >>= λ items.
              require (objects_of (list_of items)) bad_receipt_logs >>= λ raw_logs.
              let receipt : PolygonReceipt = record {
                transaction_hash = transaction_hash;
                block_number = block_number;
                block_hash = block_hash;
                transaction_index = transaction_index;
                logs = raw_logs;
              } in
              check_logs receipt raw_logs >> done receipt

  unfoldable pub parse_receipt : String → Json → Reply PolygonReceipt
  unfolding parse_fields
  parse_receipt expected_hash value =
      require (as_object value) receipt_unavailable >>= parse_fields expected_hash

  unfoldable pub parse_receipts : List String → List Json → Reply (List (String × PolygonReceipt))
  unfolding parse_receipt
  parse_receipts [] [] = done []
  parse_receipts (expected_hash ∷ requested) (value ∷ values) =
      parse_receipt expected_hash value >>= λ receipt.
      parse_receipts requested values >>= λ receipts.
      done ((receipt.transaction_hash, receipt) ∷ receipts)
  parse_receipts [] (value ∷ values) = failed unequal_lengths
  parse_receipts (expected_hash ∷ requested) [] = failed unequal_lengths

  module _ {S : Type 0} (send : Payload → S → Posted × S) where
    unfoldable pub transaction_receipt_batch :
        List String → PolygonRpc S → Reply (List (String × PolygonReceipt)) × PolygonRpc S
    unfolding validate_transaction_hashes
    transaction_receipt_batch transaction_hashes client =
        (validate_transaction_hashes transaction_hashes, client) >>> λ requested client'.
        elim (is_empty requested) [
          | true ↦ (done [], client')
          | false ↦
              batch_call casefold send (map receipt_call requested) client' >>> λ values client''.
              (parse_receipts requested values, client'')
        ]

    -- A batch takes a hash at least, so their count bounds the rounds. The hashes differ, so an
    -- update never replaces a receipt.
    unfoldable pub receipts_from :
        ℕ → List String → PolygonRpc S → Reply (List (String × PolygonReceipt)) × PolygonRpc S
    receipts_from zero requested client = (done [], client)
    receipts_from (suc fuel) requested client = elim (is_empty requested) [
      | true ↦ (done [], client)
      | false ↦
          let batch = take rpc_batch_size requested in
          adaptive_batch_call (batch_call casefold send) (length batch) (map receipt_call batch)
            client
          >>> λ values client'. (parse_receipts batch values, client') >>> λ receipts client''.
              receipts_from fuel (drop rpc_batch_size requested) client'' >>> λ more client'''.
              (done (receipts ++ more), client''')
    ]

    unfoldable pub transaction_receipts :
        List String → PolygonRpc S → Reply (List (String × PolygonReceipt)) × PolygonRpc S
    unfolding validate_transaction_hashes
    transaction_receipts transaction_hashes client =
        (validate_transaction_hashes transaction_hashes, client) >>> λ requested.
        receipts_from (length requested) requested
