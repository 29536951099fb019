-- ===== src/Rpc/ReceiptKeys.antt =====
-- The receipts of a batch are those asked for, and their logs stand where they do.
use mathlib.Core.Path.{subst}
use oddsfox_pipeline.Base.{
  String, List, [], ◌∷◌, map, true, not, ◌≡◌, refl, ap, ◌∙◌, eq_iff, All, ◌==◌, ==_iff, str_eq,
  string_eq,
}
use oddsfox_pipeline.Rpc.Json.{
  Json, Fields, get_or_null, is_false, as_object, as_array, objects_of, list_of,
}
use oddsfox_pipeline.Rpc.Batches.{Reply, done, size_limit, failed}
use oddsfox_pipeline.Rpc.Provider.{
  ◌>>>◌, require, inconsistent_log, wrong_receipt, not_successful, bad_receipt_logs,
  receipt_unavailable,
}
use oddsfox_pipeline.Rpc.Client.{Payload, Posted, PolygonRpc}
use oddsfox_pipeline.Rpc.Batch.{batch_call}
use oddsfox_pipeline.Rpc.Envelopes.{done-injective}
use oddsfox_pipeline.Rpc.Ensures.{
  Ensures, >>=-Ensures, guarded-Ensures, last-Ensures, both-Ensures, Ensures-done, not-eq-false,
}
use oddsfox_pipeline.Rpc.Headers.{quantity, hex32}
use oddsfox_pipeline.Rpc.ReceiptBatches.{
  PolygonReceipt, receipt_call, validate_transaction_hashes, check_log, check_logs, parse_fields,
  parse_receipt, parse_receipts, transaction_receipt_batch,
}

module _ (casefold : Json → String) where
  -- A log that is not removed and names its receipt's transaction, block and position.
  pub record StandsIn (receipt : PolygonReceipt) (raw : Fields) : Type 0 where
    pub not_removed : is_false (get_or_null "removed" raw) ≡ true
    pub transaction :
        hex32 casefold (get_or_null "transactionHash" raw) ≡ done receipt.transaction_hash
    pub number : quantity casefold (get_or_null "blockNumber" raw) ≡ done receipt.block_number
    pub block : hex32 casefold (get_or_null "blockHash" raw) ≡ done receipt.block_hash
    pub position :
        quantity casefold (get_or_null "transactionIndex" raw) ≡ done receipt.transaction_index

  check_log-StandsIn :
      (receipt : PolygonReceipt) (raw : Fields)
      → Ensures (λ u. StandsIn receipt raw) (check_log casefold receipt raw)
  unfolding check_log
  check_log-StandsIn receipt raw =
      let P : Unit {0} → Type 0 = λ u. StandsIn receipt raw in
      guarded-Ensures P (not (is_false (get_or_null "removed" raw))) inconsistent_log
        (hex32 casefold (get_or_null "transactionHash" raw)) _
        λ here transaction t.
          guarded-Ensures P (not (str_eq transaction receipt.transaction_hash)) inconsistent_log
            (quantity casefold (get_or_null "blockNumber" raw)) _
            λ same_transaction number n.
              guarded-Ensures P (not (number == receipt.block_number)) inconsistent_log
                (hex32 casefold (get_or_null "blockHash" raw)) _
                λ same_number block b.
                  guarded-Ensures P (not (str_eq block receipt.block_hash)) inconsistent_log
                    (quantity casefold (get_or_null "transactionIndex" raw)) _
                    λ same_block position p.
                      last-Ensures P (not (position == receipt.transaction_index)) inconsistent_log
                        λ same_position. record {
                          not_removed = not-eq-false _ here;
                          transaction =
                              t
                              ∙ ap done (
                                  (eq_iff transaction receipt.transaction_hash).0
                                    (not-eq-false _ same_transaction));
                          number =
                              n
                              ∙ ap done (
                                  (==_iff number receipt.block_number).0
                                    (not-eq-false _ same_number));
                          block =
                              b
                              ∙ ap done
                                  ((eq_iff block receipt.block_hash).0 (not-eq-false _ same_block));
                          position =
                              p
                              ∙ ap done (
                                  (==_iff position receipt.transaction_index).0
                                    (not-eq-false _ same_position));
                        }

  check_logs-StandsIn :
      (receipt : PolygonReceipt) (raw_logs : List Fields)
      → Ensures (λ u. All (StandsIn receipt) raw_logs) (check_logs casefold receipt raw_logs)
  unfolding check_logs
  check_logs-StandsIn receipt [] = tt
  check_logs-StandsIn receipt (raw ∷ raw_logs) =
      both-Ensures (λ u. StandsIn receipt raw) (λ u. All (StandsIn receipt) raw_logs)
        (check_log casefold receipt raw) (check_logs casefold receipt raw_logs)
        (check_log-StandsIn receipt raw) (check_logs-StandsIn receipt raw_logs)

  -- The receipt of the transaction `hash`, with logs of its own only.
  abbrev IsReceiptOf : String → PolygonReceipt → Type 0
  IsReceiptOf hash receipt = (receipt.transaction_hash ≡ hash) × All (StandsIn receipt) receipt.logs

  parse_fields-IsReceiptOf :
      (hash : String) (value : Fields)
      → Ensures (IsReceiptOf hash) (parse_fields casefold hash value)
  unfolding parse_fields
  parse_fields-IsReceiptOf hash value =
      let P = IsReceiptOf hash in
      >>=-Ensures P (hex32 casefold (get_or_null "transactionHash" value)) _ λ transaction t.
        guarded-Ensures P (not (str_eq transaction hash)) wrong_receipt
          (quantity casefold (get_or_null "status" value)) _
          λ same status s.
            guarded-Ensures P (not (status == 1)) not_successful
              (quantity casefold (get_or_null "blockNumber" value)) _
              λ successful number n.
                >>=-Ensures P (hex32 casefold (get_or_null "blockHash" value)) _ λ block b.
                  >>=-Ensures P (quantity casefold (get_or_null "transactionIndex" value)) _
                    λ position p.
                      >>=-Ensures P (require (as_array (get_or_null "logs" value)) bad_receipt_logs)
                        _
                        λ items i.
                          >>=-Ensures P (require (objects_of (list_of items)) bad_receipt_logs) _
                            λ raw_logs l.
                              let receipt : PolygonReceipt = record {
                                transaction_hash = transaction;
                                block_number = number;
                                block_hash = block;
                                transaction_index = position;
                                logs = raw_logs;
                              } in
                              >>=-Ensures P (check_logs casefold receipt raw_logs)
                                (λ u. done receipt)
                                λ u checked. (
                                  (eq_iff transaction hash).0 (not-eq-false _ same),
                                  Ensures-done (λ u. All (StandsIn receipt) raw_logs) _
                                      (check_logs-StandsIn receipt raw_logs) checked,
                                )

  -- One receipt for each hash, in order, under that hash.
  abbrev pub AreReceiptsOf : List String → List (String × PolygonReceipt) → Type 0
  AreReceiptsOf requested receipts =
      (map (λ x. x.0) receipts ≡ requested) × All (λ x. IsReceiptOf x.0 x.1) receipts

  parse_receipt-IsReceiptOf :
      (hash : String) (value : Json)
      → Ensures (IsReceiptOf hash) (parse_receipt casefold hash value)
  unfolding parse_receipt
  parse_receipt-IsReceiptOf hash value =
      >>=-Ensures (IsReceiptOf hash) (require (as_object value) receipt_unavailable) _
        λ fields o. parse_fields-IsReceiptOf hash fields

  cons-AreReceiptsOf :
      (hash : String) (requested : List String) (receipt : PolygonReceipt)
      (receipts : List (String × PolygonReceipt))
      → IsReceiptOf hash receipt
      → AreReceiptsOf requested receipts
      → AreReceiptsOf (hash ∷ requested) ((receipt.transaction_hash, receipt) ∷ receipts)
  cons-AreReceiptsOf hash requested receipt receipts (same, stand) (keys, all) =
      (λ i. same i ∷ keys i, ((refl, stand), all))

  parse_receipts-AreReceiptsOf :
      (requested : List String) (values : List Json)
      → Ensures (AreReceiptsOf requested) (parse_receipts casefold requested values)
  unfolding parse_receipts
  parse_receipts-AreReceiptsOf [] [] = (refl, tt)
  parse_receipts-AreReceiptsOf [] (value ∷ values) = tt
  parse_receipts-AreReceiptsOf (hash ∷ requested) [] = tt
  parse_receipts-AreReceiptsOf (hash ∷ requested) (value ∷ values) =
      let P = AreReceiptsOf (hash ∷ requested) in
      >>=-Ensures P (parse_receipt casefold hash value) _ λ receipt r.
        >>=-Ensures P (parse_receipts casefold requested values) _ λ receipts rs.
          cons-AreReceiptsOf hash requested receipt receipts
            (Ensures-done (IsReceiptOf hash) _ (parse_receipt-IsReceiptOf hash value) r)
            (Ensures-done (AreReceiptsOf requested) _
              (parse_receipts-AreReceiptsOf requested values) rs)

  module _ {S : Type 0} (send : Payload → S → Posted × S) where
    parsed :
        (requested : List String) (r : Reply (List Json) × PolygonRpc S)
        → Ensures
            (AreReceiptsOf requested)
            (r >>> λ values client. (parse_receipts casefold requested values, client)).0
    parsed requested (done values, client) = parse_receipts-AreReceiptsOf requested values
    parsed requested (size_limit, client) = tt
    parsed requested (failed e, client) = tt

    -- Where the hashes are accepted and a batch of receipts returns, it has one receipt for each
    -- different hash, in the order of the hashes and under its hash: the receipt names that hash, and
    -- its logs are not removed and name the receipt's transaction, block and position.
    pub transaction_receipt_batch-AreReceiptsOf :
        (transaction_hashes requested : List String) (client : PolygonRpc S)
        (receipts : List (String × PolygonReceipt))
        → validate_transaction_hashes casefold transaction_hashes ≡ done requested
        → (transaction_receipt_batch casefold send transaction_hashes client).0 ≡ done receipts
        → AreReceiptsOf requested receipts
    unfolding transaction_receipt_batch
    transaction_receipt_batch-AreReceiptsOf transaction_hashes [] client receipts v h =
        let h' = rw (v, transaction_receipt_batch) at h in
        subst (AreReceiptsOf []) (done-injective h') (refl, tt)
    transaction_receipt_batch-AreReceiptsOf transaction_hashes (hash ∷ requested) client receipts v
          h =
        Ensures-done (AreReceiptsOf (hash ∷ requested)) _
          (parsed (hash ∷ requested)
            (batch_call casefold send (map receipt_call (hash ∷ requested)) client))
          (rw (v, transaction_receipt_batch) at h)
