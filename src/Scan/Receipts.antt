-- ===== src/Scan/Receipts.antt =====
-- `_fetch_receipts_adaptively` of polygon_settlement_scan.py. `fetch` stands for the provider's
-- `transaction_receipt_batch`, a call from a state `S` of its own that reports its duration in
-- milliseconds and whether it was retried.
use oddsfox_pipeline.Base.{
  ℕ, zero, suc, ◌+◌, ◌*◌, ◌/◌, String, List, [], ◌∷◌, ◌++◌, Bool, true, false, not, ◌&&◌, ◌||◌,
  Result, ok, err, min, max, is_empty, length, take, drop, ltb, leb, str_eq, if◌then◌else◌,
}
use oddsfox_pipeline.Rpc.Batches.{Reply, done, size_limit, failed}

abbrev pub min_receipt_batch_size : ℕ
min_receipt_batch_size = 5

abbrev pub max_receipt_batch_size : ℕ
max_receipt_batch_size = 50

pub data ReceiptError : Type 0 where
  provider : ℕ → ReceiptError
  limit_at_safe_minimum missing_transactions out_of_fuel : ReceiptError

abbrev pub Receipts : Type 0 → Type 0
Receipts Receipt = List (String × Receipt)

pub record Fetched (Receipt : Type 0) : Type 0 where
  pub receipts : Receipts Receipt
  pub duration : ℕ
  pub retried : Bool

unfoldable pub asked_for : String → List String → Bool
asked_for hash [] = false
asked_for hash (key ∷ batch) = str_eq key hash || asked_for hash batch

module _ {Receipt : Type 0} where
  unfoldable pub has_receipt : String → Receipts Receipt → Bool
  has_receipt hash [] = false
  has_receipt hash ((key, receipt) ∷ receipts) = str_eq key hash || has_receipt hash receipts

  unfoldable pub all_received : List String → Receipts Receipt → Bool
  all_received [] receipts = true
  all_received (hash ∷ batch) receipts = has_receipt hash receipts && all_received batch receipts

  unfoldable pub none_else : Receipts Receipt → List String → Bool
  none_else [] batch = true
  none_else ((key, receipt) ∷ receipts) batch = asked_for key batch && none_else receipts batch

-- The size of the next batch, after a fetch.
unfoldable pub next_batch_size : ℕ → ℕ → Bool → ℕ
next_batch_size batch_size duration retried =
    if ltb duration 5000 && not retried
    then min max_receipt_batch_size (batch_size * 2)
    else if ltb 20000 duration || retried
    then max min_receipt_batch_size (batch_size / 2)
    else batch_size

-- The loop's variables: `remaining` is `transaction_hashes[offset:]`.
pub record Progress (Receipt : Type 0) : Type 0 where
  pub remaining : List String
  pub batch_size : ℕ
  pub adaptive_splits : ℕ
  pub receipts : Receipts Receipt

-- A round of the loop ends it with an error, or goes on.
pub data Round (Receipt : Type 0) : Type 0 where
  stopped : ReceiptError → Round Receipt
  continued : Progress Receipt → Round Receipt

module _ {Receipt : Type 0} where
  -- What a round does with the provider's reply for `batch`.
  unfoldable pub after_fetch :
      Progress Receipt → List String → Reply (Fetched Receipt) → Round Receipt
  after_fetch p batch size_limit =
      if leb (length batch) min_receipt_batch_size
      then stopped limit_at_safe_minimum
      else continued (record p {
        batch_size = max min_receipt_batch_size (p.batch_size / 2);
        adaptive_splits = p.adaptive_splits + 1;
      })
  after_fetch p batch (failed e) = stopped (provider e)
  after_fetch p batch (done f) =
      if not (all_received batch f.receipts && none_else f.receipts batch)
      then stopped missing_transactions
      else continued (record p {
        remaining = drop (length batch) p.remaining;
        batch_size = next_batch_size p.batch_size f.duration f.retried;
        receipts = f.receipts ++ p.receipts;
      })

module _ {S Receipt : Type 0} (fetch : List String → S → Reply (Fetched Receipt) × S) where
  unfoldable pub fetch_loop :
      ℕ → Progress Receipt → S → Result ReceiptError (Receipts Receipt × ℕ) × S
  fetch_loop zero p s = (err out_of_fuel, s)
  fetch_loop (suc fuel) p s = elim (is_empty p.remaining) [
    | true ↦ (ok (p.receipts, p.adaptive_splits), s)
    | false ↦
        let batch = take p.batch_size p.remaining in
        let (reply, s') = fetch batch s in
        elim (after_fetch p batch reply) [
          | stopped e ↦ (err e, s')
          | continued p' ↦ fetch_loop fuel p' s'
        ]
  ]

  -- A round hands on a transaction, which the 51 pays for, or makes the batch smaller.
  unfoldable pub fetch_receipts_adaptively :
      List String → ℕ → S → Result ReceiptError (Receipts Receipt × ℕ) × S
  unfolding fetch_loop
  fetch_receipts_adaptively transaction_hashes initial_batch_size s =
      fetch_loop (length transaction_hashes * 51 + initial_batch_size + 1)
        (record {
          remaining = transaction_hashes;
          batch_size = initial_batch_size;
          adaptive_splits = 0;
          receipts = [];
        })
        s
