-- ===== src/Leaf/Events.antt =====
-- The events of a leaf: decoded, tested against the scope of the request, sorted, and grouped by
-- transaction.
use oddsfox_pipeline.Base.{
  ℕ, String, List, [], ◌∷◌, map, Bool, true, false, ◌&&◌, ◌||◌, ltb, leb, ◌==◌, str_eq, Result, ok,
  err, ◌>>=◌, length, from_keys, set_size, string_eq, nat_eq, pair_eq, if◌then◌else◌,
}
use oddsfox_pipeline.Rpc.Json.{Fields}
use oddsfox_pipeline.Rpc.Batches.{Reply, done, size_limit, failed}
use oddsfox_pipeline.Rpc.Json.{Json}
use oddsfox_pipeline.Rpc.Logs.{decode_settlement_log}
use oddsfox_pipeline.Settlement.Types.{SettlementEvent, SettlementError}
use oddsfox_pipeline.Settlement.Index.{TokenIndex, lookup}
use oddsfox_pipeline.Settlement.Segment.{is_some}

-- What a leaf raises: the client's errors, the normalizer's, and its own.
pub data LeafError : Type 0 where
  size_limited : LeafError
  rpc_failed : ℕ → LeafError
  settlement : SettlementError → LeafError
  outside_scope duplicate_logs hash_disagrees missing_header : LeafError
  invalid_discovery duplicate_discoveries no_receipt logs_disagree : LeafError

abbrev pub of_reply : {A : Type 0} → Reply A → Result LeafError A
of_reply (done a) = ok a
of_reply size_limit = err size_limited
of_reply (failed e) = err (rpc_failed e)

abbrev pub of_result : {A : Type 0} → Result SettlementError A → Result LeafError A
of_result (ok a) = ok a
of_result (err e) = err (settlement e)

module _ (casefold : Json → String) where
  unfoldable pub decode_logs : List Fields → Result LeafError (List SettlementEvent)
  unfolding decode_settlement_log
  decode_logs [] = ok []
  decode_logs (raw ∷ raw_logs) = of_reply (decode_settlement_log casefold raw) >>= λ event.
      decode_logs raw_logs >>= λ events. ok (event ∷ events)

-- The exchange that was asked, and a block of the range that was asked for.
abbrev pub in_scope : String → ℕ → ℕ → SettlementEvent → Bool
in_scope expected_address from_block to_block event =
    str_eq event.exchange_address expected_address
    && leb from_block event.block_number
    && leb event.block_number to_block

unfoldable pub all_in_scope : String → ℕ → ℕ → List SettlementEvent → Bool
all_in_scope expected_address from_block to_block [] = true
all_in_scope expected_address from_block to_block (event ∷ events) =
    in_scope expected_address from_block to_block event
    && all_in_scope expected_address from_block to_block events

abbrev pub location : SettlementEvent → String × ℕ
location event = (event.transaction_hash, event.log_index)

-- `len(locations) == len(events)`
unfoldable pub all_located_apart : List SettlementEvent → Bool
all_located_apart events = set_size {A = String × ℕ} (map location events) == length events

-- The order of `(block_number, transaction_index, log_index)`.
abbrev pub event_le : SettlementEvent → SettlementEvent → Bool
event_le a b =
    ltb a.block_number b.block_number
    || (a.block_number == b.block_number
        && (ltb a.transaction_index b.transaction_index
            || (a.transaction_index == b.transaction_index && leb a.log_index b.log_index)))

unfoldable pub insert_event : SettlementEvent → List SettlementEvent → List SettlementEvent
insert_event event [] = event ∷ []
insert_event event (next ∷ events) =
    if event_le event next then event ∷ next ∷ events else next ∷ insert_event event events

unfoldable pub sort_events : List SettlementEvent → List SettlementEvent
unfolding insert_event
sort_events [] = []
sort_events (event ∷ events) = insert_event event (sort_events events)

-- `event.token_id in token_ids`
abbrev pub is_target : TokenIndex → SettlementEvent → Bool
is_target index event = is_some (lookup event.token_id index)

unfoldable pub targets : TokenIndex → List SettlementEvent → List SettlementEvent
targets index [] = []
targets index (event ∷ events) =
    let rest = targets index events in if is_target index event then event ∷ rest else rest

unfoldable pub has_target : TokenIndex → List SettlementEvent → Bool
has_target index [] = false
has_target index (event ∷ events) = is_target index event || has_target index events

-- `by_transaction[hash]`
unfoldable pub events_at : String → List SettlementEvent → List SettlementEvent
events_at hash [] = []
events_at hash (event ∷ events) =
    let rest = events_at hash events in
    if str_eq event.transaction_hash hash then event ∷ rest else rest

-- The values of `by_transaction`, in the order of their first events.
unfoldable pub by_transaction : List SettlementEvent → List (List SettlementEvent)
unfolding events_at
by_transaction events =
    map (λ hash. events_at hash events)
      (from_keys (map (λ (event : SettlementEvent). event.transaction_hash) events))

unfoldable pub with_target : TokenIndex → List (List SettlementEvent) → List (List SettlementEvent)
unfolding has_target
with_target index [] = []
with_target index (transaction ∷ transactions) =
    let rest = with_target index transactions in
    if has_target index transaction then transaction ∷ rest else rest

-- The order of `(block_number, transaction_index)` of the first events; no transaction is empty.
abbrev pub transaction_le : List SettlementEvent → List SettlementEvent → Bool
transaction_le (a ∷ first) (b ∷ second) =
    ltb a.block_number b.block_number
    || (a.block_number == b.block_number && leb a.transaction_index b.transaction_index)
transaction_le _ _ = true

unfoldable pub insert_transaction :
    List SettlementEvent → List (List SettlementEvent) → List (List SettlementEvent)
insert_transaction transaction [] = transaction ∷ []
insert_transaction transaction (next ∷ transactions) =
    if transaction_le transaction next
    then transaction ∷ next ∷ transactions
    else next ∷ insert_transaction transaction transactions

unfoldable pub sort_transactions : List (List SettlementEvent) → List (List SettlementEvent)
unfolding insert_transaction
sort_transactions [] = []
sort_transactions (transaction ∷ transactions) =
    insert_transaction transaction (sort_transactions transactions)

unfoldable pub ordered_transactions :
    TokenIndex → List SettlementEvent → List (List SettlementEvent)
unfolding by_transaction with_target sort_transactions
ordered_transactions index events = sort_transactions (with_target index (by_transaction events))
