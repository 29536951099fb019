-- ===== src/Leaf/Accepted.antt =====
-- What an accepted leaf is: its logs are of the scope that was asked for, each once, and its rows
-- are priced.
use mathlib.Core.Path.{subst}
use oddsfox_pipeline.Base.{
  ℕ, suc, ◌≤◌, String, List, [], ◌∷◌, map, Option, none, some, true, ◌≡◌, refl, sym, ap, ◌∙◌, inl,
  inr, arith, eq_iff, Result, ok, err, Result-cases, ok-injective, ◌>>◌, >>=-eq-ok, length, All,
  All-append, ==_iff, count, set_size, from_keys-distinct, string_eq, nat_eq, pair_eq, pos,
}
use oddsfox_pipeline.Rpc.Json.{Json, Fields, text}
use oddsfox_pipeline.Rpc.Client.{Payload, Posted, PolygonRpc}
use oddsfox_pipeline.Rpc.Headers.{blocks}
use oddsfox_pipeline.Settlement.Types.{SettlementEvent, SettlementError, PolygonMarket, FillRow}
use oddsfox_pipeline.Settlement.Index.{TokenIndex, by_token}
use oddsfox_pipeline.Settlement.Segment.{normalize_v2_segment}
use oddsfox_pipeline.Settlement.Transactions.{Segment, transaction_segments}
use oddsfox_pipeline.Settlement.Pricing.{IsPriced}
use oddsfox_pipeline.Settlement.Normalized.{normalize_v2_segment-IsPriced}
use oddsfox_pipeline.Leaf.Events.{
  of_reply, of_result, decode_logs, all_in_scope, location, all_located_apart, insert_event,
  sort_events, targets, ordered_transactions,
}
use oddsfox_pipeline.Leaf.Normalize.{
  Headers, header_at, block_numbers, check_all_hashes, LeafResult, segment_rows, segments_rows,
  transactions_rows, leaf_events, finish_leaf, decode_and_normalize_leaf,
}

-- Of the exchange that was asked, in a block of the range that was asked for.
pub record InScope (expected_address : String) (from_block to_block : ℕ) (event : SettlementEvent)
    : Type 0 where
  pub exchange : event.exchange_address ≡ expected_address
  pub after : from_block ≤ event.block_number
  pub before : event.block_number ≤ to_block

all_in_scope-InScope :
    (address : String) (from_block to_block : ℕ) (events : List SettlementEvent)
    → all_in_scope address from_block to_block events ≡ true
    → All (InScope address from_block to_block) events
unfolding all_in_scope
all_in_scope-InScope address from_block to_block [] h = tt
all_in_scope-InScope address from_block to_block (event ∷ events) h = (
  record {
    exchange = ground (arith, eq_iff event.exchange_address address);
    after = ground arith;
    before = ground arith;
  },
  all_in_scope-InScope address from_block to_block events (ground arith),
)

targets-insert_event :
    (index : TokenIndex) (event : SettlementEvent) (events : List SettlementEvent)
    → length (targets index (insert_event event events)) ≡ length (targets index (event ∷ events))
unfolding targets insert_event
targets-insert_event index event [] = refl
targets-insert_event index event (next ∷ events) =
    ground (arith, targets-insert_event index event events)

targets-sort_events :
    (index : TokenIndex) (events : List SettlementEvent)
    → length (targets index (sort_events events)) ≡ length (targets index events)
unfolding targets sort_events
targets-sort_events index [] = refl
targets-sort_events index (event ∷ events) =
    targets-insert_event index event (sort_events events)
    ∙ ground (arith, targets-sort_events index events)

of_result-eq-ok :
    {A : Type 0} (r : Result SettlementError A) {a : A} → of_result r ≡ ok a → r ≡ ok a
of_result-eq-ok (ok b) h = ap ok (ok-injective h)
of_result-eq-ok (err e) h = cc

module _ (segment_hash : List SettlementEvent → SettlementEvent → SettlementEvent → String)
    (markets : List PolygonMarket) (scan_id : String) (from_block to_block ingested_at : ℕ) where
  priced :
      (timestamp : ℕ) (s : Segment) (rows : List FillRow)
      → normalize_v2_segment segment_hash markets none scan_id from_block to_block timestamp
          ingested_at s.passive s.active s.matched
        ≡ ok rows
      → All IsPriced rows
  priced timestamp s [] h = tt
  priced timestamp s (row ∷ rows) h =
      (normalize_v2_segment-IsPriced segment_hash markets none scan_id from_block to_block timestamp
        ingested_at s.passive s.active s.matched (row ∷ rows) h (λ e. cc)).0

  module _ (headers : Headers) where
    segment_rows-IsPriced :
        (s : Segment) (rows : List FillRow)
        → segment_rows segment_hash markets scan_id from_block to_block ingested_at headers s
          ≡ ok rows
        → All IsPriced rows
    unfolding segment_rows
    segment_rows-IsPriced s rows h =
        let (block, b, h') = >>=-eq-ok (header_at s.active.block_number headers) _ h in
        priced block.timestamp s rows (of_result-eq-ok _ h')

    segments_rows-IsPriced :
        (segments : List Segment) (error : Option SettlementError) (rows : List FillRow)
        → segments_rows segment_hash markets scan_id from_block to_block ingested_at headers
            segments error
          ≡ ok rows
        → All IsPriced rows
    unfolding segments_rows
    segments_rows-IsPriced [] none rows h = subst (All IsPriced) (ok-injective h) tt
    segments_rows-IsPriced [] (some e) rows h = cc
    segments_rows-IsPriced (s ∷ segments) error rows h =
        let (first, f, h1) =
          >>=-eq-ok
            (segment_rows segment_hash markets scan_id from_block to_block ingested_at headers s) _
            h in
        let (more, m, h2) =
          >>=-eq-ok
            (segments_rows segment_hash markets scan_id from_block to_block ingested_at headers
              segments error)
            _ h1 in
        subst (All IsPriced) (ok-injective h2) (
          All-append IsPriced first more (segment_rows-IsPriced s first f)
            (segments_rows-IsPriced segments error more m))

    transactions_rows-IsPriced :
        (transactions : List (List SettlementEvent)) (rows : List FillRow)
        → transactions_rows segment_hash markets scan_id from_block to_block ingested_at headers
            transactions
          ≡ ok rows
        → All IsPriced rows
    unfolding transactions_rows
    transactions_rows-IsPriced [] rows h = subst (All IsPriced) (ok-injective h) tt
    transactions_rows-IsPriced (transaction ∷ transactions) rows h =
        let (segments, error) = transaction_segments transaction in
        let (first, f, h1) =
          >>=-eq-ok
            (segments_rows segment_hash markets scan_id from_block to_block ingested_at headers
              segments error)
            _ h in
        let (more, m, h2) =
          >>=-eq-ok
            (transactions_rows segment_hash markets scan_id from_block to_block ingested_at headers
              transactions)
            _ h1 in
        subst (All IsPriced) (ok-injective h2) (
          All-append IsPriced first more (segments_rows-IsPriced segments error first f)
            (transactions_rows-IsPriced transactions more m))

  finish_leaf-IsPriced :
      (sha256_events : List SettlementEvent → String) (events : List SettlementEvent)
      (headers : Headers) (leaf : LeafResult)
      → finish_leaf segment_hash sha256_events markets scan_id from_block to_block ingested_at
          events headers
        ≡ ok leaf
      → All IsPriced leaf.rows × (leaf.scoped_count ≡ length (targets (by_token markets) events))
  unfolding finish_leaf
  finish_leaf-IsPriced sha256_events events headers leaf h =
      let transactions = ordered_transactions (by_token markets) events in
      let (rows, r, h1) =
        >>=-eq-ok
          (check_all_hashes headers transactions
            >> transactions_rows segment_hash markets scan_id from_block to_block ingested_at
                headers transactions)
          _ h in
      let (u, c, r') = >>=-eq-ok (check_all_hashes headers transactions) _ r in
      let same = ok-injective h1 in
      (
        subst (All IsPriced) (ap (λ x. x.rows) same)
            (transactions_rows-IsPriced headers transactions rows r'),
        ap (λ x. x.scoped_count) (sym same),
      )

length-locations : (events : List SettlementEvent) → length (map location events) ≡ length events
length-locations [] = refl
length-locations (event ∷ events) = ap suc (length-locations events)

located_apart :
    (events : List SettlementEvent)
    → all_located_apart events ≡ true
    → set_size {A = String × ℕ} (map location events) ≡ length (map location events)
unfolding all_located_apart
located_apart events h = (==_iff _ _).0 h ∙ sym (length-locations events)

module _ (casefold : Json → String) where
  leaf_events-InScope :
      (raw_logs : List Fields) (exchange_address : String) (from_block to_block : ℕ)
      (sorted : List SettlementEvent)
      → leaf_events casefold raw_logs exchange_address from_block to_block ≡ ok sorted
      → (events : List SettlementEvent) × (decode_logs casefold raw_logs ≡ ok events)
        × (sorted ≡ sort_events events)
        × All (InScope (casefold (text exchange_address)) from_block to_block) events
        × ((place : String × ℕ) → count place (map location events) ≤ 1)
  unfolding leaf_events all_located_apart
  leaf_events-InScope raw_logs exchange_address from_block to_block sorted h =
      let (events, d, h1) = >>=-eq-ok (decode_logs casefold raw_logs) _ h in
      let address = casefold (text exchange_address) in
      let scope : all_in_scope address from_block to_block events ≡ true = ground arith in
      let apart : all_located_apart events ≡ true = ground arith in
      (
        events,
        d,
        sym (ok-injective (rw (scope, apart) at h1)),
        all_in_scope-InScope address from_block to_block events scope,
        λ place. from_keys-distinct place (map location events) (located_apart events apart),
      )

  module _ (segment_hash : List SettlementEvent → SettlementEvent → SettlementEvent → String)
      (sha256_events : List SettlementEvent → String) {S : Type 0}
      (send : Payload → S → Posted × S) where
    -- Where a leaf is accepted, its logs decode to events of the exchange and the range that were asked
    -- for, no two at one log index of one transaction; the count that comes with the rows is that of the
    -- events of target tokens; and each row has 0 < collateral ≤ shares within the exact bound and the
    -- nearest price.
    pub decode_and_normalize_leaf-IsPriced :
        (raw_logs : List Fields) (markets : List PolygonMarket) (scan_id exchange_address : String)
        (from_block to_block ingested_at : ℕ) (client : PolygonRpc S) (leaf : LeafResult)
        → (decode_and_normalize_leaf segment_hash sha256_events casefold send raw_logs markets
            scan_id exchange_address from_block to_block ingested_at client).0
          ≡ ok leaf
        → (events : List SettlementEvent) × (decode_logs casefold raw_logs ≡ ok events)
          × All (InScope (casefold (text exchange_address)) from_block to_block) events
          × ((place : String × ℕ) → count place (map location events) ≤ 1)
          × (leaf.scoped_count ≡ length (targets (by_token markets) events))
          × All IsPriced leaf.rows
    unfolding decode_and_normalize_leaf
    decode_and_normalize_leaf-IsPriced raw_logs markets scan_id exchange_address from_block to_block
          ingested_at client leaf h =
        elim (Result-cases (leaf_events casefold raw_logs exchange_address from_block to_block)) [
          | inr (e, f) ↦ absurd (ground (arith, f))
          | inl (sorted, l) ↦
              let (events, d, s, scope, apart) =
                leaf_events-InScope raw_logs exchange_address from_block to_block sorted l in
              let asked =
                map pos (block_numbers (ordered_transactions (by_token markets) sorted)) in
              let h' = rw (l, decode_and_normalize_leaf) at h in
              let (headers, g, f) =
                >>=-eq-ok (of_reply (blocks casefold send asked client).0) _ h' in
              let (rows, n) =
                finish_leaf-IsPriced segment_hash markets scan_id from_block to_block ingested_at
                  sha256_events sorted headers leaf f in
              (
                events,
                d,
                scope,
                apart,
                n
                    ∙ ap (λ x. length (targets (by_token markets) x)) s
                    ∙ targets-sort_events (by_token markets) events,
                rows,
              )
        ]
