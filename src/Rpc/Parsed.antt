-- ===== src/Rpc/Parsed.antt =====
-- What the steps of `decode_settlement_log` have found where a log is decoded.
use oddsfox_pipeline.Base.{
  ℕ, ◌<◌, String, List, [], ◌∷◌, some, Bool, true, false, not, ◌||◌, ◌≡◌, refl, ◌⊎◌, inl, inr,
  arith, Bool-cases, length, ◌==◌, ==_iff, codes,
}
use oddsfox_pipeline.Rpc.Json.{Json, Fields, get, get_or_null, is_false}
use oddsfox_pipeline.Rpc.Hex.{is_address, data_words, decimal}
use oddsfox_pipeline.Rpc.Batches.{Reply, done}
use oddsfox_pipeline.Rpc.Provider.{
  ◌>>◌, fail_if, require, removed_log, bad_address, topic_count, bad_words, unexpected_topic,
  bad_side, not_positive,
}
use oddsfox_pipeline.Rpc.Envelopes.{require-eq-done, fail_if-eq-done}
use oddsfox_pipeline.Rpc.Ensures.{
  Ensures, >>=-Ensures, guarded-Ensures, Ensures-weaken, Ensures-done, not-eq-false,
}
use oddsfox_pipeline.Rpc.Logs.{
  Located, first_four, topics_of, words_of_kind, kind_of, event_of, address_of, hex32s, located_of,
  decode_kind, topics_from, decode_settlement_log,
}
use oddsfox_pipeline.Settlement.Types.{EventKind, buy, sell, SettlementEvent}

-- The amounts of the data words, none of them 0, and the side that the first one names.
pub record SaysAmounts (side token_id maker_amount taker_amount : ℕ) (event : SettlementEvent)
    : Type 0 where
  pub side_named : ((side ≡ 0) × (event.side ≡ buy)) ⊎ ((side ≡ 1) × (event.side ≡ sell))
  pub token : event.token_id ≡ decimal token_id
  pub token_positive : 0 < token_id
  pub maker : event.maker_amount ≡ maker_amount
  pub maker_positive : 0 < maker_amount
  pub taker : event.taker_amount ≡ taker_amount
  pub taker_positive : 0 < taker_amount

pub record IsAt (common : Located) (kind : EventKind) (event : SettlementEvent) : Type 0 where
  pub of_kind : event.kind ≡ kind
  pub address : event.exchange_address ≡ common.exchange_address
  pub number : event.block_number ≡ common.block_number
  pub block : event.block_hash ≡ common.block_hash
  pub transaction : event.transaction_hash ≡ common.transaction_hash
  pub position : event.transaction_index ≡ common.transaction_index
  pub log : event.log_index ≡ common.log_index

event_of-SaysAmounts :
    (kind : EventKind) (common : Located) (side token_id maker_amount taker_amount : ℕ)
    → Ensures
        (λ event.
          SaysAmounts side token_id maker_amount taker_amount event × IsAt common kind event)
        (event_of kind common (side, token_id, maker_amount, taker_amount))
unfolding event_of
event_of-SaysAmounts kind common side token_id maker_amount taker_amount =
    guarded-Ensures
      (λ event. SaysAmounts side token_id maker_amount taker_amount event × IsAt common kind event)
      (not (side == 0 || side == 1)) bad_side
      (fail_if (token_id == 0 || maker_amount == 0 || taker_amount == 0) not_positive) _
      λ known u positive.
        let p = fail_if-eq-done _ _ positive in
        (
          record {
            side_named = elim (Bool-cases (side == 0)) [
              | inl e ↦ inl ((==_iff side 0).0 e, rw e refl)
              | inr e ↦ inr (ground arith, rw e refl)
            ];
            token = refl;
            token_positive = ground arith;
            maker = refl;
            maker_positive = ground arith;
            taker = refl;
            taker_positive = ground arith;
          },
          record {
            of_kind = refl;
            address = refl;
            number = refl;
            block = refl;
            transaction = refl;
            position = refl;
            log = refl;
          },
        )

two_guards :
    {A : Type 0} (a b : Bool) (e f : ℕ) (m : Reply A) {v : A}
    → (fail_if a e >> fail_if b f >> m) ≡ done v
    → (a ≡ false) × (b ≡ false) × (m ≡ done v)
two_guards true b e f m h = cc
two_guards false true e f m h = cc
two_guards false false e f m h = (refl, refl, h)

module _ (casefold : Json → String) where
  -- The topics and the data of a log, as its event says them.
  pub record SaysKind (topics : List String) (raw : Fields) (common : Located)
      (event : SettlementEvent) : Type 0 where
    pub topic : String
    pub more_topics : List String
    pub first_topic : topics ≡ topic ∷ more_topics
    pub kind : EventKind
    pub kind_named : kind_of topic ≡ some kind
    pub counted : length topics ≡ topics_of kind
    pub words : List ℕ
    pub read :
        data_words (codes (casefold (get_or_null "data" raw))) (words_of_kind kind) ≡ some words
    pub amounts : ℕ × ℕ × ℕ × ℕ
    pub leading : first_four words ≡ some amounts
    pub says_amounts : SaysAmounts amounts.0 amounts.1 amounts.2 amounts.3 event
    pub is_at : IsAt common kind event

  decode_kind-SaysKind :
      (topics : List String) (raw : Fields) (common : Located)
      → Ensures (SaysKind topics raw common) (decode_kind casefold topics raw common)
  unfolding decode_kind
  decode_kind-SaysKind [] raw common = tt
  decode_kind-SaysKind (topic ∷ topics) raw common =
      let P = SaysKind (topic ∷ topics) raw common in
      >>=-Ensures P (require (kind_of topic) unexpected_topic) _ λ kind k.
        guarded-Ensures P (not (length (topic ∷ topics) == topics_of kind)) topic_count
          (require (data_words (codes (casefold (get_or_null "data" raw))) (words_of_kind kind))
            bad_words)
          _
          λ same_count words w. >>=-Ensures P (require (first_four words) bad_words) _ λ four f.
            Ensures-weaken
              (λ event. SaysAmounts four.0 four.1 four.2 four.3 event × IsAt common kind event) P
              (event_of kind common four)
              (event_of-SaysAmounts kind common four.0 four.1 four.2 four.3)
              λ event e. record {
                topic = topic;
                more_topics = topics;
                first_topic = refl;
                kind = kind;
                kind_named = require-eq-done (kind_of topic) unexpected_topic k;
                counted = (==_iff _ _).0 (not-eq-false _ same_count);
                words = words;
                read = require-eq-done _ bad_words w;
                amounts = four;
                leading = require-eq-done _ bad_words f;
                says_amounts = e.0;
                is_at = e.1;
              }

  -- The values that the steps have read.
  pub record IsParsed (raw : Fields) (event : SettlementEvent) : Type 0 where
    pub not_removed : is_false (get_or_null "removed" raw) ≡ true
    pub address_read : is_address (codes (address_of casefold (get "address" raw))) ≡ true
    pub values : List Json
    pub listed : topics_from casefold (get_or_null "topics" raw) ≡ done values
    pub topics : List String
    pub topics_read : hex32s casefold values ≡ done topics
    pub common : Located
    pub located : located_of casefold (address_of casefold (get "address" raw)) raw ≡ done common
    pub says_kind : SaysKind topics raw common event

  pub decode_settlement_log-IsParsed :
      (raw : Fields) (event : SettlementEvent)
      → decode_settlement_log casefold raw ≡ done event
      → IsParsed raw event
  unfolding decode_settlement_log
  decode_settlement_log-IsParsed raw event h =
      let P = IsParsed raw in
      let removed = not (is_false (get_or_null "removed" raw)) in
      let no_address = not (is_address (codes (address_of casefold (get "address" raw)))) in
      let listing = topics_from casefold (get_or_null "topics" raw) in
      let ensured : Ensures P (decode_settlement_log casefold raw) =
        >>=-Ensures P (fail_if removed removed_log >> fail_if no_address bad_address >> listing) _
          λ values v. >>=-Ensures P (hex32s casefold values) _ λ topics t.
            >>=-Ensures P (located_of casefold (address_of casefold (get "address" raw)) raw) _
              λ common l.
                Ensures-weaken (SaysKind topics raw common) P
                  (decode_kind casefold topics raw common) (decode_kind-SaysKind topics raw common)
                  λ event says. record {
                    not_removed =
                        not-eq-false _
                          (two_guards removed no_address removed_log bad_address listing v).0;
                    address_read =
                        not-eq-false _
                          (two_guards removed no_address removed_log bad_address listing v).1;
                    values = values;
                    listed = (two_guards removed no_address removed_log bad_address listing v).2;
                    topics = topics;
                    topics_read = t;
                    common = common;
                    located = l;
                    says_kind = says;
                  } in
      Ensures-done P (decode_settlement_log casefold raw) ensured h
