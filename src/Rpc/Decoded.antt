-- ===== src/Rpc/Decoded.antt =====
-- What a decoded settlement event says is what the keys, the topics and the words of its log say.
use mathlib.Core.Option.{some-injective}
use mathlib.Core.Path.{subst}
use oddsfox_pipeline.Base.{
  ℕ, is_empty, String, List, [], ◌∷◌, some, true, false, ◌≡◌, refl, sym, ap, ◌∙◌, inl, inr,
  Option-cases, length, codes,
}
use oddsfox_pipeline.Rpc.Json.{
  Json, Fields, bool, get, get_or_null, is_false, as_array, array, list_of, Items, null, not_finite,
  number, real, text, object,
}
use oddsfox_pipeline.Rpc.Hex.{is_address, all_hex}
use oddsfox_pipeline.Rpc.Batches.{done}
use oddsfox_pipeline.Rpc.Provider.{require, fail_if, topics_missing}
use oddsfox_pipeline.Rpc.Headers.{quantity, hex32}
use oddsfox_pipeline.Rpc.Envelopes.{>>=-eq-done, require-eq-done, done-injective}
use oddsfox_pipeline.Rpc.Ensures.{Ensures, >>=-Ensures, Ensures-done}
use oddsfox_pipeline.Rpc.Logs.{
  Located, topics_of, address_of, hex32s, located_of, topics_from, decode_settlement_log,
}
use oddsfox_pipeline.Rpc.Parsed.{SaysAmounts, IsAt, decode_settlement_log-IsParsed}
use oddsfox_pipeline.Settlement.Types.{EventKind, SettlementEvent}
use oddsfox_pipeline.Rpc.DataWords.{word, data_words-IsData}
use oddsfox_pipeline.Rpc.Kinds.{IsOfKind, IsOfKind-named}

module _ (casefold : Json → String) where
  -- The event stands where the keys of its log say.
  pub record IsPlaced (raw : Fields) (event : SettlementEvent) : Type 0 where
    pub number : quantity casefold (get_or_null "blockNumber" raw) ≡ done event.block_number
    pub block : hex32 casefold (get_or_null "blockHash" raw) ≡ done event.block_hash
    pub transaction :
        hex32 casefold (get_or_null "transactionHash" raw) ≡ done event.transaction_hash
    pub position :
        quantity casefold (get_or_null "transactionIndex" raw) ≡ done event.transaction_index
    pub log : quantity casefold (get_or_null "logIndex" raw) ≡ done event.log_index

  record IsLocated (address : String) (raw : Fields) (common : Located) : Type 0 where
    exchange : common.exchange_address ≡ address
    number : quantity casefold (get_or_null "blockNumber" raw) ≡ done common.block_number
    block : hex32 casefold (get_or_null "blockHash" raw) ≡ done common.block_hash
    transaction : hex32 casefold (get_or_null "transactionHash" raw) ≡ done common.transaction_hash
    position :
        quantity casefold (get_or_null "transactionIndex" raw) ≡ done common.transaction_index
    log : quantity casefold (get_or_null "logIndex" raw) ≡ done common.log_index

  located_of-IsLocated :
      (address : String) (raw : Fields)
      → Ensures (IsLocated address raw) (located_of casefold address raw)
  unfolding located_of
  located_of-IsLocated address raw =
      let P = IsLocated address raw in
      >>=-Ensures P (quantity casefold (get_or_null "blockNumber" raw)) _ λ number n.
        >>=-Ensures P (hex32 casefold (get_or_null "blockHash" raw)) _ λ block b.
          >>=-Ensures P (hex32 casefold (get_or_null "transactionHash" raw)) _ λ transaction t.
            >>=-Ensures P (quantity casefold (get_or_null "transactionIndex" raw)) _ λ position p.
              >>=-Ensures P (quantity casefold (get_or_null "logIndex" raw)) _ λ log l. record {
                exchange = refl;
                number = n;
                block = b;
                transaction = t;
                position = p;
                log = l;
              }

  -- The texts of the topics, each of 32 bytes, value by value.
  abbrev pub AreTopics : List Json → List String → Type 0
  AreTopics [] [] = Unit
  AreTopics (value ∷ values) (topic ∷ topics) =
      (hex32 casefold value ≡ done topic) × AreTopics values topics
  AreTopics _ _ = ⊥

  hex32s-AreTopics : (values : List Json) → Ensures (AreTopics values) (hex32s casefold values)
  unfolding hex32s
  hex32s-AreTopics [] = tt
  hex32s-AreTopics (value ∷ values) =
      let P = AreTopics (value ∷ values) in
      >>=-Ensures P (hex32 casefold value) _ λ topic t.
        >>=-Ensures P (hex32s casefold values) _ λ topics ts.
          (t, Ensures-done (AreTopics values) (hex32s casefold values) (hex32s-AreTopics values) ts)

  -- A log that is not removed, read by the names of its keys.
  pub record IsDecoded (raw : Fields) (event : SettlementEvent) : Type 0 where
    pub not_removed : get_or_null "removed" raw ≡ bool false
    pub address : Json
    pub address_given : get "address" raw ≡ some address
    pub address_said : event.exchange_address ≡ casefold address
    pub address_sized : is_address (codes event.exchange_address) ≡ true
    pub placed : IsPlaced raw event
    pub items : Items
    pub topics_given : get_or_null "topics" raw ≡ array items
    pub topic : String
    pub more_topics : List String
    pub topics_read : AreTopics (list_of items) (topic ∷ more_topics)
    pub payload : List ℕ
    pub data_given : codes (casefold (get_or_null "data" raw)) ≡ 48 ∷ 120 ∷ payload
    pub data_digits : all_hex payload ≡ true
    pub kind_named : IsOfKind topic event.kind (length (topic ∷ more_topics)) (length payload)
    pub says_amounts :
        SaysAmounts (word 0 payload) (word 1 payload) (word 2 payload) (word 3 payload) event

is_false-bool : (value : Json) → is_false value ≡ true → value ≡ bool false
is_false-bool (bool false) h = refl
is_false-bool (bool true) h = cc
is_false-bool null h = cc
is_false-bool not_finite h = cc
is_false-bool (number n) h = cc
is_false-bool (real n k) h = cc
is_false-bool (text s) h = cc
is_false-bool (array items) h = cc
is_false-bool (object fields) h = cc

as_array-array : (value : Json) (items : Items) → as_array value ≡ some items → value ≡ array items
as_array-array (array listed) items h = ap array (some-injective _ _ h)
as_array-array (bool b) items h = cc
as_array-array null items h = cc
as_array-array not_finite items h = cc
as_array-array (number n) items h = cc
as_array-array (real n k) items h = cc
as_array-array (text s) items h = cc
as_array-array (object fields) items h = cc

module _ (casefold : Json → String) where
  topics_from-list_of :
      (value : Json) (values : List Json)
      → topics_from casefold value ≡ done values
      → (items : Items) × (value ≡ array items) × (list_of items ≡ values)
  unfolding topics_from
  topics_from-list_of value values h =
      let (items, read, rest) = >>=-eq-done (require (as_array value) topics_missing) _ h in
      let (u, given, listed) =
        >>=-eq-done (fail_if (is_empty (list_of items)) topics_missing) _ rest in
      (
        items,
        as_array-array value items (require-eq-done (as_array value) topics_missing read),
        done-injective listed,
      )

  address-given :
      (raw : Fields)
      → is_address (codes (address_of casefold (get "address" raw))) ≡ true
      → (address : Json) × (get "address" raw ≡ some address)
  unfolding is_address
  address-given raw h = elim (Option-cases (get "address" raw)) [
    | inl missing ↦ cc (rw missing at h)
    | inr given ↦ given
  ]

  located-IsPlaced :
      (raw : Fields) (common : Located) (kind : EventKind) (event : SettlementEvent)
      (address : String)
      → located_of casefold address raw ≡ done common
      → IsAt common kind event
      → IsPlaced casefold raw event × (event.exchange_address ≡ address)
  located-IsPlaced raw common kind event address h at =
      let l =
        Ensures-done (IsLocated casefold address raw) (located_of casefold address raw)
          (located_of-IsLocated casefold address raw) h in
      (
        record {
          number = l.number ∙ ap done (sym at.number);
          block = l.block ∙ ap done (sym at.block);
          transaction = l.transaction ∙ ap done (sym at.transaction);
          position = l.position ∙ ap done (sym at.position);
          log = l.log ∙ ap done (sym at.log);
        },
        at.address ∙ l.exchange,
      )

  -- Where a log is decoded, its "removed" is false, and its "address" is a 20-byte one, the event's; its
  -- "blockNumber", "blockHash", "transactionHash", "transactionIndex" and "logIndex" are those of the
  -- event; its "topics" are 32 bytes each, and the first one is the hash of `OrderFilled`, with four
  -- topics and seven words of data, or that of `OrdersMatched`, with three topics and four words, as
  -- the event's kind is; and the words of its "data" at positions 0 to 3 are the side, BUY for 0 and
  -- SELL for 1, the token and the two amounts of the event, none of the last three 0.
  pub decode_settlement_log-IsDecoded :
      (raw : Fields) (event : SettlementEvent)
      → decode_settlement_log casefold raw ≡ done event
      → IsDecoded casefold raw event
  decode_settlement_log-IsDecoded raw event h =
      let p = decode_settlement_log-IsParsed casefold raw event h in
      let says = p.says_kind in
      let (items, given, listed) =
        topics_from-list_of (get_or_null "topics" raw) p.values p.listed in
      let (address, address_given) = address-given raw p.address_read in
      let said : address_of casefold (get "address" raw) ≡ casefold address =
        ap (address_of casefold) address_given in
      let (placed, address_said) =
        located-IsPlaced raw p.common says.kind event _ p.located says.is_at in
      let topics =
        Ensures-done (AreTopics casefold p.values) (hex32s casefold p.values)
          (hex32s-AreTopics casefold p.values) p.topics_read in
      let read = data_words-IsData says.kind _ says.words says.amounts says.read says.leading in
      let counted : length (says.topic ∷ says.more_topics) ≡ topics_of says.kind =
        ap length (sym says.first_topic) ∙ says.counted in
      record {
        not_removed = is_false-bool (get_or_null "removed" raw) p.not_removed;
        address = address;
        address_given = address_given;
        address_said = address_said ∙ said;
        address_sized =
            subst (λ (s : String). is_address (codes s) ≡ true) (sym address_said) p.address_read;
        placed = placed;
        items = items;
        topics_given = given;
        topic = says.topic;
        more_topics = says.more_topics;
        topics_read = rw (listed, ← says.first_topic) topics;
        payload = read.payload;
        data_given = read.behind;
        data_digits = read.digits;
        kind_named =
            IsOfKind-named says.topic says.kind event.kind _ _ says.kind_named says.is_at.of_kind
              counted read.sized;
        says_amounts =
            subst (λ (a : ℕ × ℕ × ℕ × ℕ). SaysAmounts a.0 a.1 a.2 a.3 event) (sym read.leading)
              says.says_amounts;
      }
