-- ===== src/Rpc/Headers.antt =====
-- `PolygonRPC.chain_id`, `block`, `blocks` and `finalized_head`: headers are parsed, checked against
-- the number asked for, and cached.
use oddsfox_pipeline.Base.{
  ℕ, zero, suc, String, List, [], ◌∷◌, map, Option, none, some, true, false, length, take, drop,
  ◌==◌, ℤ, pos, is_empty, from_keys, nat_eq, codes, if◌then◌else◌,
}
use oddsfox_pipeline.Rpc.Json.{Json, bool, text, get_or_null, as_object}
use oddsfox_pipeline.Rpc.Hex.{hex_quantity, is_hex32, hex}
use oddsfox_pipeline.Rpc.Search.{PolygonBlock}
use oddsfox_pipeline.Rpc.Batches.{Reply, done, failed, adaptive_batch_call}
use oddsfox_pipeline.Rpc.Provider.{
  ◌>>=◌, ◌>>>◌, require, not_a_quantity, not_hex32, unavailable, wrong_block, unequal_lengths,
  bad_block_number, missing_key,
}
use oddsfox_pipeline.Rpc.Client.{Call, Payload, Posted, PolygonRpc, call}
use oddsfox_pipeline.Rpc.Batch.{value_of, batch_call}

abbrev pub rpc_batch_size : ℕ
rpc_batch_size = 50

abbrev pub header_call : String → Call
header_call tag = ("eth_getBlockByNumber", text tag ∷ bool false ∷ [])

-- `[number for number in requested if number not in self._blocks]`
unfoldable pub missing_of : List (ℕ × PolygonBlock) → List ℕ → List ℕ
missing_of blocks [] = []
missing_of blocks (number ∷ requested) =
    let rest = missing_of blocks requested in
    elim (value_of number blocks) [ none ↦ number ∷ rest | some block ↦ rest ]

-- `{number: self._blocks[number] for number in requested}`
unfoldable pub cached : List (ℕ × PolygonBlock) → List ℕ → Reply (List (ℕ × PolygonBlock))
cached blocks [] = done []
cached blocks (number ∷ requested) = require (value_of number blocks) missing_key >>= λ block.
    cached blocks requested >>= λ rest. done ((number, block) ∷ rest)

-- The numbers, unless one is negative.
unfoldable pub naturals : List ℤ → Option (List ℕ)
naturals [] = some []
naturals (pos n ∷ numbers) = elim (naturals numbers) [ none ↦ none | some rest ↦ some (n ∷ rest) ]
naturals (negative ∷ numbers) = none

module _ (casefold : Json → String) where
  unfoldable pub quantity : Json → Reply ℕ
  unfolding hex_quantity
  quantity value = require (hex_quantity (codes (casefold value))) not_a_quantity

  unfoldable pub hex32 : Json → Reply String
  unfolding is_hex32
  hex32 value =
      if is_hex32 (codes (casefold value)) then done (casefold value) else failed not_hex32

  unfoldable pub block_of : Json → Reply PolygonBlock
  unfolding quantity hex32
  block_of value = require (as_object value) unavailable >>= λ fields.
      quantity (get_or_null "number" fields) >>= λ number.
      hex32 (get_or_null "hash" fields) >>= λ hash.
      quantity (get_or_null "timestamp" fields) >>= λ timestamp.
      done record { number = number; hash = hash; timestamp = timestamp }

  unfoldable pub numbered_block : ℕ → Json → Reply PolygonBlock
  unfolding block_of
  numbered_block expected_number value = block_of value >>= λ block.
      if block.number == expected_number then done block else failed wrong_block

  module _ {S : Type 0} (send : Payload → S → Posted × S) where
    abbrev pub store : PolygonBlock → PolygonRpc S → Reply PolygonBlock × PolygonRpc S
    store block client =
        (done block, record client { blocks = (block.number, block) ∷ client.blocks })

    unfoldable pub chain_id : PolygonRpc S → Reply ℕ × PolygonRpc S
    unfolding call quantity
    chain_id client =
        let (reply, client') = call casefold send ("eth_chainId", []) client in
        (reply >>= quantity, client')

    -- `block(number)`
    unfoldable pub block : ℕ → PolygonRpc S → Reply PolygonBlock × PolygonRpc S
    unfolding call numbered_block value_of hex
    block number client = elim (value_of number client.blocks) [
      | some known ↦ (done known, client)
      | none ↦
          let (reply, client') = call casefold send (header_call (hex number)) client in
          (reply >>= numbered_block number, client') >>> store
    ]

    -- `block("finalized")`
    unfoldable pub finalized_head : PolygonRpc S → Reply PolygonBlock × PolygonRpc S
    unfolding call block_of
    finalized_head client =
        let (reply, client') = call casefold send (header_call "finalized") client in
        (reply >>= block_of, client') >>> store

    -- The inner loop of `blocks`.
    unfoldable pub store_batch : List ℕ → List Json → PolygonRpc S → Reply (Unit {0}) × PolygonRpc S
    unfolding numbered_block
    store_batch [] [] client = (done tt, client)
    store_batch (expected_number ∷ batch) (value ∷ values) client =
        (numbered_block expected_number value, client) >>> store >>> λ block.
        store_batch batch values
    store_batch [] (value ∷ values) client = (failed unequal_lengths, client)
    store_batch (expected_number ∷ batch) [] client = (failed unequal_lengths, client)

    -- A round of the outer loop.
    unfoldable pub fetch_batch : List ℕ → PolygonRpc S → Reply (Unit {0}) × PolygonRpc S
    fetch_batch batch client =
        adaptive_batch_call (batch_call casefold send) (length batch)
          (map (λ number. header_call (hex number)) batch) client
        >>> store_batch batch

    -- The outer loop: a batch takes a number at least, so their count bounds the rounds.
    unfoldable pub fetch_missing : ℕ → List ℕ → PolygonRpc S → Reply (Unit {0}) × PolygonRpc S
    fetch_missing zero missing client = (done tt, client)
    fetch_missing (suc fuel) missing client = elim (is_empty missing) [
      | true ↦ (done tt, client)
      | false ↦ fetch_batch (take rpc_batch_size missing) client >>> λ u.
          fetch_missing fuel (drop rpc_batch_size missing)
    ]

    unfoldable pub blocks : List ℤ → PolygonRpc S → Reply (List (ℕ × PolygonBlock)) × PolygonRpc S
    unfolding naturals
    blocks numbers client = elim (naturals numbers) [
      | none ↦ (failed bad_block_number, client)
      | some raw_numbers ↦
          let requested = from_keys raw_numbers in
          let missing = missing_of client.blocks requested in
          fetch_missing (length missing) missing client >>> λ u client'.
          (cached client'.blocks requested, client')
    ]
