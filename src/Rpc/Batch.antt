-- ===== src/Rpc/Batch.antt =====
-- `PolygonRPC.batch_call`: the requests of a batch are numbered, the envelopes of the answer are read
-- in the order they come in, and the results are put back into the order of the calls.
use oddsfox_pipeline.Base.{
  ℕ, ◌+◌, String, List, [], ◌∷◌, map, Option, none, some, true, false, not, ◌&&◌, ◌||◌, ◌==◌,
  length, pos, contains, nat_eq, if◌then◌else◌,
}
use oddsfox_pipeline.Rpc.Json.{
  Json, number, Fields, list_of, get, get_or_null, has_key, is_null, is_text, as_object, as_array,
  as_int,
}
use oddsfox_pipeline.Rpc.Batches.{Reply, done}
use oddsfox_pipeline.Rpc.Provider.{
  ◌>>=◌, ◌>>◌, fail_if, require, provider_error, omitted_result, missing_key, malformed_batch,
  malformed_batch_error,
}
use oddsfox_pipeline.Rpc.Client.{
  Call, Request, Payload, batch, Posted, PolygonRpc, record_methods, post,
}

-- `self._request_id += 1` for each of the calls.
unfoldable pub number_calls : ℕ → List Call → List Request
number_calls request_id [] = []
number_calls request_id ((method, params) ∷ calls) =
    record { id = request_id + 1; method = method; params = params }
    ∷ number_calls (request_id + 1) calls

abbrev pub ById : Type 0
ById = List (ℕ × Json)

unfoldable pub value_of : {A : Type 0} → ℕ → List (ℕ × A) → Option A
value_of id [] = none
value_of id ((key, value) ∷ rest) =
    let later = value_of id rest in if key == id then some value else later

-- An `id` that is an `int` and no `bool`, and not negative.
abbrev pub int_id : Json → Option ℕ
int_id (number (pos n)) = some n
int_id _ = none

-- `[by_id[request_id] for request_id in request_order]`
unfoldable pub in_order : ById → List ℕ → Reply (List Json)
unfolding value_of
in_order by_id [] = done []
in_order by_id (id ∷ order) = require (value_of id by_id) missing_key >>= λ value.
    in_order by_id order >>= λ values. done (value ∷ values)

abbrev pub batch_result : (Json → Reply Json) → Fields → Reply Json
batch_result read_error envelope = elim (is_null (get_or_null "error" envelope)) [
  | true ↦ require (get "result" envelope) omitted_result
  | false ↦ require (as_object (get_or_null "error" envelope)) malformed_batch_error >>= λ error.
      require (as_int (get_or_null "code" error)) malformed_batch_error >>= λ code.
      read_error (get_or_null "error" envelope)
]

module _ (casefold : Json → String) where
  -- The round for one envelope: its `id` and its result.
  unfoldable pub read_envelope : List ℕ → ById → Json → Reply (ℕ × Json)
  read_envelope expected_ids by_id envelope =
      require (as_object envelope) malformed_batch >>= λ fields.
      fail_if (not (is_text "2.0" (get_or_null "jsonrpc" fields))) malformed_batch
      >> require (int_id (get_or_null "id" fields)) malformed_batch
      >>= λ id.
          fail_if
            (not (contains id expected_ids)
              || contains id (map (λ x. x.0) by_id)
              || (has_key "result" fields && has_key "error" fields))
            malformed_batch
          >> batch_result (provider_error casefold) fields
          >>= λ result. done (id, result)

  unfoldable pub read_envelopes : List ℕ → ById → List Json → Reply ById
  unfolding read_envelope
  read_envelopes expected_ids by_id [] = done by_id
  read_envelopes expected_ids by_id (envelope ∷ envelopes) =
      read_envelope expected_ids by_id envelope >>= λ answer.
      read_envelopes expected_ids (answer ∷ by_id) envelopes

  -- The answer to a batch, read with the ids that the batch had.
  unfoldable pub read_batch : List ℕ → Json → Reply (List Json)
  unfolding list_of read_envelopes in_order
  read_batch request_order response = require (as_array response) malformed_batch >>= λ items.
      fail_if (not (length (list_of items) == length request_order)) malformed_batch
      >> read_envelopes request_order [] (list_of items)
      >>= λ by_id. in_order by_id request_order

  module _ {S : Type 0} (send : Payload → S → Posted × S) where
    unfoldable pub batch_call : List Call → PolygonRpc S → Reply (List Json) × PolygonRpc S
    unfolding number_calls record_methods read_batch post
    batch_call [] client = (done [], client)
    batch_call (first ∷ more) client =
        let calls = first ∷ more in
        let requests = number_calls client.request_id calls in
        let (reply, client') = post send (batch requests) "json_rpc_batch" (record client {
          request_id = client.request_id + length calls;
          metrics = record_methods (map (λ x. x.0) calls) client.metrics;
        }) in
        (reply >>= read_batch (map (λ x. x.id) requests), client')
