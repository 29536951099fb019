-- ===== src/Rpc/Client.antt =====
-- `PolygonRPC`: its counters, `_record_methods`, `_post` and `call`. The HTTP client
-- (resources/http.py) and the provider behind it are one parameter, `send`, with a state `S` of its
-- own.
use oddsfox_pipeline.Base.{
  ℕ, ◌+◌, ◌-◌, String, List, [], ◌∷◌, true, false, not, ◌&&◌, ◌||◌, str_eq, if◌then◌else◌,
}
use oddsfox_pipeline.Rpc.Json.{
  Json, Fields, get, get_or_null, has_key, is_null, is_text, equals_number, as_object,
}
use oddsfox_pipeline.Rpc.Search.{PolygonBlock}
use oddsfox_pipeline.Rpc.Batches.{Reply, done, size_limit, failed}
use oddsfox_pipeline.Rpc.Provider.{
  ◌>>=◌, ◌>>◌, fail_if, require, provider_error, transport_failed, malformed_envelope,
  omitted_result,
}

pub record PolygonRpcMetrics : Type 0 where
  pub http_request_count : ℕ
  pub log_rpc_call_count : ℕ
  pub receipt_rpc_call_count : ℕ
  pub header_rpc_call_count : ℕ
  pub retry_count : ℕ

-- A method with its parameters.
abbrev pub Call : Type 0
Call = String × List Json

pub record Request : Type 0 where
  pub id : ℕ
  pub method : String
  pub params : List Json

pub data Payload : Type 0 where
  single : Request → Payload
  batch : List Request → Payload

-- How a POST ends: an answer, an answer with the numbers of attempts and retries, a response with
-- status 413, or any other `requests` exception.
pub data Posted : Type 0 where
  answered : Json → Posted
  metered : Json → ℕ → ℕ → Posted
  entity_too_large : Posted
  broken : Posted

-- `blocks` is the cache of headers, the latest first; `activities` are the calls of the activity callback, the last one first.
pub record PolygonRpc (S : Type 0) : Type 0 where
  pub request_id : ℕ
  pub blocks : List (ℕ × PolygonBlock)
  pub metrics : PolygonRpcMetrics
  pub activities : List String
  pub provider : S

unfoldable pub record_methods : List String → PolygonRpcMetrics → PolygonRpcMetrics
record_methods [] m = m
record_methods (method ∷ methods) m = record_methods methods (
    if str_eq method "eth_getLogs"
    then record m { log_rpc_call_count = m.log_rpc_call_count + 1 }
    else if str_eq method "eth_getTransactionReceipt"
    then record m { receipt_rpc_call_count = m.receipt_rpc_call_count + 1 }
    else if str_eq method "eth_getBlockByNumber"
    then record m { header_rpc_call_count = m.header_rpc_call_count + 1 }
    else m)

-- `attempts` and `retries` of an answer; its first request is counted before it is sent.
unfoldable pub count_posted : Posted → PolygonRpcMetrics → PolygonRpcMetrics
count_posted (metered response attempts retries) m = record m {
  http_request_count = m.http_request_count + (attempts - 1);
  retry_count = m.retry_count + retries;
}
count_posted (answered response) m = m
count_posted entity_too_large m = m
count_posted broken m = m

abbrev pub posted_reply : Posted → Reply Json
posted_reply (answered response) = done response
posted_reply (metered response attempts retries) = done response
posted_reply entity_too_large = size_limit
posted_reply broken = failed transport_failed

module _ {S : Type 0} (send : Payload → S → Posted × S) where
  unfoldable pub post : Payload → String → PolygonRpc S → Reply Json × PolygonRpc S
  unfolding count_posted
  post payload activity client =
      let m = client.metrics in
      let (posted, provider) = send payload client.provider in
      (
        posted_reply posted,
        record client {
          metrics =
              count_posted posted (record m { http_request_count = m.http_request_count + 1 });
          activities = activity ∷ client.activities;
          provider = provider;
        },
      )

abbrev pub error_or_result : (Json → Reply Json) → Fields → Reply Json
error_or_result read_error response = elim (is_null (get_or_null "error" response)) [
  | true ↦ require (get "result" response) omitted_result
  | false ↦ read_error (get_or_null "error" response)
]

module _ (casefold : Json → String) where
  unfoldable pub read_response : ℕ → Json → Reply Json
  read_response request_id response = require (as_object response) malformed_envelope >>= λ fields.
      fail_if
        (not (is_text "2.0" (get_or_null "jsonrpc" fields))
          || not (equals_number (get_or_null "id" fields) request_id)
          || (has_key "result" fields && has_key "error" fields))
        malformed_envelope
      >> error_or_result (provider_error casefold) fields

  module _ {S : Type 0} (send : Payload → S → Posted × S) where
    unfoldable pub call : Call → PolygonRpc S → Reply Json × PolygonRpc S
    unfolding record_methods read_response
    call (method, params) client =
        let request_id = client.request_id + 1 in
        let (reply, client') =
          post send (single record { id = request_id; method = method; params = params }) method
            (record client {
              request_id = request_id;
              metrics = record_methods (method ∷ []) client.metrics;
            }) in
        (reply >>= read_response request_id, client')
