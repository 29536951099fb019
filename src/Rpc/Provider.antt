-- ===== src/Rpc/Provider.antt =====
-- The errors of polygon_rpc.py, and `_provider_error`, which reads the error object of a response.
use oddsfox_pipeline.Base.{
  ℕ, String, List, [], ◌∷◌, Option, none, some, Bool, true, false, ◌&&◌, ◌||◌, ℤ, negsuc, int_eq,
  codes, has_part, if◌then◌else◌,
}
use oddsfox_pipeline.Rpc.Json.{Json, text, get, get_or_null, as_int, Fields, as_object}
use oddsfox_pipeline.Rpc.Batches.{Reply, done, size_limit, failed}

-- What a raise says, other than `PolygonRPCSizeLimitError`: a number for each message.
abbrev pub transport_failed : ℕ
transport_failed = 0

abbrev pub malformed_error : ℕ
malformed_error = 1

abbrev pub provider_code : ℕ
provider_code = 2

abbrev pub malformed_envelope : ℕ
malformed_envelope = 3

abbrev pub omitted_result : ℕ
omitted_result = 4

-- `KeyError`, which Python raises where a dictionary has no such key.
abbrev pub missing_key : ℕ
missing_key = 5

abbrev pub malformed_batch : ℕ
malformed_batch = 6

abbrev pub malformed_batch_error : ℕ
malformed_batch_error = 7

abbrev pub unavailable : ℕ
unavailable = 8

abbrev pub wrong_block : ℕ
wrong_block = 9

abbrev pub not_a_quantity : ℕ
not_a_quantity = 10

abbrev pub not_hex32 : ℕ
not_hex32 = 11

abbrev pub unequal_lengths : ℕ
unequal_lengths = 12

abbrev pub bad_block_number : ℕ
bad_block_number = 13

abbrev pub bad_range : ℕ
bad_range = 14

abbrev pub bad_topics : ℕ
bad_topics = 15

abbrev pub bad_log_rows : ℕ
bad_log_rows = 16

abbrev pub removed_log : ℕ
removed_log = 17

abbrev pub bad_address : ℕ
bad_address = 18

abbrev pub topics_missing : ℕ
topics_missing = 19

abbrev pub topic_count : ℕ
topic_count = 20

abbrev pub bad_words : ℕ
bad_words = 21

abbrev pub unexpected_topic : ℕ
unexpected_topic = 22

abbrev pub bad_side : ℕ
bad_side = 23

abbrev pub not_positive : ℕ
not_positive = 24

abbrev pub bad_hashes : ℕ
bad_hashes = 25

abbrev pub receipt_unavailable : ℕ
receipt_unavailable = 26

abbrev pub wrong_receipt : ℕ
wrong_receipt = 27

abbrev pub not_successful : ℕ
not_successful = 28

abbrev pub bad_receipt_logs : ℕ
bad_receipt_logs = 29

abbrev pub inconsistent_log : ℕ
inconsistent_log = 30

-- `do`: the first error is the result.
infixl 5 ◌>>=◌
abbrev pub ◌>>=◌ : {A B : Type 0} → Reply A → (A → Reply B) → Reply B
done a >>= rest = rest a
size_limit >>= rest = size_limit
failed e >>= rest = failed e

infixl 5 ◌>>◌
abbrev pub ◌>>◌ : {B : Type 0} → Reply (Unit {0}) → Reply B → Reply B
first >> rest = first >>= λ _. rest

-- The same, with a state to pass on.
infixl 5 ◌>>>◌
abbrev pub ◌>>>◌ : {S A B : Type 0} → Reply A × S → (A → S → Reply B × S) → Reply B × S
(done a, s) >>> rest = rest a s
(size_limit, s) >>> rest = (size_limit, s)
(failed e, s) >>> rest = (failed e, s)

-- `if b: raise`.
abbrev pub fail_if : Bool → ℕ → Reply (Unit {0})
fail_if true e = failed e
fail_if false e = done tt

abbrev pub require : {A : Type 0} → Option A → ℕ → Reply A
require none e = failed e
require (some a) e = done a

abbrev size_limit_patterns : List String
size_limit_patterns =
    "batch limit" ∷ "batch size" ∷ "block range" ∷ "limit exceeded" ∷ "more than" ∷ "query returned"
    ∷ "request entity too large" ∷ "response size" ∷ "too many results" ∷ []

unfoldable pub any_pattern : List String → List ℕ → Bool
any_pattern [] message = false
any_pattern (pattern_text ∷ patterns) message =
    has_part (codes pattern_text) message || any_pattern patterns message

-- `code in {-32005, -32016, -32602}`, and `-32000`.
abbrev recognized_code : ℤ → Bool
recognized_code code =
    int_eq code (negsuc 32004) || int_eq code (negsuc 32015) || int_eq code (negsuc 32601)

abbrev or_empty : Option Json → Json
or_empty none = text ""
or_empty (some message) = message

module _ (casefold : Json → String) where
  -- The errors with an integer code; the code is not kept in the failure.
  unfoldable pub coded_error : Fields → ℤ → Reply Json
  unfolding any_pattern
  coded_error error code =
      if any_pattern size_limit_patterns (codes (casefold (or_empty (get "message" error))))
        && (recognized_code code || int_eq code (negsuc 31999))
      then size_limit
      else failed provider_code

  unfoldable pub provider_error : Json → Reply Json
  unfolding coded_error
  provider_error error = require (as_object error) malformed_error >>= λ fields.
      require (as_int (get_or_null "code" fields)) malformed_error >>= λ code.
      coded_error fields code
