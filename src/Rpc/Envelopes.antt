-- ===== src/Rpc/Envelopes.antt =====
-- The round of `batch_call` for one envelope, inverted: what an accepted envelope holds, and what is
-- enough to be accepted.
use oddsfox_pipeline.Base.{
  ℕ, String, List, Option, none, some, Bool, true, false, map, ◌≡◌, ◌≢◌, refl, ap, sym, ◌∙◌, ◌⊎◌,
  inl, inr, arith, Bool-cases, Option-cases, contains, nat_eq, ℤ, if◌then◌else◌,
}
use oddsfox_pipeline.Rpc.Json.{
  Json, Fields, get, get_or_null, has_key, as_int, is_null, is_text, as_object,
}
use oddsfox_pipeline.Rpc.Batches.{Reply, done, size_limit, failed}
use oddsfox_pipeline.Rpc.Provider.{
  omitted_result, ◌>>=◌, fail_if, require, provider_error, coded_error,
}
use oddsfox_pipeline.Rpc.Batch.{ById, int_id, batch_result, read_envelope}

-- An answer to the request `id`, without an error.
pub record IsAnswer (id : ℕ) (value envelope : Json) : Type 0 where
  pub fields : Fields
  pub is_object : as_object envelope ≡ some fields
  pub has_version : is_text "2.0" (get_or_null "jsonrpc" fields) ≡ true
  pub has_id : int_id (get_or_null "id" fields) ≡ some id
  pub has_no_error : get "error" fields ≡ none
  pub has_result : get "result" fields ≡ some value

pub >>=-eq-done :
    {A B : Type 0} (m : Reply A) (f : A → Reply B) {b : B}
    → (m >>= f) ≡ done b
    → (a : A) × (m ≡ done a) × (f a ≡ done b)
>>=-eq-done (done a) f h = (a, refl, h)
>>=-eq-done size_limit f h = cc
>>=-eq-done (failed e) f h = cc

abbrev or_value : {A : Type 0} → A → Reply A → A
or_value a (done b) = b
or_value a size_limit = a
or_value a (failed e) = a

pub done-injective : {A : Type 0} {a b : A} → ◌≡◌ {A = Reply A} (done a) (done b) → a ≡ b
done-injective {a} h = ap (or_value a) h

pub Reply-cases :
    {A : Type 0} (m : Reply A)
    → ((a : A) × (m ≡ done a)) ⊎ ((m ≡ size_limit) ⊎ ((e : ℕ) × (m ≡ failed e)))
Reply-cases (done a) = inl (a, refl)
Reply-cases size_limit = inr (inl refl)
Reply-cases (failed e) = inr (inr (e, refl))

pub require-eq-done :
    {A : Type 0} (o : Option A) (e : ℕ) {a : A} → require o e ≡ done a → o ≡ some a
require-eq-done none e h = cc
require-eq-done (some a) e h = ap some (done-injective h)

pub fail_if-eq-done : (b : Bool) (e : ℕ) {u : Unit {0}} → fail_if b e ≡ done u → b ≡ false
fail_if-eq-done true e h = cc
fail_if-eq-done false e h = refl

-- An `if` between two results that are not `done`.
not_done : {A : Type 0} (b : Bool) (e : ℕ) (r : A) → (if b then size_limit else failed e) ≢ done r
not_done true e r h = cc
not_done false e r h = cc

module _ (casefold : Json → String) where
  coded_error-raises :
      (error : Fields) (code : ℤ) (r : Json) → coded_error casefold error code ≢ done r
  unfolding coded_error
  coded_error-raises error code r = not_done _ _ r

  pub provider_error-raises : (error r : Json) → provider_error casefold error ≢ done r
  unfolding provider_error
  provider_error-raises error r h = elim (Option-cases (as_object error)) [
    | inl o ↦ ground (arith, o)
    | inr (fields, o) ↦ elim (Option-cases (as_int (get_or_null "code" fields))) [
      | inl c ↦ ground (arith, o, c)
      | inr (code, c) ↦ coded_error-raises fields code r (rw (o, c, provider_error) at h)
    ]
  ]

  batch_result-eq-done :
      (fields : Fields) {r : Json}
      → batch_result (provider_error casefold) fields ≡ done r
      → (is_null (get_or_null "error" fields) ≡ true) × (get "result" fields ≡ some r)
  batch_result-eq-done fields {r} h = elim (Bool-cases (is_null (get_or_null "error" fields))) [
    | inl e ↦ (e, ground (arith, require-eq-done (get "result" fields) omitted_result {a = r}))
    | inr e ↦ ground (arith, provider_error-raises (get_or_null "error" fields) r)
  ]

  batch_result-done :
      (fields : Fields) {r : Json}
      → get "error" fields ≡ none
      → get "result" fields ≡ some r
      → batch_result (provider_error casefold) fields ≡ done r
  unfolding get_or_null
  batch_result-done fields e f = ground (arith, e, f)

  absent : (fields : Fields) (key : String) → has_key key fields ≡ false → get key fields ≡ none
  unfolding has_key
  absent fields key h = elim (Option-cases (get key fields)) [
    | inl e ↦ e
    | inr (value, e) ↦ ground (arith, e)
  ]

  present :
      (fields : Fields) (key : String) {value : Json}
      → get key fields ≡ some value
      → has_key key fields ≡ true
  unfolding has_key
  present fields key e = rw (has_key, e) refl

  -- The object of an accepted envelope.
  read_fields-IsAnswer :
      (expected_ids : List ℕ) (by_id : ById) (envelope : Json) (fields : Fields) (i : ℕ) {id : ℕ}
      {value : Json}
      → as_object envelope ≡ some fields
      → int_id (get_or_null "id" fields) ≡ some i
      → read_envelope casefold expected_ids by_id envelope ≡ done (id, value)
      → IsAnswer id value envelope
        × (contains id expected_ids ≡ true)
        × (contains id (map (λ x. x.0) by_id) ≡ false)
  unfolding read_envelope
  read_fields-IsAnswer expected_ids by_id envelope fields i {id} {value} o e h =
      let version : is_text "2.0" (get_or_null "jsonrpc" fields) ≡ true = ground (arith, o, e) in
      let expected : contains i expected_ids ≡ true = ground (arith, o, e) in
      let first : contains i (map (λ x. x.0) by_id) ≡ false = ground (arith, o, e) in
      let h' = rw (o, e, version, expected, first, read_envelope) at h in
      elim (Reply-cases (batch_result (provider_error casefold) fields)) [
        | inl (r, b) ↦
            let (no_error, found) = batch_result-eq-done fields b in
            let only : has_key "error" fields ≡ false =
              ground (arith, present fields "result" found) in
            let same : ◌≡◌ {A = ℕ × Json} (i, r) (id, value) =
              done-injective (ground (arith, b, present fields "result" found)) in
            let same_id : i ≡ id = ap (λ x. x.0) same in
            let same_value : r ≡ value = ap (λ x. x.1) same in
            (
              record {
                fields = fields;
                is_object = o;
                has_version = version;
                has_id = e ∙ ap some same_id;
                has_no_error = absent fields "error" only;
                has_result = found ∙ ap some same_value;
              },
              ap (λ k. contains k expected_ids) (sym same_id) ∙ expected,
              ap (λ k. contains k (map (λ x. x.0) by_id)) (sym same_id) ∙ first,
            )
        | inr (inl b) ↦ ground (arith, b)
        | inr (inr (code, b)) ↦ ground (arith, b)
      ]

  pub read_envelope-IsAnswer :
      (expected_ids : List ℕ) (by_id : ById) (envelope : Json) {id : ℕ} {value : Json}
      → read_envelope casefold expected_ids by_id envelope ≡ done (id, value)
      → IsAnswer id value envelope
        × (contains id expected_ids ≡ true)
        × (contains id (map (λ x. x.0) by_id) ≡ false)
  unfolding read_envelope
  read_envelope-IsAnswer expected_ids by_id envelope h = elim (Option-cases (as_object envelope)) [
    | inl o ↦ ground (arith, o)
    | inr (fields, o) ↦ elim (Option-cases (int_id (get_or_null "id" fields))) [
      | inl i ↦ ground (arith, o, i)
      | inr (i, e) ↦ read_fields-IsAnswer expected_ids by_id envelope fields i o e h
    ]
  ]

  pub read_envelope-done :
      (expected_ids : List ℕ) (by_id : ById) (envelope : Json) (id : ℕ) (value : Json)
      → IsAnswer id value envelope
      → contains id expected_ids ≡ true
      → contains id (map (λ x. x.0) by_id) ≡ false
      → read_envelope casefold expected_ids by_id envelope ≡ done (id, value)
  unfolding read_envelope get_or_null has_key
  read_envelope-done expected_ids by_id envelope id value a h k =
      rw (a.is_object, a.has_version, a.has_id, h, k)
        (rw (has_key, a.has_no_error, a.has_result)
          (rw (batch_result-done a.fields a.has_no_error a.has_result) refl))
