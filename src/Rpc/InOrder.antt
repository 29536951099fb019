-- ===== src/Rpc/InOrder.antt =====
-- The promises of `batch_call`, the request and the counters included.
use oddsfox_pipeline.Base.{
  ℕ, String, ◌+◌, ◌≤◌, ◌<◌, List, [], ◌∷◌, map, some, ◌≡◌, ◌≢◌, inl, inr, refl, sym, ◌∙◌, arith,
  length, All, count, nat_eq,
}
use oddsfox_pipeline.Rpc.Json.{Json, Items, list_of, array, as_array}
use oddsfox_pipeline.Rpc.Batches.{Reply, done, failed}
use oddsfox_pipeline.Rpc.Provider.{◌>>=◌, missing_key}
use oddsfox_pipeline.Rpc.Client.{
  Call, Payload, batch, Posted, answered, metered, entity_too_large, broken, PolygonRpc,
  posted_reply, post,
}
use oddsfox_pipeline.Rpc.Batch.{number_calls, read_batch, batch_call}
use oddsfox_pipeline.Rpc.Envelopes.{Reply-cases}
use oddsfox_pipeline.Rpc.Restored.{ids_from, number_calls-ids, EachAnswered}
use oddsfox_pipeline.Rpc.Ordered.{
  AllAnswers, read_batch-restores, read_batch-EachAnswered, read_batch-finds,
}

module _ {S : Type 0} (casefold : Json → String) (send : Payload → S → Posted × S) where
  -- What the provider replies to the batch of `calls`.
  abbrev pub response_to : List Call → PolygonRpc S → Reply Json
  response_to calls client =
      posted_reply (send (batch (number_calls client.request_id calls)) client.provider).0

  batch_call-reads :
      (first : Call) (more : List Call) (client : PolygonRpc S)
      → (batch_call casefold send (first ∷ more) client).0 ≡ (
          response_to (first ∷ more) client
          >>= read_batch casefold (ids_from client.request_id (length (first ∷ more))))
  unfolding batch_call post
  batch_call-reads first more client = rw (number_calls-ids client.request_id (first ∷ more)) refl

  -- Where the provider answers the ids of the calls, each once and in whatever order, the batch
  -- returns the value of each id, in the order of the calls.
  pub batch_call-map :
      (calls : List Call) (client : PolygonRpc S) (value : ℕ → Json) (order : List ℕ)
      (items : Items)
      → response_to calls client ≡ done (array items)
      → AllAnswers value order (list_of items)
      → All (λ id. (client.request_id < id) × (id ≤ client.request_id + length calls)) order
      → ((k : ℕ) → count k order ≤ 1)
      → length order ≡ length calls
      → (batch_call casefold send calls client).0
        ≡ done (map value (ids_from client.request_id (length calls)))
  unfolding batch_call ids_from
  batch_call-map [] client value order items answer answers range distinct full = refl
  batch_call-map (first ∷ more) client value order items answer answers range distinct full =
      batch_call-reads first more client
      ∙ rw answer (
          read_batch-restores casefold client.request_id (length (first ∷ more)) value order items
            answers range distinct full)

  -- Where a batch of one call or more returns values, the provider answered a list, each value is
  -- the result of an envelope of that list which names its call's id, version 2.0 and no error, and
  -- there is one value for each call.
  pub batch_call-EachAnswered :
      (first : Call) (more : List Call) (client : PolygonRpc S) {values : List Json}
      → (batch_call casefold send (first ∷ more) client).0 ≡ done values
      → (response : Json) × (items : Items) × (response_to (first ∷ more) client ≡ done response)
        × (as_array response ≡ some items)
        × EachAnswered (ids_from client.request_id (length (first ∷ more))) values (list_of items)
  batch_call-EachAnswered first more client h =
      elim (Reply-cases (response_to (first ∷ more) client)) [
        | inl (response, r) ↦
            let (items, a, each) =
              read_batch-EachAnswered casefold (ids_from client.request_id (length (first ∷ more)))
                response (let h' = sym (batch_call-reads first more client) ∙ h in rw r at h') in
            (response, items, r, a, each)
        | inr (inl r) ↦
            let h' = sym (batch_call-reads first more client) ∙ h in ground (arith, rw r at h')
        | inr (inr (code, r)) ↦
            let h' = sym (batch_call-reads first more client) ∙ h in ground (arith, rw r at h')
      ]

  posted-keeps : (posted : Posted) → posted_reply posted ≢ failed missing_key
  posted-keeps (answered response) h = cc
  posted-keeps (metered response attempts retries) h = cc
  posted-keeps entity_too_large h = cc
  posted-keeps broken h = ground arith

  -- Looking up the result of a call in the answers never raises a `KeyError`, whatever the provider
  -- sends.
  pub batch_call-finds :
      (calls : List Call) (client : PolygonRpc S)
      → (batch_call casefold send calls client).0 ≢ failed missing_key
  unfolding batch_call
  batch_call-finds [] client h = cc
  batch_call-finds (first ∷ more) client h =
      let h' = sym (batch_call-reads first more client) ∙ h in
      elim (Reply-cases (response_to (first ∷ more) client)) [
        | inl (response, r) ↦
            read_batch-finds casefold client.request_id (length (first ∷ more)) response
              (rw r at h')
        | inr (inl r) ↦ ground (arith, rw r at h')
        | inr (inr (code, r)) ↦ ground (
          arith,
          rw r at h',
          r,
          posted-keeps
              (send (batch (number_calls client.request_id (first ∷ more))) client.provider).0,
        )
      ]
