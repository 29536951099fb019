-- ===== src/Rpc/Fetched.antt =====
-- What `block` and `blocks` return, and that the cache keeps each header under its number.
use mathlib.Core.Path.{subst}
use oddsfox_pipeline.Base.{
  ℕ, List, [], ◌∷◌, map, some, true, String, ◌≡◌, refl, ap, sym, ◌∙◌, inl, inr, arith, Option-cases,
  length, All, from_keys, nat_eq, ◌==◌, ==_iff, ℤ,
}
use oddsfox_pipeline.Rpc.Json.{Json}
use oddsfox_pipeline.Rpc.Hex.{hex}
use oddsfox_pipeline.Rpc.Search.{PolygonBlock}
use oddsfox_pipeline.Rpc.Batches.{Reply, done, size_limit, failed}
use oddsfox_pipeline.Rpc.Provider.{◌>>=◌, ◌>>>◌}
use oddsfox_pipeline.Rpc.Client.{Payload, Posted, PolygonRpc, call}
use oddsfox_pipeline.Rpc.Batch.{value_of}
use oddsfox_pipeline.Rpc.Envelopes.{Reply-cases, done-injective}
use oddsfox_pipeline.Rpc.Restored.{value_of-here}
use oddsfox_pipeline.Rpc.Headers.{
  missing_of, cached, naturals, numbered_block, fetch_missing, blocks, block, store, header_call,
}
use oddsfox_pipeline.Rpc.HeaderCache.{
  IsKeyed, Extends, Filled, value_of-number, numbered_block-number, fetch_missing-Filled,
}

-- One header for each number, under that number.
abbrev pub AreHeadersOf : List ℕ → List (ℕ × PolygonBlock) → Type 0
AreHeadersOf numbers found = (map (λ entry. entry.0) found ≡ numbers) × IsKeyed found

cached-step :
    (cache : List (ℕ × PolygonBlock)) (n : ℕ) (numbers : List ℕ) {b : PolygonBlock}
    {found : List (ℕ × PolygonBlock)}
    → value_of n cache ≡ some b
    → cached cache numbers ≡ done found
    → cached cache (n ∷ numbers) ≡ done ((n, b) ∷ found)
unfolding cached
cached-step cache n numbers v f = rw (cached, v, f) refl

cached-AreHeadersOf :
    (cache : List (ℕ × PolygonBlock)) (numbers : List ℕ)
    → IsKeyed cache
    → ((n : ℕ) (b : PolygonBlock) → value_of n cache ≡ some b → b.number ≡ n)
    → All (λ n. (b : PolygonBlock) × (value_of n cache ≡ some b)) numbers
    → (found : List (ℕ × PolygonBlock)) × (cached cache numbers ≡ done found)
      × AreHeadersOf numbers found
unfolding cached
cached-AreHeadersOf cache [] k number h = ([], refl, (refl, tt))
cached-AreHeadersOf cache (n ∷ numbers) k number h =
    let (b, v) = h.0 in
    let (found, f, (keys, keyed)) = cached-AreHeadersOf cache numbers k number h.1 in
    (
      (n, b) ∷ found,
      cached-step cache n numbers v f,
      (ap (λ xs. n ∷ xs) keys, (number n b v, keyed)),
    )

-- What was cached, and what was fetched.
missing_of-AllIn :
    (cache later : List (ℕ × PolygonBlock)) (requested : List ℕ)
    → Extends cache later
    → All (λ n. (b : PolygonBlock) × (value_of n later ≡ some b)) (missing_of cache requested)
    → All (λ n. (b : PolygonBlock) × (value_of n later ≡ some b)) requested
unfolding missing_of
missing_of-AllIn cache later [] e h = tt
missing_of-AllIn cache later (n ∷ requested) e h = elim (Option-cases (value_of n cache)) [
  | inl v ↦
      let h' = rw (v, missing_of) at h in (h'.0, missing_of-AllIn cache later requested e h'.1)
  | inr (b, v) ↦ (e n b v, missing_of-AllIn cache later requested e (rw (v, missing_of) at h))
]

module _ {S : Type 0} (casefold : Json → String) (send : Payload → S → Posted × S) where
  returned :
      (requested : List ℕ) (cache : List (ℕ × PolygonBlock)) (r : Reply (Unit {0}) × PolygonRpc S)
      (found : List (ℕ × PolygonBlock))
      → Filled casefold send (missing_of cache requested) cache r
      → IsKeyed cache
      → (r >>> λ u client'. (cached client'.blocks requested, client')).0 ≡ done found
      → AreHeadersOf requested found
  returned requested cache (done u, client) found f k h =
      let keyed = f.keyed k in
      let (found', e, are) =
        cached-AreHeadersOf client.blocks requested keyed
          (λ n b. value_of-number n client.blocks b keyed)
          (missing_of-AllIn cache client.blocks requested f.more (f.complete refl)) in
      subst (AreHeadersOf requested) (done-injective (sym e ∙ h)) are
  returned requested cache (size_limit, client) found f k h = absurd (ground arith)
  returned requested cache (failed e, client) found f k h = absurd (ground arith)

  returned-IsKeyed :
      (requested missing : List ℕ) (cache : List (ℕ × PolygonBlock))
      (r : Reply (Unit {0}) × PolygonRpc S)
      → Filled casefold send missing cache r
      → IsKeyed cache
      → IsKeyed (r >>> λ u client'. (cached client'.blocks requested, client')).1.blocks
  returned-IsKeyed requested missing cache (done u, client) f k = f.keyed k
  returned-IsKeyed requested missing cache (size_limit, client) f k = f.keyed k
  returned-IsKeyed requested missing cache (failed e, client) f k = f.keyed k

  -- Where the cache holds each header under its number, it does so after `blocks`, however that ends.
  blocks-IsKeyed :
      (numbers : List ℤ) (client : PolygonRpc S)
      → IsKeyed client.blocks
      → IsKeyed (blocks casefold send numbers client).1.blocks
  unfolding blocks
  blocks-IsKeyed numbers client k = elim (Option-cases (naturals numbers)) [
    | inl n ↦ rw (n, blocks) k
    | inr (raw_numbers, n) ↦
        let missing = missing_of client.blocks (from_keys raw_numbers) in
        rw (n, blocks)
          (returned-IsKeyed (from_keys raw_numbers) missing client.blocks
            (fetch_missing casefold send (length missing) missing client)
            (fetch_missing-Filled casefold send (length missing) missing client (omega arith)) k)
  ]

  -- Where the cache holds each header under its number and `blocks` returns, it returns one header
  -- for each different number asked for, in the order of their first mention, and each is of the
  -- number it stands under.
  pub blocks-AreHeadersOf :
      (numbers : List ℤ) (raw_numbers : List ℕ) (client : PolygonRpc S)
      (found : List (ℕ × PolygonBlock))
      → naturals numbers ≡ some raw_numbers
      → IsKeyed client.blocks
      → (blocks casefold send numbers client).0 ≡ done found
      → AreHeadersOf (from_keys raw_numbers) found
  unfolding blocks
  blocks-AreHeadersOf numbers raw_numbers client found n k h =
      let missing = missing_of client.blocks (from_keys raw_numbers) in
      returned (from_keys raw_numbers) client.blocks
        (fetch_missing casefold send (length missing) missing client) found
        (fetch_missing-Filled casefold send (length missing) missing client (omega arith)) k
        (rw (n, blocks) at h)

  block-cached :
      (number : ℕ) (client : PolygonRpc S) {b : PolygonBlock}
      → value_of number client.blocks ≡ some b
      → block casefold send number client ≡ (done b, client)
  unfolding block
  block-cached number client v = rw (v, block) refl

  store-value :
      (number : ℕ) (r : Reply Json) (client : PolygonRpc S) (found : PolygonBlock)
      → ((r >>= numbered_block casefold number, client) >>> store casefold send).0 ≡ done found
      → value_of number
          ((r >>= numbered_block casefold number, client) >>> store casefold send).1.blocks
        ≡ some found
  store-value number size_limit client found h = absurd (ground arith)
  store-value number (failed e) client found h = absurd (ground arith)
  store-value number (done value) client found h =
      elim (Reply-cases (numbered_block casefold number value)) [
        | inl (b, e) ↦
            let same = done-injective (rw e at h) in
            let named : (b.number == number) ≡ true =
              (==_iff _ _).1 (numbered_block-number casefold number value e) in
            rw e (value_of-here number b.number b client.blocks named ∙ ap some same)
        | inr (inl e) ↦ absurd (ground (arith, e))
        | inr (inr (code, e)) ↦ absurd (ground (arith, e))
      ]

  block-value :
      (number : ℕ) (client : PolygonRpc S) (found : PolygonBlock)
      → (block casefold send number client).0 ≡ done found
      → value_of number (block casefold send number client).1.blocks ≡ some found
  unfolding block
  block-value number client found h = elim (Option-cases (value_of number client.blocks)) [
    | inl v ↦
        let (reply, client') = call casefold send (header_call (hex number)) client in
        rw (v, block) (store-value number reply client' found (rw (v, block) at h))
    | inr (b, v) ↦ rw (v, block) (v ∙ ap some (done-injective (rw (v, block) at h)))
  ]

  -- A number that `block` returned a header for has it in the cache: to ask again returns the same
  -- header, with no request and no other change.
  pub block-again :
      (number : ℕ) (client : PolygonRpc S) (found : PolygonBlock)
      → (block casefold send number client).0 ≡ done found
      → block casefold send number (block casefold send number client).1
        ≡ (done found, (block casefold send number client).1)
  block-again number client found h =
      block-cached number (block casefold send number client).1 (block-value number client found h)
