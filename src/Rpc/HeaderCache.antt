-- ===== src/Rpc/HeaderCache.antt =====
-- `blocks` returns, for each number asked for, a header of that number, and leaves it in the cache.
use oddsfox_pipeline.Base.{
  ℕ, zero, suc, ◌≤◌, String, List, [], ◌∷◌, ◌++◌, map, some, true, ◌≡◌, refl, ap, sym, ◌∙◌, inl,
  inr, arith, Bool-cases, length, take, drop, take-append-drop, length-drop, All, All-append, ◌==◌,
  ==_iff, nat_eq,
}
use mathlib.Core.Option.{some-injective}
use mathlib.Core.Path.{subst}
use oddsfox_pipeline.Rpc.Json.{Json}
use oddsfox_pipeline.Rpc.Search.{PolygonBlock}
use oddsfox_pipeline.Rpc.Batches.{Reply, done, size_limit, failed, adaptive_batch_call}
use oddsfox_pipeline.Rpc.Provider.{◌>>>◌}
use oddsfox_pipeline.Rpc.Client.{Call, Payload, Posted, PolygonRpc, post}
use oddsfox_pipeline.Rpc.Batch.{value_of, batch_call}
use oddsfox_pipeline.Rpc.Envelopes.{Reply-cases, done-injective}
use oddsfox_pipeline.Rpc.Restored.{value_of-here, value_of-later}
use oddsfox_pipeline.Rpc.Hex.{hex}
use oddsfox_pipeline.Rpc.Kept.{adaptive_batch_call-keeps}
use oddsfox_pipeline.Rpc.Headers.{
  fetch_batch, numbered_block, block_of, store_batch, rpc_batch_size, header_call, fetch_missing,
}

-- Each header of the cache stands under its own number.
abbrev pub IsKeyed : List (ℕ × PolygonBlock) → Type 0
IsKeyed cache = All (λ entry. entry.1.number ≡ entry.0) cache

-- The numbers that `later` has are those of `cache` and more.
abbrev pub Extends : List (ℕ × PolygonBlock) → List (ℕ × PolygonBlock) → Type 0
Extends cache later =
    (n : ℕ) (b : PolygonBlock)
    → value_of n cache ≡ some b
    → (c : PolygonBlock) × (value_of n later ≡ some c)

pub value_of-number :
    (n : ℕ) (cache : List (ℕ × PolygonBlock)) (b : PolygonBlock)
    → IsKeyed cache
    → value_of n cache ≡ some b
    → b.number ≡ n
unfolding value_of
value_of-number n [] b k h = cc
value_of-number n ((m, c) ∷ cache) b k h = elim (Bool-cases (m == n)) [
  | inl e ↦
      ap (λ x. x.number) (sym (some-injective c b (sym (value_of-here n m c cache e) ∙ h)))
      ∙ k.0
      ∙ (==_iff m n).0 e
  | inr e ↦ value_of-number n cache b k.1 (sym (value_of-later n m c cache e) ∙ h)
]

pub Extends-store :
    (cache : List (ℕ × PolygonBlock)) (c : PolygonBlock) → Extends cache ((c.number, c) ∷ cache)
Extends-store cache c n b h = elim (Bool-cases (c.number == n)) [
  | inl e ↦ (c, value_of-here n c.number c cache e)
  | inr e ↦ (b, value_of-later n c.number c cache e ∙ h)
]

pub numbered_block-number :
    (casefold : Json → String) (n : ℕ) (value : Json) {b : PolygonBlock}
    → numbered_block casefold n value ≡ done b
    → b.number ≡ n
unfolding numbered_block
numbered_block-number casefold n value {b} h = elim (Reply-cases (block_of casefold value)) [
  | inl (c, e) ↦ elim (Bool-cases (c.number == n)) [
    | inl same ↦
        ap (λ x. x.number) (sym (done-injective (rw (e, same, numbered_block) at h)))
        ∙ (==_iff _ _).0 same
    | inr other ↦ ground (arith, e, other)
  ]
  | inr (inl e) ↦ ground (arith, e)
  | inr (inr (code, e)) ↦ ground (arith, e)
]

module _ {S : Type 0} (casefold : Json → String) (send : Payload → S → Posted × S) where
  batch_call-blocks :
      (calls : List Call) (client : PolygonRpc S)
      → (batch_call casefold send calls client).1.blocks ≡ client.blocks
  unfolding batch_call post
  batch_call-blocks [] client = refl
  batch_call-blocks (first ∷ more) client = refl

  adaptive-blocks :
      (depth : ℕ) (calls : List Call) (client : PolygonRpc S)
      → (adaptive_batch_call (batch_call casefold send) depth calls client).1.blocks ≡ client.blocks
  adaptive-blocks depth calls client =
      adaptive_batch_call-keeps {Value = Json} (λ s. s.blocks ≡ client.blocks) {Call = Call}
        (batch_call casefold send) (λ calls s p. batch_call-blocks calls s ∙ p) depth calls client
        refl

  -- Every number of `numbers` is in the cache.
  abbrev pub AllIn : List ℕ → List (ℕ × PolygonBlock) → Type 0
  AllIn numbers cache = All (λ n. (b : PolygonBlock) × (value_of n cache ≡ some b)) numbers

  -- What a step of `blocks` leaves: the cache is keyed still and has what it had; where the step
  -- ended, it has the numbers asked for.
  pub record Filled (numbers : List ℕ) (cache : List (ℕ × PolygonBlock))
      (r : Reply (Unit {0}) × PolygonRpc S) : Type 0 where
    pub keyed : IsKeyed cache → IsKeyed r.1.blocks
    pub more : Extends cache r.1.blocks
    pub complete : r.0 ≡ done tt → AllIn numbers r.1.blocks

  store_batch-Filled :
      (numbers : List ℕ) (values : List Json) (client : PolygonRpc S)
      → Filled numbers client.blocks (store_batch casefold send numbers values client)
  unfolding store_batch
  store_batch-Filled [] [] client = record {
    keyed = λ k. k;
    more = λ n b h. (b, h);
    complete = λ h. tt;
  }
  store_batch-Filled [] (value ∷ values) client = record {
    keyed = λ k. k;
    more = λ n b h. (b, h);
    complete = λ h. tt;
  }
  store_batch-Filled (n ∷ numbers) [] client = record {
    keyed = λ k. k;
    more = λ n b h. (b, h);
    complete = λ h. absurd (ground arith);
  }
  store_batch-Filled (n ∷ numbers) (value ∷ values) client =
      elim (Reply-cases (numbered_block casefold n value)) [
        | inl (b, e) ↦
            let rest =
              store_batch-Filled numbers values
                (record client { blocks = (b.number, b) ∷ client.blocks }) in
            let named : (b.number == n) ≡ true =
              (==_iff b.number n).1 (numbered_block-number casefold n value e) in
            rw (e, store_batch)
              record {
                keyed = λ k. rest.keyed (refl, k);
                more =
                    λ m c h. let (d, h') = Extends-store client.blocks b m c h in rest.more m d h';
                complete = λ h. (
                  rest.more n b (value_of-here n b.number b client.blocks named),
                  rest.complete h,
                );
              }
        | inr (inl e) ↦
            rw (e, store_batch)
              record {
                keyed = λ k. k;
                more = λ n b h. (b, h);
                complete = λ h. absurd (ground arith);
              }
        | inr (inr (code, e)) ↦
            rw (e, store_batch)
              record {
                keyed = λ k. k;
                more = λ n b h. (b, h);
                complete = λ h. absurd (ground arith);
              }
      ]

  Filled-blocks :
      (numbers : List ℕ) (cache cache' : List (ℕ × PolygonBlock))
      (r : Reply (Unit {0}) × PolygonRpc S)
      → cache ≡ cache'
      → Filled numbers cache r
      → Filled numbers cache' r
  Filled-blocks numbers cache cache' r e f = subst (λ x. Filled numbers x r) e f

  AllIn-Extends :
      (xs : List ℕ) (cache later : List (ℕ × PolygonBlock))
      → Extends cache later
      → AllIn xs cache
      → AllIn xs later
  AllIn-Extends [] cache later e h = tt
  AllIn-Extends (x ∷ xs) cache later e h =
      (let (b, v) = h.0 in e x b v, AllIn-Extends xs cache later e h.1)

  -- One step after another.
  Filled-then :
      (xs ys : List ℕ) (cache : List (ℕ × PolygonBlock)) (r : Reply (Unit {0}) × PolygonRpc S)
      (next : PolygonRpc S → Reply (Unit {0}) × PolygonRpc S)
      → Filled xs cache r
      → ((client : PolygonRpc S) → Filled ys client.blocks (next client))
      → Filled (xs ++ ys) cache (r >>> λ u. next)
  Filled-then xs ys cache (done u, client) next f g =
      let rest = g client in
      record {
        keyed = λ k. rest.keyed (f.keyed k);
        more = λ n b h. let (c, h') = f.more n b h in rest.more n c h';
        complete = λ h.
            All-append _ xs ys (AllIn-Extends xs client.blocks _ rest.more (f.complete refl))
              (rest.complete h);
      }
  Filled-then xs ys cache (size_limit, client) next f g = record {
    keyed = f.keyed;
    more = f.more;
    complete = λ h. absurd (ground arith);
  }
  Filled-then xs ys cache (failed e, client) next f g = record {
    keyed = f.keyed;
    more = f.more;
    complete = λ h. absurd (ground arith);
  }

  -- A batch of headers, fetched and stored.
  fetched-Filled :
      (numbers : List ℕ) (r : Reply (List Json) × PolygonRpc S)
      → Filled numbers r.1.blocks (r >>> store_batch casefold send numbers)
  fetched-Filled numbers (done values, client) = store_batch-Filled numbers values client
  fetched-Filled numbers (size_limit, client) = record {
    keyed = λ k. k;
    more = λ n b h. (b, h);
    complete = λ h. absurd (ground arith);
  }
  fetched-Filled numbers (failed e, client) = record {
    keyed = λ k. k;
    more = λ n b h. (b, h);
    complete = λ h. absurd (ground arith);
  }

  fetch_batch-Filled :
      (numbers : List ℕ) (client : PolygonRpc S)
      → Filled numbers client.blocks (fetch_batch casefold send numbers client)
  unfolding fetch_batch
  fetch_batch-Filled numbers client =
      let r =
        adaptive_batch_call (batch_call casefold send) (length numbers)
          (map (λ number. header_call (hex number)) numbers) client in
      Filled-blocks numbers r.1.blocks client.blocks (r >>> store_batch casefold send numbers)
        (adaptive-blocks (length numbers) (map (λ number. header_call (hex number)) numbers) client)
        (fetched-Filled numbers r)

  pub fetch_missing-Filled :
      (fuel : ℕ) (missing : List ℕ) (client : PolygonRpc S)
      → length missing ≤ fuel
      → Filled missing client.blocks (fetch_missing casefold send fuel missing client)
  unfolding fetch_missing
  fetch_missing-Filled zero [] client le = record {
    keyed = λ k. k;
    more = λ n b h. (b, h);
    complete = λ h. tt;
  }
  fetch_missing-Filled zero (n ∷ missing) client le = absurd (omega arith)
  fetch_missing-Filled (suc fuel) [] client le = record {
    keyed = λ k. k;
    more = λ n b h. (b, h);
    complete = λ h. tt;
  }
  fetch_missing-Filled (suc fuel) (n ∷ missing) client le =
      let all = n ∷ missing in
      let rest = drop rpc_batch_size all in
      subst (λ xs. Filled xs client.blocks (fetch_missing casefold send (suc fuel) all client))
        (take-append-drop rpc_batch_size all)
        (Filled-then (take rpc_batch_size all) rest client.blocks
          (fetch_batch casefold send (take rpc_batch_size all) client)
          (fetch_missing casefold send fuel rest)
          (fetch_batch-Filled (take rpc_batch_size all) client)
          (λ client'.
            fetch_missing-Filled fuel rest client' (omega (arith, length-drop rpc_batch_size all))))
