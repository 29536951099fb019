-- ===== src/Rpc/Ordered.antt =====
-- What `batch_call` promises: each result is its request's, in the order of the calls, and complete
-- answers are all it needs.
use oddsfox_pipeline.Base.{
  ℕ, zero, suc, ◌+◌, ◌≤◌, ◌<◌, String, List, [], ◌∷◌, map, some, true, false, ◌≡◌, ◌≢◌, refl, ap,
  ◌∙◌, inl, inr, arith, Bool-cases, Option-cases, length, All, ◌==◌, ==_iff, nat_eq, contains,
  count, pigeonhole,
}
use oddsfox_pipeline.Rpc.Json.{Json, Items, list_of, array, as_array}
use oddsfox_pipeline.Rpc.Batches.{done, failed}
use oddsfox_pipeline.Rpc.Provider.{missing_key, provider_error, coded_error}
use oddsfox_pipeline.Rpc.Batch.{ById, value_of, in_order, read_envelope, read_envelopes, read_batch}
use oddsfox_pipeline.Rpc.Envelopes.{IsAnswer, Reply-cases, read_envelope-done}
use oddsfox_pipeline.Rpc.Restored.{
  ids_from, length-ids_from, contains-ids_from, contains-ids_from-range, ids_of, EachAnswered,
  in_order-EachAnswered, in_order-step, value_of-here, value_of-later, read_envelopes-Read,
  in_order-done,
}

-- The envelopes answer the requests of `order`, one each, with the values of `value`.
abbrev pub AllAnswers : (ℕ → Json) → List ℕ → List Json → Type 0
AllAnswers value [] [] = Unit {0}
AllAnswers value (id ∷ order) (envelope ∷ envelopes) =
    IsAnswer id (value id) envelope × AllAnswers value order envelopes
AllAnswers value _ _ = ⊥

count_zero-contains : (k : ℕ) (xs : List ℕ) → count k xs ≡ 0 → contains k xs ≡ false
unfolding count contains
count_zero-contains k [] h = refl
count_zero-contains k (x ∷ xs) h = ground (arith, count_zero-contains k xs)

AllAnswers-length :
    (value : ℕ → Json) (order : List ℕ) (envelopes : List Json)
    → AllAnswers value order envelopes
    → length envelopes ≡ length order
AllAnswers-length value [] [] h = refl
AllAnswers-length value (id ∷ order) (envelope ∷ envelopes) h =
    ap suc (AllAnswers-length value order envelopes h.1)
AllAnswers-length value [] (envelope ∷ envelopes) h = absurd h
AllAnswers-length value (id ∷ order) [] h = absurd h

module _ (casefold : Json → String) (value : ℕ → Json) where
  abbrev Holds : ById → Type 0
  Holds by_id = All (λ x. x.1 ≡ value x.0) by_id

  value_of-Holds :
      (id : ℕ) (by_id : ById)
      → Holds by_id
      → 0 < count id (ids_of by_id)
      → value_of id by_id ≡ some (value id)
  unfolding count
  value_of-Holds id [] h p = absurd (omega arith)
  value_of-Holds id ((key, v) ∷ rest) h p = elim (Bool-cases (key == id)) [
    | inl e ↦ value_of-here id key v rest e ∙ ap some (h.0 ∙ ap value ((==_iff key id).0 e))
    | inr e ↦
        value_of-later id key v rest e
        ∙ value_of-Holds id rest h.1 (let p' = rw e at p in omega arith)
  ]

  in_order-Holds :
      (by_id : ById) (order : List ℕ)
      → Holds by_id
      → All (λ id. 0 < count id (ids_of by_id)) order
      → in_order by_id order ≡ done (map value order)
  unfolding in_order
  in_order-Holds by_id [] h p = refl
  in_order-Holds by_id (id ∷ order) h p =
      in_order-step by_id id order (value_of-Holds id by_id h p.0)
        (in_order-Holds by_id order h p.1)

  read_envelopes-done :
      (expected_ids : List ℕ) (by_id : ById) (order : List ℕ) (envelopes : List Json)
      → AllAnswers value order envelopes
      → All (λ id. contains id expected_ids ≡ true) order
      → ((k : ℕ) → count k (ids_of by_id) + count k order ≤ 1)
      → Holds by_id
      → (by_id' : ById) × (read_envelopes casefold expected_ids by_id envelopes ≡ done by_id')
        × ((k : ℕ) → count k (ids_of by_id') ≡ count k (ids_of by_id) + count k order)
        × Holds by_id'
  unfolding read_envelopes count
  read_envelopes-done expected_ids by_id [] [] a e c h = (by_id, refl, λ k. omega arith, h)
  read_envelopes-done expected_ids by_id (id ∷ order) (envelope ∷ envelopes) a e c h =
      let here : (id == id) ≡ true = ground arith in
      let new = count_zero-contains id (ids_of by_id) (let c' = rw here at (c id) in omega arith) in
      let one = read_envelope-done casefold expected_ids by_id envelope id (value id) a.0 e.0 new in
      let (by_id', r, n, h') =
        read_envelopes-done expected_ids ((id, value id) ∷ by_id) order envelopes a.1 e.1
          (λ k. omega (arith, c k)) (refl, h) in
      (by_id', rw (read_envelopes, one) r, λ k. omega (arith, n k), h')
  read_envelopes-done expected_ids by_id [] (envelope ∷ envelopes) a e c h = absurd a
  read_envelopes-done expected_ids by_id (id ∷ order) [] a e c h = absurd a

in_range :
    (low n : ℕ) (order : List ℕ)
    → All (λ id. (low < id) × (id ≤ low + n)) order
    → All (λ id. contains id (ids_from low n) ≡ true) order
in_range low n [] h = tt
in_range low n (id ∷ order) h = (contains-ids_from low n id h.0.0 h.0.1, in_range low n order h.1)

shifted :
    (low n : ℕ) (order : List ℕ)
    → All (λ id. (low < id) × (id ≤ low + n)) order
    → All (λ id. (low + 1 ≤ id) × (id < low + 1 + n)) order
shifted low n [] h = tt
shifted low n (id ∷ order) h = ((omega arith, omega arith), shifted low n order h.1)

ids_from-All :
    (P : ℕ → Type 0) (low n : ℕ) → ((k : ℕ) → low < k → k ≤ low + n → P k) → All P (ids_from low n)
unfolding ids_from
ids_from-All P low zero h = tt
ids_from-All P low (suc n) h = (
  h (low + 1) (omega arith) (omega arith),
  ids_from-All P (low + 1) n (λ k a b. h k (omega arith) (omega arith)),
)

-- A list of `n` different ids out of `n` has them all.
every_id :
    (low n : ℕ) (order : List ℕ)
    → All (λ id. (low < id) × (id ≤ low + n)) order
    → ((k : ℕ) → count k order ≤ 1)
    → length order ≡ n
    → (k : ℕ) → low < k
    → k ≤ low + n
    → count k order ≡ 1
every_id low n order range distinct full k a b =
    pigeonhole (low + 1) n k order (shifted low n order range) distinct full (omega arith)
      (omega arith)

keys_range :
    (low n : ℕ) (keys : List ℕ)
    → All (λ k. contains k (ids_from low n) ≡ true) keys
    → All (λ id. (low < id) × (id ≤ low + n)) keys
keys_range low n [] h = tt
keys_range low n (k ∷ keys) h = (contains-ids_from-range low n k h.0, keys_range low n keys h.1)

nothing_yet : (id : ℕ) (value : Json) → value_of id [] ≢ some value
unfolding value_of
nothing_yet id value h = cc

module _ (casefold : Json → String) where
  pub read_batch-restores :
      (low n : ℕ) (value : ℕ → Json) (order : List ℕ) (items : Items)
      → AllAnswers value order (list_of items)
      → All (λ id. (low < id) × (id ≤ low + n)) order
      → ((k : ℕ) → count k order ≤ 1)
      → length order ≡ n
      → read_batch casefold (ids_from low n) (array items) ≡ done (map value (ids_from low n))
  unfolding read_batch count
  read_batch-restores low n value order items answers range distinct full =
      let (by_id, r, c, h) =
        read_envelopes-done casefold value (ids_from low n) [] order (list_of items) answers
          (in_range low n order range) (λ k. omega (arith, distinct k)) tt in
      let same : (length (list_of items) == length (ids_from low n)) ≡ true =
        ground
          (arith, AllAnswers-length value order (list_of items) answers, length-ids_from low n) in
      rw (read_batch, same, r)
        (in_order-Holds casefold value by_id (ids_from low n) h (
          ids_from-All (λ id. 0 < count id (ids_of by_id)) low n
            (λ k a b. omega (arith, c k, every_id low n order range distinct full k a b))))

  pub read_batch-EachAnswered :
      (order : List ℕ) (response : Json) {values : List Json}
      → read_batch casefold order response ≡ done values
      → (items : Items) × (as_array response ≡ some items)
        × EachAnswered order values (list_of items)
  unfolding read_batch
  read_batch-EachAnswered order response h = elim (Option-cases (as_array response)) [
    | inl a ↦ ground (arith, a)
    | inr (items, a) ↦ elim (Reply-cases (read_envelopes casefold order [] (list_of items))) [
      | inl (by_id, r) ↦
          let same : (length (list_of items) == length order) ≡ true = ground (arith, a) in
          let read = read_envelopes-Read casefold order [] (list_of items) r in
          (
            items,
            a,
            in_order-EachAnswered by_id (list_of items) order
                (λ id v e. elim (read.from id v e) [
                  | inl early ↦ absurd (nothing_yet id v early)
                  | inr answered ↦ answered
                ])
                (rw (a, same, r, read_batch) at h),
          )
      | inr (inl r) ↦ ground (arith, a, r)
      | inr (inr (code, r)) ↦ ground (arith, a, r)
    ]
  ]

  provider_error-keeps : (error : Json) → provider_error casefold error ≢ failed missing_key
  unfolding provider_error coded_error
  provider_error-keeps error h = ground arith

  read_envelope-keeps :
      (expected_ids : List ℕ) (by_id : ById) (envelope : Json)
      → read_envelope casefold expected_ids by_id envelope ≢ failed missing_key
  unfolding read_envelope
  read_envelope-keeps expected_ids by_id envelope h = grind (arith, provider_error-keeps)

  read_envelopes-keeps :
      (expected_ids : List ℕ) (by_id : ById) (envelopes : List Json)
      → read_envelopes casefold expected_ids by_id envelopes ≢ failed missing_key
  unfolding read_envelopes
  read_envelopes-keeps expected_ids by_id [] h = cc
  read_envelopes-keeps expected_ids by_id (envelope ∷ envelopes) h =
      elim (Reply-cases (read_envelope casefold expected_ids by_id envelope)) [
        | inl (answer, e) ↦
            read_envelopes-keeps expected_ids (answer ∷ by_id) envelopes
              (rw (e, read_envelopes) at h)
        | inr (inl e) ↦ ground (arith, e)
        | inr (inr (code, e)) ↦ ground (arith, e, read_envelope-keeps expected_ids by_id envelope)
      ]

  -- Where the envelopes were accepted, each request has its value.
  pub read_batch-finds :
      (low n : ℕ) (response : Json)
      → read_batch casefold (ids_from low n) response ≢ failed missing_key
  unfolding read_batch count
  read_batch-finds low n response h = elim (Option-cases (as_array response)) [
    | inl a ↦ ground (arith, a)
    | inr (items, a) ↦
        elim (Reply-cases (read_envelopes casefold (ids_from low n) [] (list_of items))) [
          | inl (by_id, r) ↦
              let same : (length (list_of items) == length (ids_from low n)) ≡ true =
                ground (arith, a) in
              let read = read_envelopes-Read casefold (ids_from low n) [] (list_of items) r in
              let (values, found) = in_order-done by_id (ids_from low n) (
                ids_from-All (λ id. 0 < count id (ids_of by_id)) low n
                  (λ k p q. omega (
                    arith,
                    every_id low n (ids_of by_id)
                        (keys_range low n (ids_of by_id) (read.expected tt))
                        (read.once (λ j. omega arith))
                        (omega (arith, read.full, length-ids_from low n, (==_iff _ _).0 same)) k p
                        q,
                  ))) in
              let h' : in_order by_id (ids_from low n) ≡ failed missing_key =
                rw (a, same, r, read_batch) at h in
              ground (arith, found, h')
          | inr (inl r) ↦ ground (arith, a, r)
          | inr (inr (code, r)) ↦
              ground (arith, a, r, read_envelopes-keeps (ids_from low n) [] (list_of items))
        ]
  ]
