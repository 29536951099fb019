-- ===== src/Rpc/Restored.antt =====
-- `batch_call` as a whole: the results come back in the order of the calls.
use oddsfox_pipeline.Base.{
  ℕ, zero, suc, ◌+◌, ◌≤◌, ◌<◌, String, List, [], ◌∷◌, map, some, true, false, ◌≡◌, refl, ap, sym,
  ◌∙◌, ◌⊎◌, inl, inr, arith, Bool-cases, Option-cases, length, All, ◌==◌, ==_iff, nat_eq, contains,
  count, contains-count,
}
use mathlib.Core.Path.{subst}
use mathlib.Core.Option.{some-injective}
use oddsfox_pipeline.Rpc.Json.{Json}
use oddsfox_pipeline.Rpc.Batches.{done}
use oddsfox_pipeline.Rpc.Client.{Call}
use oddsfox_pipeline.Rpc.Batch.{
  ById, number_calls, value_of, in_order, read_envelope, read_envelopes,
}
use oddsfox_pipeline.Rpc.Envelopes.{IsAnswer, Reply-cases, done-injective, read_envelope-IsAnswer}

-- The ids of `n` requests after `low`.
unfoldable pub ids_from : ℕ → ℕ → List ℕ
ids_from low zero = []
ids_from low (suc n) = (low + 1) ∷ ids_from (low + 1) n

pub number_calls-ids :
    (low : ℕ) (calls : List Call)
    → map (λ x. x.id) (number_calls low calls) ≡ ids_from low (length calls)
unfolding number_calls ids_from
number_calls-ids low [] = refl
number_calls-ids low (call ∷ calls) = ap (λ ids. (low + 1) ∷ ids) (number_calls-ids (low + 1) calls)

pub length-ids_from : (low n : ℕ) → length (ids_from low n) ≡ n
unfolding ids_from
length-ids_from low zero = refl
length-ids_from low (suc n) = ap suc (length-ids_from (low + 1) n)

pub contains-ids_from : (low n k : ℕ) → low < k → k ≤ low + n → contains k (ids_from low n) ≡ true
unfolding ids_from contains
contains-ids_from low zero k h le = absurd (omega arith)
contains-ids_from low (suc n) k h le = elim (Bool-cases ((low + 1) == k)) [
  | inl e ↦ rw e refl
  | inr e ↦ rw e (contains-ids_from (low + 1) n k (ground arith) (omega arith))
]

pub contains-ids_from-range :
    (low n k : ℕ) → contains k (ids_from low n) ≡ true → (low < k) × (k ≤ low + n)
unfolding ids_from contains
contains-ids_from-range low zero k h = cc
contains-ids_from-range low (suc n) k h = elim (Bool-cases ((low + 1) == k)) [
  | inl e ↦ (ground arith, ground arith)
  | inr e ↦
      let (a, b) = contains-ids_from-range (low + 1) n k (rw e at h) in (omega arith, omega arith)
]

abbrev pub ids_of : ById → List ℕ
ids_of by_id = map (λ x. x.0) by_id

pub count-contains : (k : ℕ) (xs : List ℕ) → contains k xs ≡ false → count k xs ≡ 0
count-contains k xs h = contains-count k xs h

pub value_of-here :
    {A : Type 0} (id key : ℕ) (value : A) (rest : List (ℕ × A))
    → (key == id) ≡ true
    → value_of id ((key, value) ∷ rest) ≡ some value
unfolding value_of
value_of-here id key value rest e = rw e refl

pub value_of-later :
    {A : Type 0} (id key : ℕ) (value : A) (rest : List (ℕ × A))
    → (key == id) ≡ false
    → value_of id ((key, value) ∷ rest) ≡ value_of id rest
unfolding value_of
value_of-later id key value rest e = rw e refl

-- A key that occurs has a value.
value_of-some :
    (id : ℕ) (by_id : ById)
    → 0 < count id (ids_of by_id)
    → (v : Json) × (value_of id by_id ≡ some v)
unfolding value_of count
value_of-some id [] h = absurd (omega arith)
value_of-some id ((key, value) ∷ rest) h = elim (Bool-cases (key == id)) [
  | inl e ↦ (value, rw e refl)
  | inr e ↦
      let (v, w) = value_of-some id rest (let h' = rw e at h in omega arith) in
      (v, value_of-later id key value rest e ∙ w)
]

-- The envelope of an answer to the request `id`, among those of a batch.
pub data Answered (id : ℕ) (value : Json) : List Json → Type 0 where
  here :
      {envelope : Json} {envelopes : List Json}
      → IsAnswer id value envelope
      → Answered id value (envelope ∷ envelopes)
  there :
      {envelope : Json} {envelopes : List Json}
      → Answered id value envelopes
      → Answered id value (envelope ∷ envelopes)

module _ (casefold : Json → String) where
  -- What reading the envelopes leaves in `by_id`.
  pub record Read (expected_ids : List ℕ) (by_id by_id' : ById) (envelopes : List Json)
      : Type 0 where
    pub once : ((k : ℕ) → count k (ids_of by_id) ≤ 1) → (k : ℕ) → count k (ids_of by_id') ≤ 1
    pub expected :
        All (λ k. contains k expected_ids ≡ true) (ids_of by_id)
        → All (λ k. contains k expected_ids ≡ true) (ids_of by_id')
    pub full : length (ids_of by_id') ≡ length (ids_of by_id) + length envelopes
    pub from :
        (id : ℕ) (value : Json)
        → value_of id by_id' ≡ some value
        → (value_of id by_id ≡ some value) ⊎ Answered id value envelopes

  pub read_envelopes-Read :
      (expected_ids : List ℕ) (by_id : ById) (envelopes : List Json) {by_id' : ById}
      → read_envelopes casefold expected_ids by_id envelopes ≡ done by_id'
      → Read expected_ids by_id by_id' envelopes
  unfolding read_envelopes count
  read_envelopes-Read expected_ids by_id [] h =
      let same = done-injective h in
      subst (λ x. Read expected_ids by_id x []) same
        record { once = λ o. o; expected = λ e. e; full = omega arith; from = λ id value e. inl e }
  read_envelopes-Read expected_ids by_id (envelope ∷ envelopes) {by_id'} h =
      elim (Reply-cases (read_envelope casefold expected_ids by_id envelope)) [
        | inl ((id, value), e) ↦
            let (answer, known, new) =
              read_envelope-IsAnswer casefold expected_ids by_id envelope e in
            let rest =
              read_envelopes-Read expected_ids ((id, value) ∷ by_id) envelopes {by_id' = by_id'}
                (rw (e, read_envelopes) at h) in
            record {
              once = λ o. rest.once (λ k. elim (Bool-cases (id == k)) [
                | inl same ↦
                    let e : id ≡ k = (==_iff id k).0 same in
                    rw same (
                      omega (
                        arith,
                        ap (λ j. count j (ids_of by_id)) e,
                        count-contains id (ids_of by_id) new,
                      ))
                | inr other ↦ rw other (omega (arith, o k))
              ]);
              expected = λ a. rest.expected (known, a);
              full = rest.full ∙ omega arith;
              from = λ k v f. elim (rest.from k v f) [
                | inr later ↦ inr (there later)
                | inl earlier ↦ elim (Bool-cases (id == k)) [
                  | inl same ↦
                      let same_id : id ≡ k = (==_iff id k).0 same in
                      let same_value : value ≡ v =
                        some-injective value v
                          (sym (value_of-here k id value by_id same) ∙ earlier) in
                      inr (
                        here (
                          subst (λ j. IsAnswer j v envelope) same_id
                            (subst (λ w. IsAnswer id w envelope) same_value answer)))
                  | inr other ↦ inl (sym (value_of-later k id value by_id other) ∙ earlier)
                ]
              ];
            }
        | inr (inl e) ↦ ground (arith, e)
        | inr (inr (code, e)) ↦ ground (arith, e)
      ]

-- Each request of `order` has its value of `values`, and an envelope that says so.
abbrev pub EachAnswered : List ℕ → List Json → List Json → Type 0
EachAnswered [] [] envelopes = Unit {0}
EachAnswered (id ∷ order) (value ∷ values) envelopes =
    Answered id value envelopes × EachAnswered order values envelopes
EachAnswered _ _ envelopes = ⊥

pub in_order-EachAnswered :
    (by_id : ById) (envelopes : List Json) (order : List ℕ) {values : List Json}
    → ((id : ℕ) (value : Json) → value_of id by_id ≡ some value → Answered id value envelopes)
    → in_order by_id order ≡ done values
    → EachAnswered order values envelopes
unfolding in_order
in_order-EachAnswered by_id envelopes [] from h =
    subst (λ x. EachAnswered [] x envelopes) (done-injective h) tt
in_order-EachAnswered by_id envelopes (id ∷ order) {values} from h =
    elim (Option-cases (value_of id by_id)) [
      | inl v ↦ ground (arith, v)
      | inr (value, v) ↦ elim (Reply-cases (in_order by_id order)) [
        | inl (rest, r) ↦
            let same : value ∷ rest ≡ values = done-injective (rw (v, r, in_order) at h) in
            subst (λ x. EachAnswered (id ∷ order) x envelopes) same
              (from id value v, in_order-EachAnswered by_id envelopes order from r)
        | inr (inl r) ↦ ground (arith, v, r)
        | inr (inr (code, r)) ↦ ground (arith, v, r)
      ]
    ]

pub in_order-step :
    (by_id : ById) (id : ℕ) (order : List ℕ) {value : Json} {values : List Json}
    → value_of id by_id ≡ some value
    → in_order by_id order ≡ done values
    → in_order by_id (id ∷ order) ≡ done (value ∷ values)
unfolding in_order
in_order-step by_id id order v r = rw (in_order, v, r) refl

-- Where each request has a value, none is missing.
pub in_order-done :
    (by_id : ById) (order : List ℕ)
    → All (λ id. 0 < count id (ids_of by_id)) order
    → (values : List Json) × (in_order by_id order ≡ done values)
unfolding in_order
in_order-done by_id [] h = ([], refl)
in_order-done by_id (id ∷ order) h =
    let (value, v) = value_of-some id by_id h.0 in
    let (values, r) = in_order-done by_id order h.1 in
    (value ∷ values, in_order-step by_id id order v r)
