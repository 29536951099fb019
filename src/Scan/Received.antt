-- ===== src/Scan/Received.antt =====
-- The receipts that are fetched are those of every transaction, and the loop comes to an end.
use oddsfox_pipeline.Base.{
  ℕ, zero, suc, ◌+◌, ◌*◌, ◌-◌, ◌≤◌, ◌<◌, String, List, [], ◌∷◌, ◌++◌, Bool, true, false, ◌&&◌, ◌||◌,
  ◌≡◌, ◌≢◌, ◌⊎◌, inl, inr, refl, sym, ap, ◌∙◌, Result, ok, err, arith, Bool-cases, is_empty, length,
  take, drop, length-take, length-drop, take-append-drop, min, str_eq, eq_iff, All,
}
use mathlib.Core.Path.{subst}
use oddsfox_pipeline.Rpc.Batches.{Reply, done, size_limit, failed}
use oddsfox_pipeline.Scan.Receipts.{
  ReceiptError, out_of_fuel, Receipts, Fetched, has_receipt, asked_for, all_received, none_else,
  next_batch_size, Progress, Round, stopped, continued, after_fetch, fetch_loop,
  fetch_receipts_adaptively,
}

-- The batch size stays in its range, whatever the timings.
next_batch_size_bounds :
    (size duration : ℕ) (retried : Bool)
    → 5 ≤ size
    → size ≤ 50
    → (5 ≤ next_batch_size size duration retried) × (next_batch_size size duration retried ≤ 50)
unfolding next_batch_size
next_batch_size_bounds size duration retried h k = ground arith

length-pos : (xs : List String) → xs ≢ [] → 0 < length xs
length-pos [] h = absurd (h refl)
length-pos (x ∷ xs) h = omega arith

asked_for-append :
    (hash : String) (xs ys : List String)
    → asked_for hash (xs ++ ys) ≡ (asked_for hash xs || asked_for hash ys)
unfolding asked_for
asked_for-append hash [] ys = refl
asked_for-append hash (x ∷ xs) ys = ground (arith, asked_for-append hash xs ys)

drop-length-take : (n : ℕ) (xs : List String) → drop (length (take n xs)) xs ≡ drop n xs
drop-length-take zero xs = refl
drop-length-take (suc n) [] = refl
drop-length-take (suc n) (x ∷ xs) = drop-length-take n xs

-- What was asked for in a batch, or is left behind it.
asked_for-take-drop :
    (hash : String) (n : ℕ) (xs : List String)
    → asked_for hash xs
      ≡ (asked_for hash (take n xs) || asked_for hash (drop (length (take n xs)) xs))
asked_for-take-drop hash n xs =
    ap (asked_for hash) (sym (take-append-drop n xs))
    ∙ asked_for-append hash (take n xs) (drop n xs)
    ∙ ap (λ (rest : List String). asked_for hash (take n xs) || asked_for hash rest)
        (sym (drop-length-take n xs))

module _ {Receipt : Type 0} where
  pub record IsSized (p : Progress Receipt) : Type 0 where
    pub at_least : 5 ≤ p.batch_size
    pub at_most : p.batch_size ≤ 50

  abbrev measure : Progress Receipt → ℕ
  measure p = length p.remaining * 51 + p.batch_size

  -- A round that goes on keeps the batch size in range and makes progress.
  after_fetch-IsSized :
      (p p' : Progress Receipt) (reply : Reply (Fetched Receipt))
      → IsSized p
      → p.remaining ≢ []
      → after_fetch p (take p.batch_size p.remaining) reply ≡ continued p'
      → IsSized p' × (measure p' < measure p)
  unfolding after_fetch
  after_fetch-IsSized p p' (done f) v some e =
      let batch = take p.batch_size p.remaining in
      let sized = next_batch_size_bounds p.batch_size f.duration f.retried v.at_least v.at_most in
      let taken : length batch ≡ min p.batch_size (length p.remaining) =
        length-take p.batch_size p.remaining in
      let left : length (drop (length batch) p.remaining) ≡ length p.remaining - length batch =
        length-drop (length batch) p.remaining in
      let pos : 0 < length p.remaining = length-pos p.remaining some in
      elim (Bool-cases (all_received batch f.receipts && none_else f.receipts batch)) [
        | inl ok_keys ↦
            let same : record p {
              remaining = drop (length batch) p.remaining;
              batch_size = next_batch_size p.batch_size f.duration f.retried;
              receipts = f.receipts ++ p.receipts;
            }
                ≡ p' =
              ground arith in
            subst (λ (q : Progress Receipt). IsSized q × (measure q < measure p)) same
              (record { at_least = sized.0; at_most = sized.1 }, omega arith)
        | inr bad ↦ absurd (ground arith)
      ]
  after_fetch-IsSized p p' size_limit v some e =
      ground (arith, length-take p.batch_size p.remaining)
  after_fetch-IsSized p p' (failed x) v some e = cc

  -- Every transaction was received or is still to be asked for.
  abbrev Accounted : List String → Progress Receipt → Type 0
  Accounted hashes p =
      (hash : String)
      → asked_for hash hashes ≡ true
      → (has_receipt hash p.receipts || asked_for hash p.remaining) ≡ true

  has_receipt-append :
      (hash : String) (xs ys : Receipts Receipt)
      → has_receipt hash (xs ++ ys) ≡ (has_receipt hash xs || has_receipt hash ys)
  unfolding has_receipt
  has_receipt-append hash [] ys = refl
  has_receipt-append hash (x ∷ xs) ys = ground (arith, has_receipt-append hash xs ys)

  all_received-has_receipt :
      (hash : String) (batch : List String) (receipts : Receipts Receipt)
      → all_received batch receipts ≡ true
      → asked_for hash batch ≡ true
      → has_receipt hash receipts ≡ true
  unfolding all_received asked_for
  all_received-has_receipt hash [] receipts h a = cc
  all_received-has_receipt hash (key ∷ batch) receipts h a = elim (Bool-cases (str_eq key hash)) [
    | inl same ↦ rw (← (eq_iff key hash).0 same) (ground arith)
    | inr other ↦ all_received-has_receipt hash batch receipts (ground arith) (rw other at a)
  ]

  after_fetch-Accounted :
      (hashes : List String) (p p' : Progress Receipt) (reply : Reply (Fetched Receipt))
      → after_fetch p (take p.batch_size p.remaining) reply ≡ continued p'
      → Accounted hashes p
      → Accounted hashes p'
  unfolding after_fetch
  after_fetch-Accounted hashes p p' (done f) e h hash a =
      let batch = take p.batch_size p.remaining in
      elim (Bool-cases (all_received batch f.receipts && none_else f.receipts batch)) [
        | inl ok_keys ↦ ground (
          arith,
          h hash a,
          asked_for-take-drop hash p.batch_size p.remaining,
          all_received-has_receipt hash batch f.receipts,
          has_receipt-append hash f.receipts p.receipts,
        )
        | inr bad ↦ absurd (ground arith)
      ]
  after_fetch-Accounted hashes p p' size_limit e h hash a = ground (arith, h hash)
  after_fetch-Accounted hashes p p' (failed x) e h hash a = cc

  none_left :
      (hash : String) (p : Progress Receipt)
      → is_empty p.remaining ≡ true
      → asked_for hash p.remaining ≡ false
  unfolding asked_for
  none_left hash p h = ground arith

  Round-cases :
      (r : Round Receipt)
      → ((e : ReceiptError) × (r ≡ stopped e)) ⊎ ((p : Progress Receipt) × (r ≡ continued p))
  Round-cases (stopped e) = inl (e, refl)
  Round-cases (continued p) = inr (p, refl)

  after_fetch-stopped :
      (p : Progress Receipt) (batch : List String) (reply : Reply (Fetched Receipt))
      (e : ReceiptError)
      → after_fetch p batch reply ≡ stopped e
      → e ≢ out_of_fuel
  unfolding after_fetch
  after_fetch-stopped p batch (done f) e h x = ground arith
  after_fetch-stopped p batch size_limit e h x = ground arith
  after_fetch-stopped p batch (failed y) e h x = ground arith

  received-All :
      (hashes : List String) (receipts : Receipts Receipt)
      → ((hash : String) → asked_for hash hashes ≡ true → has_receipt hash receipts ≡ true)
      → All (λ hash. has_receipt hash receipts ≡ true) hashes
  unfolding asked_for
  received-All [] receipts h = tt
  received-All (key ∷ hashes) receipts h = (
    h key (ground (arith, eq_iff key key)),
    received-All hashes receipts λ hash a. h hash (ground arith),
  )

module _ {S Receipt : Type 0} (fetch : List String → S → Reply (Fetched Receipt) × S) where
  -- How the loop may end: with every receipt, or with an error of the provider or of its replies,
  -- but never for want of rounds.
  abbrev pub Ends : List String → Result ReceiptError (Receipts Receipt × ℕ) × S → Type 0
  Ends hashes (ok (receipts, splits), s) = All (λ hash. has_receipt hash receipts ≡ true) hashes
  Ends hashes (err e, s) = e ≢ out_of_fuel

  fetch_loop-Ends :
      (hashes : List String) (fuel : ℕ) (p : Progress Receipt) (s : S)
      → IsSized p
      → measure p < fuel
      → Accounted hashes p
      → Ends hashes (fetch_loop fetch fuel p s)
  unfolding fetch_loop
  fetch_loop-Ends hashes zero p s v m h = absurd (omega arith)
  fetch_loop-Ends hashes (suc fuel) p s v m h = elim (Bool-cases (is_empty p.remaining)) [
    | inl finished ↦
        rw (finished, fetch_loop)
          (received-All hashes p.receipts
            λ hash a. ground (arith, h hash a, none_left hash p finished))
    | inr some ↦
        let batch = take p.batch_size p.remaining in
        let (reply, s') = fetch batch s in
        elim (Round-cases (after_fetch p batch reply)) [
          | inl (e, r) ↦ rw (some, r, fetch_loop) (after_fetch-stopped p batch reply e r)
          | inr (p', r) ↦
              let (v', m') = after_fetch-IsSized p p' reply v (λ x. cc x) r in
              rw (some, r, fetch_loop)
                (fetch_loop-Ends hashes fuel p' s' v' (omega arith)
                  (after_fetch-Accounted hashes p p' reply r h))
        ]
  ]

  -- From an initial batch size between 5 and 50, the rounds allowed are enough: the loop ends, and
  -- if it raises no error of the provider or of its replies, it has a receipt for every transaction.
  pub fetch_receipts_adaptively-Ends :
      (transaction_hashes : List String) (initial_batch_size : ℕ) (s : S)
      → 5 ≤ initial_batch_size
      → initial_batch_size ≤ 50
      → Ends transaction_hashes
          (fetch_receipts_adaptively fetch transaction_hashes initial_batch_size s)
  unfolding fetch_receipts_adaptively
  fetch_receipts_adaptively-Ends hashes size s h k =
      fetch_loop-Ends hashes _ _ s (record { at_least = h; at_most = k }) (omega arith)
        λ hash a. ground arith
