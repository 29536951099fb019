-- ===== src/Books/Paired.antt =====
-- A complete pair quote is of two outcomes of one condition, and adds up their cost.
use oddsfox_pipeline.Base.{
  ℕ, ◌+◌, ◌*◌, ◌<◌, String, List, Option, none, some, true, not, ◌&&◌, ◌||◌, ◌≡◌, ◌≢◌, refl, ap,
  sym, ◌∙◌, inl, inr, ok, ◌>>=◌, >>=-eq-ok, ok-injective, arith, ◌==◌, eq_iff, Bool-cases,
}
use oddsfox_pipeline.Books.Row.{Row, buy}
use oddsfox_pipeline.Books.Book.{Book}
use oddsfox_pipeline.Books.Quote.{Quote, quote}
use oddsfox_pipeline.Books.Pair.{
  PairQuote, PairReason, inconsistent_provenance, not_distinct_outcomes, unverified_complement,
  pair_unavailable, pair_complete, same_condition, is_complete, is_binary, same_provenance,
  distinct_outcomes, quotes_of, verified_pair, pair_quote,
}

-- What a complete pair quote is made of.
pub record IsPair (first opposite : Book) (quantity unit : ℕ) (left right : Quote)
    (combined opposite_cost merged : ℕ) : Type 0 where
  pub left_quote : quote buy quantity first ≡ ok left
  pub right_quote : quote buy quantity opposite ≡ ok right
  pub left_complete : is_complete left.quote_status ≡ true
  pub right_complete : is_complete right.quote_status ≡ true
  pub summed : combined ≡ left.gross_amount + right.gross_amount
  pub opposite_summed : opposite_cost ≡ right.gross_amount
  pub proceeds : merged ≡ quantity * unit

-- The rows that both books stand at are of one source, stream and condition, and of two tokens.
pub record IsComplement (a b : Row) : Type 0 where
  pub source : a.source ≡ b.source
  pub stream : a.stream ≡ b.stream
  pub condition : a.condition_id ≡ b.condition_id
  pub tokens : a.token_id ≢ b.token_id

quotes_of_complete :
    (left right left' right' : Quote) (quantity unit c o m : ℕ)
    → quotes_of left right quantity unit ≡ pair_complete left' right' c o m
    → (left ≡ left')
      × (right ≡ right')
      × (is_complete left.quote_status ≡ true)
      × (is_complete right.quote_status ≡ true)
      × (c ≡ left.gross_amount + right.gross_amount)
      × (o ≡ right.gross_amount)
      × (m ≡ quantity * unit)
unfolding quotes_of
quotes_of_complete left right left' right' quantity unit c o m h =
    elim (Bool-cases (is_complete left.quote_status && is_complete right.quote_status)) [
      | inl both ↦ let e = rw both at h in (cc, cc, ground arith, ground arith, cc, cc, cc)
      | inr partly ↦ cc (rw partly at h)
    ]

distinct_outcomes-IsComplement :
    (a b : Row) → same_provenance a b ≡ true → distinct_outcomes a b ≡ true → IsComplement a b
distinct_outcomes-IsComplement a b same distinct = record {
  source = ground (arith, eq_iff a.source b.source);
  stream = ground (arith, eq_iff a.stream b.stream);
  condition = conditions a.condition_id b.condition_id (ground arith);
  tokens = λ e. ground (arith, eq_iff a.token_id b.token_id);
}
  where
    conditions : (x y : Option String) → same_condition x y ≡ true → x ≡ y
    conditions (some x) (some y) h = ap some ((eq_iff x y).0 (ground arith))
    conditions (some x) none h = cc
    conditions none y h = cc

-- The tests of the rows and of the unit pass, and both quotes are made.
checked_pair :
    (first opposite : Book) (quantity unit : ℕ) (tokens : List String) (a b : Row) (r : PairQuote)
    → verified_pair first opposite quantity unit tokens (some a) (some b) ≡ ok r
    → ((x : PairReason) → r ≢ pair_unavailable x)
    → (same_provenance a b ≡ true)
      × (distinct_outcomes a b ≡ true)
      × (0 < unit)
      × ((quote buy quantity first >>= λ left.
            quote buy quantity opposite >>= λ right. ok (quotes_of left right quantity unit))
          ≡ ok r)
unfolding verified_pair
checked_pair first opposite quantity unit tokens a b r h k =
    elim (Bool-cases (same_provenance a b)) [
      | inr t ↦ absurd (k inconsistent_provenance (sym (ok-injective (rw t at h))))
      | inl t ↦ elim (Bool-cases (distinct_outcomes a b)) [
        | inr u ↦ absurd (k not_distinct_outcomes (sym (ok-injective (rw (t, u) at h))))
        | inl u ↦ elim (Bool-cases (not (is_binary tokens a.token_id b.token_id) || unit == 0)) [
          | inl v ↦ absurd (k unverified_complement (sym (ok-injective (rw (t, u, v) at h))))
          | inr v ↦ (t, u, ground arith, rw (t, u, v) at h)
        ]
      ]
    ]

verified_pair-IsPair :
    (first opposite : Book) (quantity unit : ℕ) (tokens : List String) (a b : Row)
    (left right : Quote) (c o m : ℕ)
    → verified_pair first opposite quantity unit tokens (some a) (some b)
      ≡ ok (pair_complete left right c o m)
    → IsComplement a b × (0 < unit) × IsPair first opposite quantity unit left right c o m
verified_pair-IsPair first opposite quantity unit tokens a b left right c o m h =
    let (same, distinct, pos, quoted) =
      checked_pair first opposite quantity unit tokens a b (pair_complete left right c o m) h
        (λ x e. cc e) in
    let (left', e, next) = >>=-eq-ok (quote buy quantity first) _ quoted in
    let (right', f, made) = >>=-eq-ok (quote buy quantity opposite) _ next in
    let (is_left, is_right, full, full', sum, opp, merged) =
      quotes_of_complete left' right' left right quantity unit c o m (ok-injective made) in
    (
      distinct_outcomes-IsComplement a b same distinct,
      pos,
      record {
        left_quote = e ∙ ap ok is_left;
        right_quote = f ∙ ap ok is_right;
        left_complete = ap (λ (q : Quote). is_complete q.quote_status) (sym is_left) ∙ full;
        right_complete = ap (λ (q : Quote). is_complete q.quote_status) (sym is_right) ∙ full';
        summed = rw (← is_left, ← is_right) sum;
        opposite_summed = rw (← is_right) opp;
        proceeds = merged;
      },
    )

-- A complete pair quote stands on a verified positive unit and on two books at rows of one source,
-- stream and condition and of different tokens; both quotes are complete, and it adds up their cost.
pub pair_quote-IsPair :
    (first opposite : Book) (quantity : ℕ) (unit : Option ℕ) (tokens : Option (List String))
    (left right : Quote) (c o m : ℕ)
    → pair_quote first opposite quantity unit tokens ≡ ok (pair_complete left right c o m)
    → (a b : Row) × (n : ℕ) × (first.last ≡ some a)
      × (opposite.last ≡ some b)
      × (unit ≡ some n)
      × IsComplement a b
      × (0 < n)
      × IsPair first opposite quantity n left right c o m
unfolding pair_quote verified_pair
pair_quote-IsPair first opposite quantity (some n) (some tokens) left right c o m h =
    rows first.last opposite.last refl refl h
  where
    rows :
        (x y : Option Row)
        → first.last ≡ x
        → opposite.last ≡ y
        → verified_pair first opposite quantity n tokens x y ≡ ok (pair_complete left right c o m)
        → (a b : Row) × (k : ℕ) × (first.last ≡ some a)
          × (opposite.last ≡ some b)
          × (some n ≡ some k)
          × IsComplement a b
          × (0 < k)
          × IsPair first opposite quantity k left right c o m
    rows (some a) (some b) e f g =
        let (complement, pos, pair) =
          verified_pair-IsPair first opposite quantity n tokens a b left right c o m g in
        (a, b, n, e, f, refl, complement, pos, pair)
    rows (some a) none e f g = cc g
    rows none y e f g = cc g
pair_quote-IsPair first opposite quantity (some n) none left right c o m h = cc h
pair_quote-IsPair first opposite quantity none tokens left right c o m h = cc h
