-- ===== src/Rpc/DataWords.antt =====
-- What the data of a settlement log holds where `_data_words` reads it.
use mathlib.Core.Option.{some-injective}
use mathlib.Core.Path.{subst}
use oddsfox_pipeline.Base.{
  ℕ, zero, suc, ◌*◌, List, [], ◌∷◌, some, true, ◌&&◌, ◌≡◌, refl, sym, inl, inr, arith, Bool-cases,
  Option-cases, length, take, drop, ◌==◌,
}
use oddsfox_pipeline.Rpc.Hex.{hex_value, all_hex, data_words, words_of, words, behind_0x}
use oddsfox_pipeline.Rpc.Logs.{first_four, words_of_kind}
use oddsfox_pipeline.Settlement.Types.{EventKind, order_filled, orders_matched}

-- The word of 64 digits at a position of the payload.
abbrev pub word : ℕ → List ℕ → ℕ
word zero payload = hex_value 0 (take 64 payload)
word (suc n) payload = word n (drop 64 payload)

-- The digits of the data, by the kind.
abbrev pub digits_of : EventKind → ℕ
digits_of order_filled = 448
digits_of orders_matched = 256

-- The digits behind `0x`, and the words that are read from them.
record IsPayload (digit_text : List ℕ) (expected : ℕ) (read payload : List ℕ) : Type 0 where
  behind : digit_text ≡ 48 ∷ 120 ∷ payload
  sized : length payload ≡ 64 * expected
  digits : all_hex payload ≡ true
  cut : words expected payload ≡ read

behind_0x_cases :
    (digit_text payload : List ℕ)
    → behind_0x digit_text ≡ some payload
    → digit_text ≡ 48 ∷ 120 ∷ payload
behind_0x_cases [] payload h = cc
behind_0x_cases (a ∷ []) payload h = cc
behind_0x_cases (a ∷ b ∷ cs) payload h = elim (Bool-cases (a == 48 && b == 120)) [
  | inl same ↦
      let rest : cs ≡ payload = some-injective _ _ (rw same at h) in
      let first : a ≡ 48 = ground (arith, same) in
      let second : b ≡ 120 = ground (arith, same) in rw (first, second, rest) refl
  | inr other ↦ cc (rw other at h)
]

words_of-IsPayload :
    (digit_text : List ℕ) (expected : ℕ) (payload read : List ℕ)
    → behind_0x digit_text ≡ some payload
    → words_of expected (some payload) ≡ some read
    → IsPayload digit_text expected read payload
unfolding words_of
words_of-IsPayload digit_text expected payload read e h =
    elim (Bool-cases (length payload == 64 * expected && all_hex payload)) [
      | inl same ↦ record {
        behind = behind_0x_cases digit_text payload e;
        sized = ground (arith, same);
        digits = ground (arith, same);
        cut = some-injective _ _ (rw same at h);
      }
      | inr other ↦ cc (rw other at h)
    ]

data_words-IsPayload :
    (digit_text : List ℕ) (expected : ℕ) (read : List ℕ)
    → data_words digit_text expected ≡ some read
    → (payload : List ℕ) × IsPayload digit_text expected read payload
unfolding data_words words_of
data_words-IsPayload digit_text expected read h = elim (Option-cases (behind_0x digit_text)) [
  | inl nothing ↦ cc (rw nothing at h)
  | inr (payload, e) ↦ (payload, words_of-IsPayload digit_text expected payload read e (rw e at h))
]

-- The first four words of the data, by the kind.
pub record IsData (kind : EventKind) (digit_text : List ℕ) (amounts : ℕ × ℕ × ℕ × ℕ) : Type 0 where
  pub payload : List ℕ
  pub behind : digit_text ≡ 48 ∷ 120 ∷ payload
  pub digits : all_hex payload ≡ true
  pub sized : length payload ≡ digits_of kind
  pub leading : (word 0 payload, word 1 payload, word 2 payload, word 3 payload) ≡ amounts

first_four_words :
    (expected : ℕ) (payload : List ℕ) (amounts : ℕ × ℕ × ℕ × ℕ)
    → first_four (words (suc (suc (suc (suc expected)))) payload) ≡ some amounts
    → (word 0 payload, word 1 payload, word 2 payload, word 3 payload) ≡ amounts
unfolding words
first_four_words expected payload amounts h = some-injective _ _ h

pub data_words-IsData :
    (kind : EventKind) (digit_text read : List ℕ) (amounts : ℕ × ℕ × ℕ × ℕ)
    → data_words digit_text (words_of_kind kind) ≡ some read
    → first_four read ≡ some amounts
    → IsData kind digit_text amounts
data_words-IsData order_filled digit_text read amounts h f =
    let (payload, p) = data_words-IsPayload digit_text 7 read h in
    record {
      payload = payload;
      behind = p.behind;
      digits = p.digits;
      sized = p.sized;
      leading =
          first_four_words 3 payload amounts
            (subst (λ words. first_four words ≡ some amounts) (sym p.cut) f);
    }
data_words-IsData orders_matched digit_text read amounts h f =
    let (payload, p) = data_words-IsPayload digit_text 4 read h in
    record {
      payload = payload;
      behind = p.behind;
      digits = p.digits;
      sized = p.sized;
      leading =
          first_four_words 0 payload amounts
            (subst (λ words. first_four words ≡ some amounts) (sym p.cut) f);
    }
