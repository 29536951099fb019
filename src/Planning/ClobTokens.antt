-- ===== src/Planning/ClobTokens.antt =====
-- `is_probably_clob_token` of support.py, over a text's code points.
use oddsfox_pipeline.Base.{
  ℕ, String, List, [], ◌∷◌, Bool, true, false, not, ◌&&◌, ◌||◌, leb, ◌==◌, if◌then◌else◌, is_empty,
  length, codes, starts_with,
}

abbrev pub min_clob_token_hex_length : ℕ
min_clob_token_hex_length = 30

abbrev pub between : ℕ → ℕ → ℕ → Bool
between low high n = leb low n && leb n high

abbrev pub is_digit : ℕ → Bool
is_digit n = between 48 57 n

-- `[0-9A-Za-z_]`
abbrev pub is_word : ℕ → Bool
is_word n = is_digit n || between 65 90 n || between 97 122 n || n == 95

-- `[0-9a-fA-F]`
abbrev pub is_hex : ℕ → Bool
is_hex n = is_digit n || between 97 102 n || between 65 70 n

abbrev pub all_of : (ℕ → Bool) → List ℕ → Bool
all_of p [] = true
all_of p (c ∷ cs) = p c && all_of p cs

abbrev pub any_of : (ℕ → Bool) → List ℕ → Bool
any_of p [] = false
any_of p (c ∷ cs) = p c || any_of p cs

-- `isdigit` is only asked of word characters, where it holds of the ASCII digits.
abbrev pub is_clob_text : List ℕ → Bool
is_clob_text cs =
    not (is_empty cs)
    && not (
        starts_with (codes "open_token") cs
        || starts_with (codes "closed_token") cs
        || starts_with (codes "closed_no_data") cs)
    && all_of is_word cs
    && (if all_of is_hex cs
        then leb min_clob_token_hex_length (length cs)
        else any_of (λ c. is_digit c || c == 95) cs)

unfoldable pub is_probably_clob_token : String → Bool
is_probably_clob_token token_id = is_clob_text (codes token_id)
