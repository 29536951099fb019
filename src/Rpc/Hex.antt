-- ===== src/Rpc/Hex.antt =====
-- `_hex_quantity`, `_hex32` and `_data_words` of polygon_rpc.py, on the text `str(value).casefold()` of a
-- field as code points, and Python's `hex`.
use Prim.Native.Char.{Char, char}
use oddsfox_pipeline.Base.{
  String, ◌≡◌, refl, ℕ, zero, suc, ◌+◌, ◌*◌, ◌-◌, ◌/◌, ◌%◌, List, [], ◌∷◌, Option, none, some, Bool,
  true, false, not, ◌&&◌, ◌||◌, ltb, leb, ◌==◌, if◌then◌else◌, length, take, drop,
}

-- `[0-9a-f]`
abbrev pub is_hex_digit : ℕ → Bool
is_hex_digit c = (leb 48 c && leb c 57) || (leb 97 c && leb c 102)

abbrev pub digit_value : ℕ → ℕ
digit_value c = if leb c 57 then c - 48 else c - 87

unfoldable pub all_hex : List ℕ → Bool
all_hex [] = true
all_hex (c ∷ cs) = is_hex_digit c && all_hex cs

-- `int(text, 16)`, from the digits read so far.
unfoldable pub hex_value : ℕ → List ℕ → ℕ
hex_value n [] = n
hex_value n (c ∷ cs) = hex_value (n * 16 + digit_value c) cs

-- `0|[1-9a-f][0-9a-f]*`
abbrev pub is_canonical : List ℕ → Bool
is_canonical [] = false
is_canonical (c ∷ []) = is_hex_digit c
is_canonical (c ∷ d ∷ cs) = is_hex_digit c && not (c == 48) && all_hex (d ∷ cs)

-- The text behind `0x`, if it starts so.
abbrev pub behind_0x : List ℕ → Option (List ℕ)
behind_0x (a ∷ b ∷ cs) = if a == 48 && b == 120 then some cs else none
behind_0x _ = none

unfoldable pub canonical_value : Option (List ℕ) → Option ℕ
canonical_value none = none
canonical_value (some digits) = if is_canonical digits then some (hex_value 0 digits) else none

-- `none` where `_hex_quantity` raises.
unfoldable pub hex_quantity : List ℕ → Option ℕ
unfolding canonical_value all_hex hex_value
hex_quantity text = canonical_value (behind_0x text)

unfoldable pub is_hex_of : ℕ → Option (List ℕ) → Bool
is_hex_of size none = false
is_hex_of size (some digits) = length digits == size && all_hex digits

-- `0x[0-9a-f]{64}` and `0x[0-9a-f]{40}`
unfoldable pub is_hex32 : List ℕ → Bool
unfolding is_hex_of
is_hex32 text = is_hex_of 64 (behind_0x text)

unfoldable pub is_address : List ℕ → Bool
unfolding is_hex_of
is_address text = is_hex_of 40 (behind_0x text)

unfoldable pub words : ℕ → List ℕ → List ℕ
unfolding hex_value
words zero payload = []
words (suc expected) payload = hex_value 0 (take 64 payload) ∷ words expected (drop 64 payload)

unfoldable pub words_of : ℕ → Option (List ℕ) → Option (List ℕ)
unfolding words
words_of expected none = none
words_of expected (some payload) =
    if length payload == 64 * expected && all_hex payload
    then some (words expected payload)
    else none

unfoldable pub data_words : List ℕ → ℕ → Option (List ℕ)
unfolding words_of
data_words text expected = words_of expected (behind_0x text)

abbrev pub digit_char : ℕ → Char
digit_char d =
    if d == 0
    then char 48 tt
    else if d == 1
    then char 49 tt
    else if d == 2
    then char 50 tt
    else if d == 3
    then char 51 tt
    else if d == 4
    then char 52 tt
    else if d == 5
    then char 53 tt
    else if d == 6
    then char 54 tt
    else if d == 7
    then char 55 tt
    else if d == 8
    then char 56 tt
    else if d == 9
    then char 57 tt
    else if d == 10
    then char 97 tt
    else if d == 11
    then char 98 tt
    else if d == 12
    then char 99 tt
    else if d == 13
    then char 100 tt
    else if d == 14
    then char 101 tt
    else char 102 tt

-- The digits of `n`, ahead of the text `rest`; `n` bounds their number.
unfoldable pub hex_digits : ℕ → ℕ → String → String
hex_digits zero n rest = String.◌∷◌ (digit_char (n % 16)) rest
hex_digits (suc fuel) n rest = elim (ltb n 16) [
  | true ↦ String.◌∷◌ (digit_char (n % 16)) rest
  | false ↦ hex_digits fuel (n / 16) (String.◌∷◌ (digit_char (n % 16)) rest)
]

-- `hex(n)`
unfoldable pub hex : ℕ → String
unfolding hex_digits
hex n = String.◌∷◌ (char 48 tt) (String.◌∷◌ (char 120 tt) (hex_digits n n ""))

-- `str(n)`, ahead of the text `rest`.
unfoldable pub decimal_digits : ℕ → ℕ → String → String
decimal_digits zero n rest = String.◌∷◌ (digit_char (n % 10)) rest
decimal_digits (suc fuel) n rest = elim (ltb n 10) [
  | true ↦ String.◌∷◌ (digit_char n) rest
  | false ↦ decimal_digits fuel (n / 10) (String.◌∷◌ (digit_char (n % 10)) rest)
]

unfoldable pub decimal : ℕ → String
unfolding decimal_digits
decimal n = decimal_digits n n ""

decimal_test : decimal 1048 ≡ "1048"
unfolding decimal
decimal_test = refl

hex_test : hex 65000 ≡ "0xfde8"
unfolding hex
hex_test = refl
