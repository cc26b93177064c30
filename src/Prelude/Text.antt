-- ===== src/Prelude/Text.antt =====
-- Texts by their code points: what the source uses of `strings`, `len` and `fmt`.
use Prim.Native.Nat.{ℕ, zero, suc, ◌/◌, ◌%◌}
use Prim.Native.Char.{code}
use Prim.Native.String.{String, len, ◌++◌ as ◌<>◌}
use mathlib.Core.Bool.{Bool, true, false, ◌&&◌, ◌||◌, not}
use mathlib.Core.List.{List, [], ◌∷◌, reverse}
use romd_dat_catalogs.Prelude.Equality.{◌==◌, nat_eq, ltb, leb, if◌then◌else◌}
use romd_dat_catalogs.Prelude.Lists.{all}

abbrev pub codes : String → List ℕ
codes String.[] = []
codes (String.◌∷◌ c s) = code c ∷ codes s

-- `len(s)`: the bytes of the text.
abbrev pub bytes : String → ℕ
bytes s = len s

-- Lexicographic order by code points, which for UTF-8 is the order of the bytes.
unfoldable pub codes_lt : List ℕ → List ℕ → Bool
codes_lt [] [] = false
codes_lt [] (y ∷ ys) = true
codes_lt (x ∷ xs) [] = false
codes_lt (x ∷ xs) (y ∷ ys) = ltb x y || (x == y && codes_lt xs ys)

unfoldable pub text_lt : String → String → Bool
unfolding codes_lt nat_eq
text_lt s t = codes_lt (codes s) (codes t)

-- `strings.HasPrefix`
unfoldable pub has_prefix : List ℕ → List ℕ → Bool
unfolding nat_eq
has_prefix xs [] = true
has_prefix [] (y ∷ ys) = false
has_prefix (x ∷ xs) (y ∷ ys) = x == y && has_prefix xs ys

-- `strings.Contains`
unfoldable pub has_part : List ℕ → List ℕ → Bool
unfolding has_prefix
has_part [] ys = has_prefix [] ys
has_part (x ∷ xs) ys = has_prefix (x ∷ xs) ys || has_part xs ys

-- `unicode.IsSpace`, on all of Unicode.
unfoldable pub is_space : ℕ → Bool
unfolding nat_eq
is_space c =
    (leb 9 c && leb c 13)
    || c == 32
    || c == 0x85
    || c == 0xA0
    || c == 0x1680
    || (leb 0x2000 c && leb c 0x200A)
    || c == 0x2028
    || c == 0x2029
    || c == 0x202F
    || c == 0x205F
    || c == 0x3000

-- `unicode.IsControl`
unfoldable pub is_control : ℕ → Bool
is_control c = ltb c 32 || (leb 127 c && ltb c 160)

-- `strings.TrimSpace(s) == ""`
unfoldable pub is_blank : String → Bool
unfolding is_space
is_blank s = all is_space (codes s)

starts_spaced : List ℕ → Bool
unfolding is_space
starts_spaced [] = false
starts_spaced (c ∷ cs) = is_space c

-- `strings.TrimSpace(s) == s`
unfoldable pub is_trimmed : String → Bool
unfolding starts_spaced
is_trimmed s = not (starts_spaced (codes s)) && not (starts_spaced (reverse (codes s)))

abbrev digit_text : ℕ → String
digit_text n =
    if n == 0
    then "0"
    else if n == 1
    then "1"
    else if n == 2
    then "2"
    else if n == 3
    then "3"
    else if n == 4
    then "4"
    else if n == 5
    then "5"
    else if n == 6
    then "6"
    else if n == 7
    then "7"
    else if n == 8
    then "8"
    else "9"

-- The decimal digits of a 64-bit number, which are 20 at most.
unfoldable pub digits_from : ℕ → ℕ → String → String
unfolding nat_eq
digits_from zero n tail = tail
digits_from (suc f) n tail =
    let digit = digit_text (n % 10) <> tail in
    let more = digits_from f (n / 10) digit in if ltb n 10 then digit else more

-- `%d`
unfoldable pub decimal : ℕ → String
unfolding digits_from
decimal n = digits_from 20 n ""

abbrev is_empty : String → Bool
is_empty String.[] = true
is_empty (String.◌∷◌ c s) = false

-- `strings.TrimRight(s, "/")`
unfoldable pub trim_right_slash : String → String
unfolding nat_eq
trim_right_slash String.[] = ""
trim_right_slash (String.◌∷◌ c s) =
    let rest = trim_right_slash s in
    if code c == b'/' && is_empty rest then "" else String.◌∷◌ c rest
