-- ===== src/Definitions/Unique.antt =====
-- internal/definitions/definitions.go: `uniqueValue`, which reads the tokens of a JSON decoder
-- before any of them is decoded. The decoder, which sees to the brackets, is a parameter: its
-- tokens.
pub mod Json
pub mod Decides
use romd_dat_catalogs.Prelude.{
  ℕ, zero, suc, String, Bool, true, false, Option, List, [], ◌∷◌, ltb, length, if◌then◌else◌,
  contains, string_eq, Result, ok, err, ◌>>=◌,
}

-- A key stands as a text, as a text value does.
pub data Token : Type 0 where
  open_object : Token
  close_object : Token
  open_array : Token
  close_array : Token
  text : String → Token
  scalar : Token

abbrev pub max_depth : ℕ
max_depth = 32

-- Where the reading stands: before a value, or in the loop over an object, whose keys so far are
-- `seen`, or over an array.
pub data Place : Type 0 where
  value : Place
  members : (seen : List String) → Place
  items : Place

abbrev pub Walk : Type 0
Walk = Place → ℕ → List Token → Result (List Token)

abbrev pub eof : String
eof = "EOF"

abbrev pub duplicate : String
duplicate = "duplicate definition key"

-- A step of the reading; `go` is the reading itself.
unfoldable pub read_value : Walk → ℕ → List Token → Result (List Token)
read_value go depth [] = err eof
read_value go depth (open_object ∷ ts) = go (members []) depth ts
read_value go depth (open_array ∷ ts) = go items depth ts
read_value go depth (close_object ∷ ts) = ok ts
read_value go depth (close_array ∷ ts) = ok ts
read_value go depth (text s ∷ ts) = ok ts
read_value go depth (scalar ∷ ts) = ok ts

unfoldable pub read_named :
    Walk → List String → ℕ → Bool → String → List Token → Result (List Token)
read_named go seen depth true name ts = err duplicate
read_named go seen depth false name ts =
    go value (suc depth) ts >>= go (members (name ∷ seen)) depth

unfoldable pub read_member : Walk → List String → ℕ → List Token → Result (List Token)
unfolding read_named
read_member go seen depth [] = err eof
read_member go seen depth (close_object ∷ ts) = ok ts
read_member go seen depth (close_array ∷ ts) = ok ts
read_member go seen depth (text name ∷ ts) = read_named go seen depth (contains seen name) name ts
read_member go seen depth (open_object ∷ ts) = err duplicate
read_member go seen depth (open_array ∷ ts) = err duplicate
read_member go seen depth (scalar ∷ ts) = err duplicate

unfoldable pub read_item : Walk → ℕ → List Token → Result (List Token)
read_item go depth [] = err eof
read_item go depth (close_object ∷ ts) = ok ts
read_item go depth (close_array ∷ ts) = ok ts
read_item go depth (t ∷ ts) = go value (suc depth) (t ∷ ts) >>= go items depth

unfoldable pub step : Walk → Walk
unfolding read_value read_member read_item
step go value depth ts =
    if ltb max_depth depth then err "definitions nesting limit" else read_value go depth ts
step go (members seen) depth ts = read_member go seen depth ts
step go items depth ts = read_item go depth ts

unfoldable pub walk : ℕ → Walk
unfolding step
walk zero place depth ts = err "out of fuel"
walk (suc fuel) place depth ts = step (walk fuel) place depth ts

-- `uniqueValue` at the start of a document: what is left of the tokens. A unit of fuel for each of
-- them is enough.
unfoldable pub unique_value : List Token → Result (List Token)
unfolding walk
unique_value ts = walk (length ts) value 0 ts
