-- ===== src/Publisher/Document.antt =====
-- internal/publisher/document.go: the check of one DAT document. The archive reader and the XML
-- tokenizer are parameters.
pub mod Reading
pub mod Sound
pub mod Complete
use mathlib.Core.List.{reverse}
use romd_dat_catalogs.Prelude.{
  ℕ, zero, suc, ◌+◌, ◌%◌, String, ◌<>◌, Option, none, some, List, [], ◌∷◌,
}
use romd_dat_catalogs.Prelude.{◌++◌, map}
use romd_dat_catalogs.Prelude.{Bool, true, false, not, ◌&&◌, ◌||◌, if◌then◌else◌, leb, ltb, ◌==◌}
use romd_dat_catalogs.Prelude.{contains, string_eq, nat_eq, length, any, Eq}
use romd_dat_catalogs.Prelude.{Result, ok, err, ◌>>=◌, ◌>>◌, refuse_if}
use romd_dat_catalogs.Prelude.Text.{codes, has_part, has_prefix, is_blank}
use romd_dat_catalogs.Publisher.{
  Bytes, Counts, Stream, Read, read, too_big, broken, read_bounded, max_input, max_document,
}

pub record XmlName : Type 0 where
  pub space : String
  pub local : String

pub XmlName-discrete : Discrete XmlName
XmlName-discrete = hlevel string_eq.dec

instance abbrev pub xml_name_eq : Eq XmlName
xml_name_eq = record { dec = XmlName-discrete }

pub record Attribute : Type 0 where
  pub name : XmlName
  pub value : String

pub data Token : Type 0 where
  directive : Bytes → Token
  start_element : XmlName → List Attribute → Token
  end_element : Token
  char_data : String → Token
  other : Token

-- What `d.Token()` returns, call by call: the tokens, then the end or a syntax error.
pub record Tokens : Type 0 where
  pub tokens : List Token
  pub fails : Bool

-- One file of the archive. `content` is `none` where it cannot be opened.
pub record ZipFile : Type 0 where
  pub name : String
  pub is_regular : Bool
  pub flags : ℕ
  pub uncompressed_size : ℕ
  pub content : Option Stream

-- `zip.NewReader` (`none` if the bytes are no archive) and the tokenizer of encoding/xml.
pub record Formats : Type 0 where
  pub unzip : Bytes → Option (List ZipFile)
  pub xml_tokens : Bytes → Tokens

-- The variables of the token loop; the innermost open element stands first on the stack.
pub record Walk : Type 0 where
  pub stack : List String
  pub headers : ℕ
  pub roots : ℕ
  pub name : String
  pub names : List String
  pub counts : Counts

abbrev pub start_walk : Walk
start_walk = record {
  stack = [];
  headers = 0;
  roots = 0;
  name = "";
  names = [];
  counts = record { games = 0; roms = 0 };
}

pub data Place : Type 0 where
  header game rom elsewhere : Place

-- Where an element stands, from the stack that has it on top.
unfoldable pub place : List String → Place
place (x ∷ _ ∷ []) = if x == "header" then header else if x == "game" then game else elsewhere
place (y ∷ x ∷ _ ∷ []) = if x == "game" && y == "rom" then rom else elsewhere
place _ = elsewhere

unfoldable pub in_name : List String → Bool
in_name (y ∷ x ∷ _ ∷ []) = x == "header" && y == "name"
in_name _ = false

-- A name stands twice among the attributes.
unfoldable pub repeats {ℓ} : {A : Type ℓ} ⦃e : Eq A⦄ → List A → Bool
repeats [] = false
repeats (x ∷ xs) = contains xs x || repeats xs

-- The last `name` attribute with no namespace, or "".
unfoldable pub game_name : String → List Attribute → String
game_name found [] = found
game_name found (a ∷ rest) =
    game_name (if a.name.local == "name" && a.name.space == "" then a.value else found) rest

-- The second `switch` of the loop.
unfoldable pub enter : Place → List Attribute → Walk → Result Walk
unfolding game_name
enter header attrs w = ok (record w { headers = w.headers + 1 })
enter game attrs w = do
  let name = game_name "" attrs
  refuse_if (name == "" || contains w.names name) "invalid_game_identity"
  ok (record w { names = name ∷ w.names; counts = record w.counts { games = w.counts.games + 1 } })
enter rom attrs w = ok (record w { counts = record w.counts { roms = w.counts.roms + 1 } })
enter elsewhere attrs w = ok w

unfoldable pub open_root : String → Walk → Result Walk
open_root local w =
    if length w.stack == 1
    then (do
      refuse_if (not (w.roots + 1 == 1) || not (local == "datafile")) "invalid_dat"
      ok (record w { roots = w.roots + 1 }))
    else ok w

-- One token. An end tag with no open element would be a panic; the tokenizer refuses such a text.
unfoldable pub visit : Token → Walk → Result Walk
unfolding repeats place in_name
visit (directive d) w = do refuse_if (has_part d (codes "ENTITY")) "invalid_dat"; ok w
visit (start_element n attrs) w = do
  refuse_if (leb 128 (length w.stack) || not (n.space == "")) "invalid_dat"
  refuse_if (repeats (map (λ a. a.name) attrs)) "invalid_dat"
  opened ← open_root n.local (record w { stack = n.local ∷ w.stack })
  enter (place opened.stack) attrs opened
visit end_element w = elim w.stack [
  | [] ↦ err "panic: slice bounds out of range"
  | x ∷ rest ↦ ok (record w { stack = rest })
]
visit (char_data t) w = do
  refuse_if (length w.stack == 0 && not (is_blank t)) "invalid_dat"
  ok (if in_name w.stack then record w { name = w.name <> t } else w)
visit other w = ok w

unfoldable pub walk : List Token → Walk → Result Walk
walk [] w = ok w
walk (t ∷ ts) w = do w' ← visit t w; walk ts w'

-- The loop and the checks behind it.
unfoldable pub scan : Tokens → String → Result Counts
unfolding walk
scan ts expected = do
  w ← walk ts.tokens start_walk
  refuse_if ts.fails "invalid_dat"
  refuse_if (not (w.roots == 1) || not (w.headers == 1) || not (length w.stack == 0)) "invalid_dat"
  refuse_if (not (w.name == expected)) "identity_mismatch"
  refuse_if (w.counts.games == 0) "empty_dat"
  ok w.counts

-- `strings.Split(s, "/")`, the current part in `part`, last code point first.
unfoldable pub split_slash : List ℕ → List ℕ → List (List ℕ)
split_slash part [] = reverse part ∷ []
split_slash part (c ∷ cs) =
    if c == b'/' then reverse part ∷ split_slash [] cs else split_slash (c ∷ part) cs

-- `path.Ext`: from the last dot of the last part on.
unfoldable pub ext : List ℕ → List ℕ → List ℕ
ext found [] = found
ext found (c ∷ cs) = ext (if c == b'.' then c ∷ cs else if c == b'/' then [] else found) cs

abbrev pub lower_ascii : ℕ → ℕ
lower_ascii c = if leb b'A' c && leb c b'Z' then c + 32 else c

unfoldable pub same_codes : List ℕ → List ℕ → Bool
same_codes [] [] = true
same_codes (x ∷ xs) (y ∷ ys) = x == y && same_codes xs ys
same_codes _ _ = false

-- The two checks of the archived file's name, mode and flags.
unfoldable pub is_unsafe : ZipFile → Bool
unfolding split_slash ext same_codes has_prefix
is_unsafe f =
    not f.is_regular
    || has_prefix (codes f.name) (codes "/")
    || has_part (codes f.name) (codes "\\")
    || not (same_codes (map lower_ascii (ext [] (codes f.name))) (codes ".dat"))
    || f.flags % 2 == 1
    || any (λ part. same_codes part (codes "..")) (split_slash [] (codes f.name))

abbrev pub candidate : Read → Result Bytes
candidate (read b) = ok b
candidate too_big = err "size_limit"
candidate broken = err "invalid_dat"

-- The archive part of `Document`: the one file's bytes, or the input itself.
unfoldable pub extract : Option (List ZipFile) → Bytes → Result Bytes
unfolding is_unsafe read_bounded
extract none raw = ok raw
extract (some []) raw = err "ambiguous_archive"
extract (some (f ∷ [])) raw = do
  refuse_if (is_unsafe f) "unsafe_archive"
  refuse_if (ltb max_document f.uncompressed_size) "size_limit"
  elim f.content [ none ↦ err "invalid_dat" | some s ↦ candidate (read_bounded s max_document) ]
extract (some (f ∷ g ∷ fs)) raw = err "ambiguous_archive"

-- `bytes.TrimPrefix(raw, BOM)`
unfoldable pub trim_mark : Bytes → Bytes
trim_mark (a ∷ b ∷ c ∷ rest) =
    if a == 0xef && b == 0xbb && c == 0xbf then rest else a ∷ b ∷ c ∷ rest
trim_mark raw = raw

-- `Document`
unfoldable pub document : Formats → Bytes → String → Result (Bytes × Counts)
unfolding extract scan trim_mark
document formats raw expected = do
  refuse_if (ltb max_input (length raw)) "size_limit"
  raw' ← extract (formats.unzip raw) raw
  refuse_if (ltb max_document (length raw')) "size_limit"
  counts ← scan (formats.xml_tokens (trim_mark raw')) expected
  ok (raw', counts)
