-- ===== src/Definitions/Parse.antt =====
-- internal/definitions/definitions.go: from the bytes of a file to a reviewed registry (`Parse`,
-- `Load`, `LoadSource`). encoding/json, utf8 and the disk are parameters.
use romd_dat_catalogs.Prelude.{
  ℕ, String, Bool, true, false, not, ◌&&◌, ◌||◌, Option, none, some, List, [], ◌∷◌, ltb, length,
  if◌then◌else◌, ◌==◌, string_eq, nat_eq, Result, ok, err, ◌>>=◌, ◌>>◌, refuse_if,
}
use romd_dat_catalogs.Prelude.Dict.{Dict, lookup}
use romd_dat_catalogs.Prelude.Text.{codes}
use romd_dat_catalogs.Publisher.{Bytes, Stream, Read, read, too_big, broken, read_bounded}
use romd_dat_catalogs.Definitions.{Registry}
use romd_dat_catalogs.Definitions.Validate.{validate}
use romd_dat_catalogs.Definitions.Unique.{Token, unique_value}

abbrev pub max_bytes : ℕ
max_bytes = 1048576

-- What encoding/json and utf8 make of some bytes: the decoder's tokens, and whether they end with
-- the document rather than with an error, and the values that `Unmarshal` reads.
pub record Json : Type 0 where
  pub tokens : Bytes → List Token
  pub ends : Bytes → Bool
  pub is_utf8 : Bytes → Bool
  pub object : Bytes → Result (Dict Bytes)
  pub version : Bytes → Result ℕ
  pub registry : Bytes → Result Registry
  pub system_keys : Bytes → Result (ℕ × List String)
  pub ends_once : Bytes → Bool
  pub to_lower : String → String

abbrev pub bounds_error : String
bounds_error = "definitions must be bounded UTF-8 JSON"

abbrev is_space : ℕ → Bool
is_space c = c == 9 || c == 10 || c == 13 || c == 32

abbrev trim_left : Bytes → Bytes
trim_left [] = []
trim_left (c ∷ cs) = let rest = trim_left cs in if is_space c then rest else c ∷ cs

abbrev trim_right : Bytes → Bytes
trim_right [] = []
trim_right (c ∷ cs) =
    let rest = trim_right cs in if is_space c && length rest == 0 then [] else c ∷ rest

-- `bytes.Equal`
abbrev pub equal : Bytes → Bytes → Bool
equal [] [] = true
equal [] (d ∷ ds) = false
equal (c ∷ cs) [] = false
equal (c ∷ cs) (d ∷ ds) = c == d && equal cs ds

-- `bytes.Equal(bytes.TrimSpace(v), []byte("null"))`, of a JSON value
unfoldable pub is_null : Bytes → Bool
is_null v = equal (trim_right (trim_left v)) (codes "null")

abbrev is_missing : Option Bytes → Bool
is_missing none = true
is_missing (some v) = is_null v

unfoldable pub check_required : Dict Bytes → List String → Result (Unit {0})
check_required out [] = ok tt
check_required out (key ∷ keys) = do
  refuse_if (is_missing (lookup key out)) "required definition field %s"
  check_required out keys

-- `object`
unfoldable pub object : Json → Bytes → List String → Result (Dict Bytes)
unfolding check_required
object json b keys = do
  out ← json.object b
  refuse_if (not (length out == length keys)) "missing or unknown definition field"
  check_required out keys
  ok out

abbrev raw_of : String → Dict Bytes → Bytes
raw_of key d = elim (lookup key d) [ none ↦ [] | some v ↦ v ]

unfoldable pub keys_of : ℕ → List String
keys_of version =
    if version == 3
    then "schemaVersion" ∷ "catalogs" ∷ []
    else if version == 2
    then "schemaVersion" ∷ "systems" ∷ "catalogs" ∷ "companies" ∷ "regions" ∷ "languages" ∷ []
    else "schemaVersion" ∷ "systems" ∷ "catalogs" ∷ "companies" ∷ []

unfoldable pub sections_of : ℕ → List String
sections_of version =
    if version == 3
    then "catalogs" ∷ []
    else if version == 2
    then "systems" ∷ "catalogs" ∷ "companies" ∷ "regions" ∷ "languages" ∷ []
    else "systems" ∷ "catalogs" ∷ "companies" ∷ []

abbrev entry_keys : ℕ → String → List String
entry_keys version section =
    if section == "systems"
    then (if version == 2
        then "name" ∷ "manufacturerIds" ∷ "aliases" ∷ "providerMappings" ∷ []
        else "name" ∷ "manufacturerIds" ∷ [])
    else if section == "regions"
    then "name" ∷ "sortOrder" ∷ "aliases" ∷ []
    else if section == "languages"
    then "name" ∷ "code" ∷ "sortOrder" ∷ "aliases" ∷ []
    else if section == "companies"
    then "name" ∷ "aliases" ∷ []
    else "systemId" ∷ "provider" ∷ "providerSystemId" ∷ "representation" ∷ "expectedName"
      ∷ "validation" ∷ []

abbrev limit_keys : List String
limit_keys = "minimumGames" ∷ "minimumRoms" ∷ []

-- A catalog's entry has its limits beside its fields.
abbrev check_limits : Json → String → Dict Bytes → Result (Dict Bytes)
check_limits json section fields =
    if section == "catalogs" then object json (raw_of "validation" fields) limit_keys else ok fields

unfoldable pub check_entry : Json → ℕ → String → Bytes → Result (Dict Bytes)
unfolding object
check_entry json version section entry =
    object json entry (entry_keys version section) >>= check_limits json section

unfoldable pub check_entries : Json → ℕ → String → Dict Bytes → Result (Unit {0})
unfolding check_entry
check_entries json version section [] = ok tt
check_entries json version section ((_, entry) ∷ rest) =
    check_entry json version section entry >> check_entries json version section rest

unfoldable pub check_sections : Json → ℕ → Dict Bytes → List String → Result (Unit {0})
unfolding check_entries
check_sections json version raw [] = ok tt
check_sections json version raw (section ∷ rest) = do
  entries ← json.object (raw_of section raw)
  check_entries json version section entries
  check_sections json version raw rest

abbrev trailing : List Token → Bool → Bool
trailing [] ends = not ends
trailing (t ∷ ts) ends = true

-- The document by its tokens: bounded, and no object in it names a key twice.
unfoldable pub check_tokens : Json → Bytes → Result (Unit {0})
unfolding unique_value
check_tokens json b = do
  refuse_if (ltb max_bytes (length b) || not (json.is_utf8 b)) bounds_error
  left ← unique_value (json.tokens b)
  refuse_if (trailing left (json.ends b)) "trailing definitions data"
  ok tt

unfoldable pub check_shape : Json → Bytes → Result (Unit {0})
unfolding check_sections keys_of sections_of object
check_shape json b = do
  first ← json.object b
  version ← json.version (raw_of "schemaVersion" first)
  raw ← object json b (keys_of version)
  check_sections json version raw (sections_of version)

-- `Parse`
unfoldable pub parse : Json → Bytes → Result Registry
unfolding check_tokens check_shape
parse json b = do
  check_tokens json b
  check_shape json b
  r ← json.registry b
  validate json.to_lower r
  ok r

-- What the disk gives of a directory: its names, and a file's stream.
pub record Folder : Type 0 where
  pub entries : Result (List String)
  pub open_file : String → Result Stream

unfoldable pub bounded : Json → Read → Result Bytes
bounded json too_big = err bounds_error
bounded json broken = err "unexpected EOF"
bounded json (read b) = if json.is_utf8 b then ok b else err bounds_error

-- `readBounded`
unfoldable pub read_file : Json → Folder → String → Result Bytes
unfolding bounded
read_file json folder path = do f ← folder.open_file path; bounded json (read_bounded f max_bytes)

-- `Load`
unfoldable pub load : Json → Folder → String → Result Registry
unfolding read_file parse
load json folder path = read_file json folder path >>= parse json
