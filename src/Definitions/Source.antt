-- ===== src/Definitions/Source.antt =====
-- internal/definitions/definitions.go: `LoadSource`, the definitions that the publisher owns.
pub mod Known
use romd_dat_catalogs.Prelude.{
  ℕ, String, ◌<>◌, Bool, true, false, not, ◌&&◌, ◌||◌, List, [], ◌∷◌, ◌++◌, length, ◌==◌, contains,
  string_eq, nat_eq, Result, ok, err, ◌>>=◌, ◌>>◌, refuse_if,
}
use mathlib.Core.List.{reverse}
use romd_dat_catalogs.Prelude.Dict.{Dict}
use romd_dat_catalogs.Prelude.Text.{codes, has_prefix}
use romd_dat_catalogs.Prelude.Regex.{match_string}
use romd_dat_catalogs.Publisher.{Bytes}
use romd_dat_catalogs.Definitions.{Registry, Catalog, id_pattern}
use romd_dat_catalogs.Definitions.Unique.{unique_value, Token}
use romd_dat_catalogs.Definitions.Validate.{validate}
use romd_dat_catalogs.Definitions.Parse.{Json, Folder, read_file, parse, check_tokens, check_shape}

abbrev is_json : String → Bool
is_json name = has_prefix (reverse (codes name)) (reverse (codes ".json"))

unfoldable pub check_names : List String → Result (Unit {0})
unfolding has_prefix
check_names [] = ok tt
check_names (name ∷ rest) = do
  refuse_if (is_json name && not (name == "catalogs.json") && not (name == "system-keys.json"))
      "unknown publisher definition %q"
  check_names rest

-- The loop over the keys, with `known`.
unfoldable pub check_keys : List String → List String → Result (List String)
check_keys known [] = ok known
check_keys known (key ∷ keys) = do
  refuse_if (not (match_string id_pattern key) || contains known key)
      "invalid or duplicate ROMD system key"
  check_keys (key ∷ known) keys

unfoldable pub known_keys : Json → Bytes → Result (List String)
unfolding check_keys unique_value
known_keys json raw = do
  unique_value (json.tokens raw)
  (version, keys) ← json.system_keys raw
  refuse_if (not (json.ends_once raw)) "trailing system-key data"
  refuse_if (not (version == 1) || length keys == 0) "invalid ROMD system-key export"
  check_keys [] keys

abbrev assembled : Bytes → Bytes
assembled raw = codes "{\"schemaVersion\":3,\"catalogs\":" ++ (raw ++ (b'}' ∷ []))

unfoldable pub check_known : List String → Dict Catalog → Result (Unit {0})
check_known known [] = ok tt
check_known known ((_, c) ∷ rest) = do
  refuse_if (not (contains known c.system_id)) "unknown ROMD system %q"
  check_known known rest

unfoldable pub parse_known : Json → List String → Bytes → Result Registry
unfolding parse check_known
parse_known json known raw = do
  registry ← parse json (assembled raw)
  check_known known registry.catalogs
  ok registry

-- `LoadSource`
unfoldable pub load_source : Json → Folder → Result Registry
unfolding check_names read_file known_keys parse_known
load_source json folder = do
  entries ← folder.entries
  check_names entries
  raw ← read_file json folder "system-keys.json"
  known ← known_keys json raw
  raw ← read_file json folder "catalogs.json"
  parse_known json known raw
