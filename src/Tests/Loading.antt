-- ===== src/Tests/Loading.antt =====
-- The loading of definitions at concrete files.
use romd_dat_catalogs.Prelude.{
  zero, suc, ◌≤◌, ◌≡◌, refl, String, true, false, none, List, [], ◌∷◌, All, ok, string_eq, nat_eq,
  refuse_if, contains,
}
use romd_dat_catalogs.Prelude.Dict.{Dict, lookup}
use romd_dat_catalogs.Prelude.Text.{is_trimmed, is_control, has_prefix}
use romd_dat_catalogs.Prelude.Regex.{match_string}
use romd_dat_catalogs.Publisher.{Bytes, bytes_eq, read_bounded}
use romd_dat_catalogs.Definitions.{
  Catalog, Registry, id_pattern, label, valid_provider, bad_catalog, validate_catalogs,
}
use romd_dat_catalogs.Definitions.Validate.{validate, validate_published}
use romd_dat_catalogs.Definitions.Unique.{scalar, unique_value, walk}
use romd_dat_catalogs.Definitions.Unique.Json.{
  Json as Tree, plain, object, end, member, tokens, is_unique,
}
use romd_dat_catalogs.Definitions.Unique.Decides.{Decides, unique_value-Decides}
use romd_dat_catalogs.Definitions.Parse as Parse
use romd_dat_catalogs.Definitions.Parse.{
  Json, Folder, max_bytes, parse, check_tokens, check_shape, check_sections, check_entries,
  check_entry, check_required, keys_of, sections_of, is_null, read_file, bounded,
}
use romd_dat_catalogs.Definitions.Source.{
  load_source, check_names, check_keys, known_keys, check_known, parse_known,
}
use romd_dat_catalogs.Definitions.Source.Known.{IsExported, parse-IsUnique, load_source-IsKnown}

abbrev saturn : Catalog
saturn = record {
  system_id = "saturn";
  provider = "redump";
  provider_system_id = "ss";
  representation = "discs";
  expected_name = "Sega - Saturn";
  minimum_games = 100;
  minimum_roms = 100;
}

abbrev pub loaded : Registry
loaded = record {
  regions = none;
  languages = none;
  companies = [];
  schema_version = 3;
  systems = [];
  catalogs = ("redump/saturn/discs", saturn) ∷ [];
}

abbrev twice : Tree
twice =
    object (member "a" plain (member "b" (object (member "a" plain end)) (member "a" plain end)))

unique_value-Decides_example :
    Decides (is_unique 0 twice) (scalar ∷ []) (unique_value (tokens twice (scalar ∷ [])))
unique_value-Decides_example = unique_value-Decides twice (scalar ∷ [])

abbrev once : Tree
once = object (member "schemaVersion" plain (member "catalogs" (object end) end))

abbrev fields : List String → Dict Bytes
fields [] = []
fields (k ∷ ks) = (k, 3 ∷ []) ∷ fields ks

abbrev parts : Bytes → Dict Bytes
parts [] = []
parts (zero ∷ l) = []
parts (suc zero ∷ l) = ("redump/saturn/discs", 2 ∷ []) ∷ []
parts (suc (suc zero) ∷ l) = fields (
    "systemId" ∷ "provider" ∷ "providerSystemId" ∷ "representation" ∷ "expectedName" ∷ "validation"
    ∷ [])
parts (suc (suc (suc zero)) ∷ l) = fields ("minimumGames" ∷ "minimumRoms" ∷ [])
parts (suc (suc (suc (suc n))) ∷ l) = ("schemaVersion", 0 ∷ []) ∷ ("catalogs", 1 ∷ []) ∷ []

abbrev pub json : Json
json = record {
  tokens = λ b. tokens once [];
  ends = λ b. true;
  is_utf8 = λ b. true;
  object = λ b. ok (parts b);
  version = λ b. ok 3;
  registry = λ b. ok loaded;
  system_keys = λ b. ok (1, "saturn" ∷ "psx" ∷ []);
  ends_once = λ b. true;
  to_lower = λ s. s;
}

parse_loaded : parse json (9 ∷ []) ≡ ok loaded
unfolding parse check_tokens check_shape check_sections check_entries check_entry check_required
    keys_of sections_of is_null Parse.object unique_value walk tokens validate validate_published
    validate_catalogs refuse_if string_eq nat_eq id_pattern label bad_catalog valid_provider
    match_string is_trimmed is_control lookup
parse_loaded = refl

tokens_once : json.tokens (9 ∷ []) ≡ tokens once []
tokens_once = refl

parse-IsUnique_example :
    (1 ≤ max_bytes) × (validate (λ s. s) loaded ≡ ok tt) × (is_unique 0 once ≡ true)
parse-IsUnique_example = parse-IsUnique json (9 ∷ []) loaded once parse_loaded tokens_once

abbrev pub folder : Folder
folder = record {
  entries = ok ("catalogs.json" ∷ "system-keys.json" ∷ "README.md" ∷ []);
  open_file = λ path. ok (record { delivered = 1 ∷ []; fails = false });
}

folder_loaded : load_source json folder ≡ ok loaded
unfolding load_source check_names check_keys known_keys check_known parse_known read_file bounded
    read_bounded has_prefix parse check_tokens check_shape check_sections check_entries check_entry
    check_required keys_of sections_of is_null Parse.object unique_value walk tokens validate
    validate_published validate_catalogs refuse_if string_eq nat_eq id_pattern label bad_catalog
    valid_provider match_string is_trimmed is_control lookup
folder_loaded = refl

load_source-IsKnown_example :
    (validate (λ s. s) loaded ≡ ok tt)
    × (raw : Bytes) × (known : List String) × (read_file json folder "system-keys.json" ≡ ok raw)
    × IsExported json raw known
    × All (λ e. contains known e.1.system_id ≡ true) loaded.catalogs
load_source-IsKnown_example = load_source-IsKnown json folder loaded folder_loaded
