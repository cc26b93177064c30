-- ===== src/Tests/Registry.antt =====
-- The registry, the command, and the distribution at concrete inputs.
use romd_dat_catalogs.Command.{choose, acquire_timed, acquire_one, deadline}
use romd_dat_catalogs.Definitions.Validate.{validate_seeded}
use romd_dat_catalogs.Definitions.Seeds.{
  validate_seed_data, check_companies, check_company_names, check_systems, check_manufacturers,
}
use romd_dat_catalogs.Prelude.{
  ◌+◌, ◌*◌, ℕ, ◌≤◌, ◌≡◌, refl, String, false, none, some, List, [], ◌∷◌, length, All, ◌⊎◌, Result,
  ok, err, string_eq, nat_eq, refuse_if,
}
use romd_dat_catalogs.Prelude.Dict.{Dict, lookup, insert}
use romd_dat_catalogs.Prelude.Text.{trim_right_slash, is_trimmed, is_control, has_prefix, text_lt}
use romd_dat_catalogs.Prelude.Regex.{match_string}
use romd_dat_catalogs.Publisher.{Attempt, Reference, Stream, read_bounded, Bytes}
use romd_dat_catalogs.Publisher as Publisher
use romd_dat_catalogs.Definitions.{
  Catalog, Registry, id_pattern, label, valid_provider, bad_catalog, validate_catalogs,
}
use romd_dat_catalogs.Definitions.Validate.{
  validate, validate_published, compatible, check_previous, check_seeds_kept, check_catalogs_kept,
  same_identity,
}
use romd_dat_catalogs.Definitions.Validate.Sound.{
  IsReviewed, Unmapped, IsSame, validate-IsReviewed, compatible-IsSame,
}
use romd_dat_catalogs.Command.{Shell, Selected, collect}
use romd_dat_catalogs.Command.Rests.{After, Kept, collect-rests, collect-wait, collect-requests}
use romd_dat_catalogs.Distribution.{
  Asset, Net, response, fetch_asset, git_repository, git_commit, git_catalog, git_asset_url,
  asset_url,
}
use romd_dat_catalogs.Distribution.Origin.{
  restore_origin, restore_from, migrate_origin, IsOwn, IsAbsent, restore_origin_cases,
}
use romd_dat_catalogs.Distribution.Git.{stage_downloads, fetch_documents, fetch_one, bad_binding}
use romd_dat_catalogs.Distribution.Git.Bound.{Fetched, fetch_documents-Fetched}

abbrev psx : Catalog
psx = record {
  system_id = "psx";
  provider = "redump";
  provider_system_id = "psx";
  representation = "discs";
  expected_name = "Sony - PlayStation";
  minimum_games = 100;
  minimum_roms = 100;
}

abbrev registry : Registry
registry = record {
  regions = none;
  languages = none;
  companies = [];
  schema_version = 3;
  systems = [];
  catalogs = ("redump/psx/discs", psx) ∷ [];
}

abbrev same_text : String → String
same_text s = s

registry_valid : validate same_text registry ≡ ok tt
unfolding validate validate_published validate_catalogs refuse_if string_eq nat_eq id_pattern label
    bad_catalog valid_provider match_string is_trimmed is_control
registry_valid = refl

abbrev seeded : Registry
seeded = record registry {
  companies = ("sony", record { name = "Sony"; aliases = some [] }) ∷ [];
  schema_version = 1;
  systems =
      (
        "psx",
        record {
          name = "PlayStation";
          manufacturer_ids = some ("sony" ∷ []);
          aliases = none;
          provider_mappings = none;
        },
      )
      ∷ [];
}

seeded_valid : validate same_text seeded ≡ ok tt
unfolding validate validate_seeded validate_seed_data check_companies check_company_names
    check_systems check_manufacturers validate_catalogs refuse_if string_eq nat_eq id_pattern label
    bad_catalog valid_provider match_string is_trimmed is_control lookup insert
seeded_valid = refl

validate-IsReviewed_example :
    All (λ (id, c). IsReviewed seeded id c) seeded.catalogs
    × Unmapped [] seeded.catalogs
    × (seeded.schema_version ≡ 3 → seeded.systems ≡ [])
validate-IsReviewed_example = validate-IsReviewed same_text seeded seeded_valid

registry_kept : compatible same_text registry (some registry) ≡ ok tt
unfolding compatible check_previous check_seeds_kept check_catalogs_kept same_identity lookup
    validate validate_published validate_catalogs refuse_if string_eq nat_eq id_pattern label
    bad_catalog valid_provider match_string is_trimmed is_control
registry_kept = refl

compatible-IsSame_example :
    (validate same_text registry ≡ ok tt)
    × (3 ≤ 3)
    × ((id : String) (old : Catalog)
        → lookup id registry.catalogs ≡ some old
        → (c : Catalog) × (lookup id registry.catalogs ≡ some c) × IsSame old c)
compatible-IsSame_example = compatible-IsSame same_text registry registry registry_kept

abbrev plain_attempt : Attempt
plain_attempt = record {
  retry_at = none;
  catalog_id = "redump/psx/discs";
  expected_name = "Sony - PlayStation";
  source_url = "https://redump.org/datfile/psx";
  path = some "0";
  failure = none;
}

abbrev shell : Shell
shell = record {
  now = λ i. 1000;
  no_intro = λ i. err "down";
  redump = λ i. ok (plain_attempt ∷ []);
  parse_time = λ s. none;
  format_time = λ t. "";
  source_url = λ c. "";
}

abbrev selected : Selected
selected = record { registry = registry.catalogs; published = []; all_paused = false; active = 1 }

abbrev ids : List String
ids = "redump/psx/discs" ∷ []

collect-rests_example : All (Kept []) (collect shell selected 0 ids [] []).1
collect-rests_example = collect-rests shell selected 0 ids []

collect-requests_example : length (collect shell selected 0 ids [] []).1 ≤ 1
collect-requests_example = collect-requests shell selected ids []

abbrev patient : Shell
patient = record shell {
  now = λ i. 1000 + i * 2000;
  redump = λ i. ok (record plain_attempt { retry_at = some "later" } ∷ []);
  parse_time = λ s. some 2000;
}

abbrev two_active : Selected
two_active = record selected { active = 2 }

collect-wait_example :
    After patient two_active "redump" 2000 []
      (record { provider = "redump"; id = "redump/psx/discs"; at = 1000 } ∷ [])
      (collect patient two_active 0 ("redump/psx/discs" ∷ ids) [] []).1
unfolding choose acquire_timed acquire_one deadline lookup string_eq
collect-wait_example =
    collect-wait patient two_active 0 "redump/psx/discs" ids []
      (record plain_attempt { retry_at = some "later" }) 2000 refl refl

abbrev absent : String → Result ℕ
absent url = ok 404

moved : restore_origin absent "https://new/" "https://old" false ≡ ok "https://old"
unfolding restore_origin restore_from migrate_origin trim_right_slash has_prefix refuse_if string_eq
    nat_eq
moved = refl

restore_origin_cases_example :
    IsOwn (trim_right_slash "https://new/") (trim_right_slash "https://old") "https://old" false
    ⊎ IsAbsent absent
        (trim_right_slash "https://new/")
        (trim_right_slash "https://old")
        "https://old"
        false
restore_origin_cases_example =
    restore_origin_cases absent "https://new/" "https://old" "https://old" false moved

abbrev document : Reference
document = record { path = "objects/0.dat"; sha256 = "0"; bytes = 3 }

abbrev published : Publisher.Catalog
published = record {
  retry_at = none;
  name = "Sony - PlayStation";
  artifact = some document;
  last_successful_check = none;
  last_changed = none;
  last_attempt = "";
  health = "healthy";
  error = none;
  counts = none;
  provenance = none;
}

abbrev catalogs : Dict Publisher.Catalog
catalogs = ("redump/psx/discs", published) ∷ ("redump/psx-2/discs", published) ∷ []

abbrev commit : String
commit = "0123456789012345678901234567890123456789"

abbrev asset : Asset
asset = record {
  url =
      "https://raw.githubusercontent.com/o/r/0123456789012345678901234567890123456789/redump/psx-2/discs.dat";
  sha256 = "0";
  bytes = 3;
}

abbrev downloads : Dict Asset
downloads = ("objects/0.dat", asset) ∷ []

staged : stage_downloads "o/r" commit catalogs ≡ ok downloads
unfolding stage_downloads refuse_if string_eq nat_eq match_string git_repository git_commit
    git_catalog text_lt lookup insert
staged = refl

abbrev net : Net
net = record {
  get = λ url. response 200 (record { delivered = 1 ∷ 2 ∷ 3 ∷ []; fails = false });
  hash = λ b. "0";
}

fetched : fetch_documents net downloads catalogs [] ≡ ok (("objects/0.dat", 1 ∷ 2 ∷ 3 ∷ []) ∷ [])
unfolding fetch_documents fetch_one bad_binding fetch_asset lookup insert refuse_if string_eq nat_eq
    match_string git_asset_url asset_url read_bounded
fetched = refl

fetch_documents-Fetched_example :
    All (λ (id, c). Fetched net (("objects/0.dat", 1 ∷ 2 ∷ 3 ∷ []) ∷ []) c.artifact) catalogs
fetch_documents-Fetched_example =
    fetch_documents-Fetched net downloads catalogs (("objects/0.dat", 1 ∷ 2 ∷ 3 ∷ []) ∷ []) fetched
