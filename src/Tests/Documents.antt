-- ===== src/Tests/Documents.antt =====
-- The check of a No-Intro catalog and the reading of a candidate at concrete inputs.
use romd_dat_catalogs.Prelude.{
  ◌≤◌, ◌≡◌, refl, String, false, none, some, [], ◌∷◌, All, Result, ok, refuse_if, string_eq, nat_eq,
}
use romd_dat_catalogs.Prelude.Dict.{lookup}
use romd_dat_catalogs.Prelude.Regex.{match_string}
use romd_dat_catalogs.Prelude.Text.{is_blank, has_prefix}
use romd_dat_catalogs.Publisher.{Bytes, Counts, Reference, Snapshot, read_bounded}
use romd_dat_catalogs.Publisher as Publisher
use romd_dat_catalogs.Publisher.Document.{
  Formats, document, trim_mark, scan, visit, open_root, enter,
}
use romd_dat_catalogs.Publisher.Document.Complete.{Dat, render}
use romd_dat_catalogs.Definitions.{Catalog}
use romd_dat_catalogs.Redump.Retry.{is_number, parse_uint}
use romd_dat_catalogs.NoIntro.{
  Rom, Parsed, validate, good_header, good_games, good_status, good_rom, is_uint, is_hex,
}
use romd_dat_catalogs.NoIntro.Sound.{IsGame, validate_sound}
use romd_dat_catalogs.Distribution.{Asset, Index, Net, response, fetch_asset, asset_url}
use romd_dat_catalogs.Distribution.Candidate.{
  Candidate, read_candidate, system_binding, bad_reference, IsBound, read_candidate_sound,
}

abbrev gba : Dat
gba = record { name = "Sony"; games = ("a", 2) ∷ [] }

abbrev reader : Formats
reader = record {
  unzip = λ b. none;
  xml_tokens = λ b. record { tokens = render gba; fails = false };
}

abbrev reviewed_gba : Catalog
reviewed_gba = record {
  system_id = "gba";
  provider = "no-intro";
  provider_system_id = "23";
  representation = "standard";
  expected_name = "Sony";
  minimum_games = 1;
  minimum_roms = 2;
}

abbrev rom : Rom
rom = record {
  name = "a.bin";
  size = "5";
  crc = "0011aAfF";
  md5 = "00000000000000000000000000000000";
  sha1 = "0000000000000000000000000000000000000000";
  sha256 = "";
  status = "verified";
}

abbrev parsed_file : Parsed
parsed_file = record {
  ids = "23" ∷ [];
  versions = "1" ∷ [];
  homepage = "No-Intro";
  games = (rom ∷ []) ∷ [];
}

abbrev unmarshal : Bytes → Result Parsed
unmarshal b = ok parsed_file

catalog_accepted :
    validate reader unmarshal (1 ∷ []) reviewed_gba ≡ ok (1 ∷ [], record { games = 1; roms = 2 })
unfolding validate good_header good_games good_status good_rom is_uint is_hex is_number parse_uint
    is_blank document scan visit open_root enter refuse_if string_eq nat_eq
catalog_accepted = refl

validate_sound_example :
    (document reader (1 ∷ []) "Sony" ≡ ok (1 ∷ [], record { games = 1; roms = 2 }))
    × (1 ≤ 1)
    × (2 ≤ 2)
    × (p : Parsed) × (unmarshal (trim_mark (1 ∷ [])) ≡ ok p)
    × (p.ids ≡ "23" ∷ [])
    × All IsGame p.games
validate_sound_example =
    validate_sound reader unmarshal (1 ∷ []) reviewed_gba (1 ∷ []) (record { games = 1; roms = 2 })
      catalog_accepted

abbrev file : Reference
file = record { path = "objects/0.dat"; sha256 = "0"; bytes = 1 }

abbrev listed : Publisher.Catalog
listed = record {
  retry_at = none;
  name = "Sony";
  artifact = some file;
  last_successful_check = none;
  last_changed = none;
  last_attempt = "";
  health = "healthy";
  error = none;
  counts = none;
  provenance = none;
}

abbrev link : Asset
link = record { url = "https://github.com/o/r/releases/download/t/a"; sha256 = "0"; bytes = 1 }

abbrev index : Index
index = record {
  definitions = none;
  format = "romd-signed-catalog-1";
  version = 1;
  snapshot = record {
    format = "";
    sequence = 1;
    published_at = "";
    catalogs = some (("gba", listed) ∷ []);
    events = [];
    feed = file;
  };
  state = link;
  downloads = ("objects/0.dat", link) ∷ [];
}

abbrev server : Net
server = record {
  get = λ url. response 200 (record { delivered = 1 ∷ []; fails = false });
  hash = λ b. "0";
}

abbrev lower_case : String → String
lower_case s = s

candidate_read :
    (x : Candidate) × (read_candidate lower_case reader server index "gba" "Sony" ≡ ok (x, 1 ∷ []))
unfolding read_candidate system_binding bad_reference has_prefix fetch_asset asset_url match_string
    read_bounded lookup document scan visit open_root enter refuse_if string_eq nat_eq
candidate_read = (_, refl)

read_candidate_sound_example : IsBound reader server index "gba" "Sony" candidate_read.0 (1 ∷ [])
read_candidate_sound_example =
    read_candidate_sound lower_case reader server index "gba" "Sony" candidate_read.0 (1 ∷ [])
      candidate_read.1
