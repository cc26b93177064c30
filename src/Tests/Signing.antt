-- ===== src/Tests/Signing.antt =====
-- The signing of an index with a library whose metadata are numbers.
use romd_dat_catalogs.Prelude.{
  ℕ, ◌+◌, ◌≡◌, refl, String, false, none, some, [], ◌∷◌, Option, ok, string_eq, nat_eq, refuse_if,
  ◌==◌, if◌then◌else◌,
}
use romd_dat_catalogs.Prelude.Dict.{Dict, lookup, insert}
use romd_dat_catalogs.Prelude.Text.{has_prefix, decimal, digits_from}
use romd_dat_catalogs.Publisher.{Bytes, Snapshot}
use romd_dat_catalogs.Distribution.{Index}
use romd_dat_catalogs.Distribution.Stage.{
  Tuf, Desk, StageOptions, Layers, save, take_root, pick_root, read_root, sign_role, save_targets,
  copy_roots, save_all, sign_layers, save_metadata, sign_index,
}

abbrev scanned : String → Option (ℕ × String)
scanned name =
    if name == "1.root.json"
    then some (1, "json")
    else if name == "2.root.json"
    then some (2, "json")
    else none

abbrev pub numbers : Tuf ℕ
numbers = record {
  scan_name = scanned;
  read_root = λ name. ok (if name == "1.root.json" then 1 else 2);
  version = λ m. m;
  expires = λ m. 0;
  targets = λ expires version files. ok version;
  snapshot = λ expires version b. version + 1;
  timestamp = λ expires version b. version + 2;
  sign = λ role m. ok m;
  verify = λ root role m. ok tt;
  to_bytes = λ m. ok (m ∷ []);
}

abbrev pub desk : Desk
desk = record {
  roots = ok ("1.root.json" ∷ "2.root.json" ∷ "README" ∷ []);
  read_root_bytes = λ name. ok [];
  encode_index = λ i. ok (5 ∷ []);
  encode_definitions = λ r. ok [];
  hash = λ b. "00";
  cannot_write = λ name. false;
}

abbrev empty_snapshot : Snapshot
empty_snapshot = record {
  format = "";
  sequence = 1;
  published_at = "";
  catalogs = none;
  events = [];
  feed = record { path = ""; sha256 = ""; bytes = 0 };
}

abbrev signed_index : Index
signed_index = record {
  definitions = none;
  format = "romd-signed-catalog-2";
  version = 4;
  snapshot = empty_snapshot;
  state = record { url = ""; sha256 = ""; bytes = 0 };
  downloads = [];
}

abbrev stage_options : StageOptions
stage_options = record { definitions = none; version = 4; now = 1000 }

staged :
    (l : Layers ℕ) × (site : Dict Bytes) × (sign_index numbers desk stage_options signed_index []
      ≡ ok (signed_index, l, site))
unfolding sign_index save take_root pick_root read_root sign_role save_targets copy_roots save_all
    sign_layers save_metadata insert lookup has_prefix decimal digits_from refuse_if string_eq
    nat_eq
staged = (_, _, refl)
