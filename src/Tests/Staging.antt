-- ===== src/Tests/Staging.antt =====
-- A staging of one catalog, from its state directory to the signed site.
use romd_dat_catalogs.Prelude.{
  All, ℕ, ◌≡◌, refl, String, ◌<>◌, true, false, none, some, [], ◌∷◌, ok, string_eq, nat_eq,
  refuse_if,
}
use romd_dat_catalogs.Prelude.Dict.{Dict, lookup, insert}
use romd_dat_catalogs.Prelude.Text.{
  is_trimmed, is_control, has_prefix, decimal, digits_from, text_lt,
}
use romd_dat_catalogs.Prelude.Regex.{match_string, matches, nullable, after}
use romd_dat_catalogs.Prelude.Words.{below_one64}
use romd_dat_catalogs.Publisher.{Bytes, Reference, Catalog, Snapshot}
use romd_dat_catalogs.Publisher.Disk.{read_file}
use romd_dat_catalogs.Publisher.Objects.{
  Codec, object_path, verified_read, verify_catalogs, verify_events, verify_snapshot, load_snapshot,
  entries,
}
use romd_dat_catalogs.Publisher.Feed.{feed_bytes, feed_items}
use romd_dat_catalogs.Publisher.Latest.{latest, latest_events, is_present}
use romd_dat_catalogs.Definitions.{
  id_pattern, label, valid_provider, bad_catalog, validate_catalogs,
}
use romd_dat_catalogs.Definitions.Validate.{validate, validate_published, compatible}
use romd_dat_catalogs.Distribution.{Asset, Index, git_repository, git_commit, git_catalog}
use romd_dat_catalogs.Distribution.Git.{stage_downloads, stage_each, sort_entries, insert_entry}
use romd_dat_catalogs.Distribution.Git.Bound.{Bound, stage_downloads-Bound}
use romd_dat_catalogs.Distribution.Stage.{
  Tuf, StageOptions, Layers, save, take_root, pick_root, read_root, sign_role, save_targets,
  copy_roots, save_all, sign_layers, save_metadata, sign_index,
}
use romd_dat_catalogs.Distribution.Stage.Signed.{IsRoot, IsChain}
use romd_dat_catalogs.Distribution.Publication.{
  Ground, replace_from, link_downloads, link_feed, check_bound, check_options, check_version,
  load_previous, git_index, admit, stage_git,
}
use romd_dat_catalogs.Distribution.Publication.Staged.{IsAdmitted, stage_git-IsStaged}
use romd_dat_catalogs.Tests.Loading.{loaded, json, folder}
use romd_dat_catalogs.Tests.Restore.{digest, quiet, fixed, rebuilt}
use romd_dat_catalogs.Tests.Signing.{numbers, desk}

abbrev disc : Reference
disc = record { path = "objects/" <> (digest <> ".dat"); sha256 = digest; bytes = 1 }

abbrev saturn_discs : Catalog
saturn_discs = record {
  retry_at = none;
  name = "Sega - Saturn";
  artifact = some disc;
  last_successful_check = none;
  last_changed = none;
  last_attempt = "";
  health = "healthy";
  error = none;
  counts = none;
  provenance = none;
}

abbrev one_catalog : Snapshot
one_catalog = record quiet { catalogs = some (("redump/saturn/discs", saturn_discs) ∷ []) }

abbrev in_force : Tuf ℕ
in_force = record numbers { expires = λ m. 2000 }

abbrev site_ground : Ground
site_ground = record {
  codec = record fixed { decode_snapshot = λ b. ok one_catalog };
  text = record { marshal = λ c. 9 ∷ []; parse_time = λ s. some 5; pub_date = λ t. "" };
  json = json;
  state = record rebuilt { files = ("objects/" <> (digest <> ".dat"), 7 ∷ []) ∷ rebuilt.files };
  folder = folder;
  has_definitions = false;
  version_file = ok (some (b'3' ∷ []));
  scan = λ b. some 3;
  output_missing = true;
  has_root_key = false;
}

abbrev site_options : StageOptions
site_options = record { definitions = some loaded; version = 4; now = 1000 }

abbrev head : String
head = "0123456789012345678901234567890123456789"

site_staged :
    (out : Index) × (l : Layers ℕ) × (site : Dict Bytes) × (stage_git in_force desk site_ground
        site_options "o/r" head
      ≡ ok (out, l, site))
unfolding stage_git admit check_options check_version load_previous check_bound compatible validate
    validate_published validate_catalogs id_pattern label bad_catalog valid_provider match_string
    matches nullable after is_trimmed is_control git_repository git_commit git_catalog load_snapshot
    verified_read verify_catalogs verify_events verify_snapshot read_file object_path below_one64
    latest latest_events is_present feed_bytes feed_items stage_downloads stage_each sort_entries
    insert_entry text_lt link_feed link_downloads replace_from sign_index save take_root pick_root
    read_root sign_role save_targets copy_roots save_all sign_layers save_metadata insert lookup
    has_prefix decimal digits_from refuse_if string_eq nat_eq
site_staged = (_, _, _, refl)

stage_git-IsStaged_example :
    (root : ℕ) × (s view : Snapshot) × (feed : Bytes) × (downloads : Dict Asset) × (raw : Bytes)
    × (files : Dict Bytes) × IsAdmitted in_force desk site_ground site_options root s
    × IsRoot in_force desk root
    × (latest site_ground.codec site_ground.text s ≡ ok (view, feed))
    × (stage_downloads "o/r" head (entries view.catalogs) ≡ ok downloads)
    × (site_staged.0 ≡ git_index site_options view downloads)
    × (desk.encode_index site_staged.0 ≡ ok raw)
    × (lookup "catalog.json" files ≡ some raw)
    × IsChain in_force root site_options files site_staged.1
stage_git-IsStaged_example =
    stage_git-IsStaged in_force desk site_ground site_options "o/r" head site_staged.0 site_staged.1
      site_staged.2 site_staged.3

abbrev two_catalogs : Snapshot
two_catalogs = record quiet {
  catalogs = some (("redump/saturn/discs", saturn_discs) ∷ ("redump/psx/discs", saturn_discs) ∷ []);
}

abbrev shared : Codec
shared = record fixed { decode_snapshot = λ b. ok two_catalogs }

shared_loaded : load_snapshot shared site_ground.state ≡ ok two_catalogs
unfolding load_snapshot verified_read verify_catalogs verify_events verify_snapshot read_file
    object_path match_string matches nullable after lookup refuse_if string_eq nat_eq below_one64
shared_loaded = refl

shared_downloads :
    (d : Dict Asset) × (stage_downloads "o/r" head (entries two_catalogs.catalogs) ≡ ok d)
unfolding stage_downloads stage_each sort_entries insert_entry text_lt git_repository git_commit
    git_catalog match_string matches nullable after lookup insert refuse_if string_eq nat_eq
shared_downloads = (_, refl)

stage_downloads-Bound_example :
    All (λ (id, c). Bound shared_downloads.0 c.artifact) (entries two_catalogs.catalogs)
stage_downloads-Bound_example =
    stage_downloads-Bound shared site_ground.state two_catalogs "o/r" head shared_downloads.0
      shared_loaded shared_downloads.1
