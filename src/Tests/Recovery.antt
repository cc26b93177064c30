-- ===== src/Tests/Recovery.antt =====
-- The rebuilding of a state directory from a signed index with definitions.
use romd_dat_catalogs.Prelude.{◌≡◌, refl, false, some, [], ◌∷◌, ok, string_eq, nat_eq, refuse_if}
use romd_dat_catalogs.Prelude.Dict.{lookup, insert}
use romd_dat_catalogs.Prelude.Text.{codes, decimal, digits_from, is_trimmed, is_control}
use romd_dat_catalogs.Prelude.Regex.{match_string, matches, nullable, after}
use romd_dat_catalogs.Prelude.Words.{below_one64}
use romd_dat_catalogs.Publisher.{Reference-discrete}
use romd_dat_catalogs.Publisher.Disk.{Disk, read_file, pure, lift, inspect, ◌>>=◌, atomic_write}
use romd_dat_catalogs.Publisher.Objects.{
  object_path, put, put_at, verified_read, verify_catalogs, verify_events, verify_snapshot,
  load_snapshot,
}
use romd_dat_catalogs.Publisher.Feed.{feed_bytes, feed_items}
use romd_dat_catalogs.Publisher.Latest.Restore.{
  restore_latest, restore_documents, restore_feed, restore_index, bad_latest,
}
use romd_dat_catalogs.Definitions.{
  id_pattern, label, valid_provider, bad_catalog, validate_catalogs,
}
use romd_dat_catalogs.Definitions.Validate.{validate, validate_published}
use romd_dat_catalogs.Distribution.{Index, no_reply}
use romd_dat_catalogs.Distribution.Git.{fetch_documents}
use romd_dat_catalogs.Distribution.Restore.{version_file}
use romd_dat_catalogs.Distribution.Recovery.{
  Goal, keep, keep_definitions, keep_version, restore_git,
}
use romd_dat_catalogs.Distribution.Recovery.Reloaded.{load_snapshot-restore_git}
use romd_dat_catalogs.Tests.Loading.{loaded}
use romd_dat_catalogs.Tests.Restore.{
  digest, quiet, fixed, xml_only, free_place, blank_disk, archive_host, quiet-IsLoadable,
}

abbrev goal : Goal
goal = record {
  net = record { get = λ u. no_reply; hash = λ b. digest };
  library = xml_only;
  place = free_place;
  blank = blank_disk;
  host = archive_host;
  to_lower = λ s. s;
  encode_definitions = λ r. ok (4 ∷ []);
  cannot_write = λ name. false;
}

abbrev index : Index
index = record {
  definitions = some loaded;
  format = "romd-signed-catalog-2";
  version = 3;
  snapshot = quiet;
  state = record { url = ""; sha256 = ""; bytes = 0 };
  downloads = [];
}

recovered : (d : Disk) × (restore_git goal index ≡ ok d)
unfolding restore_git keep keep_definitions keep_version fetch_documents validate validate_published
    validate_catalogs id_pattern label bad_catalog valid_provider is_trimmed is_control decimal
    digits_from restore_latest restore_documents restore_feed restore_index bad_latest feed_bytes
    feed_items put put_at verified_read verify_catalogs verify_events verify_snapshot read_file pure
    lift inspect ◌>>=◌ atomic_write object_path match_string matches nullable after lookup insert
    refuse_if string_eq nat_eq Reference-discrete below_one64
recovered = (_, refl)

load_snapshot-restore_git_example :
    (load_snapshot fixed recovered.0 ≡ ok quiet)
    × (lookup version_file recovered.0.files ≡ some (codes (decimal 3)))
load_snapshot-restore_git_example =
    load_snapshot-restore_git goal index recovered.0 quiet-IsLoadable recovered.1
