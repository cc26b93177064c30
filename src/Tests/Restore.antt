-- ===== src/Tests/Restore.antt =====
-- The two restores at concrete archives and documents.
use romd_dat_catalogs.Prelude.{
  ◌≡◌, refl, String, ◌<>◌, true, false, none, some, [], ◌∷◌, arith, ok, string_eq, nat_eq,
  refuse_if,
}
use romd_dat_catalogs.Prelude.Dict.{lookup, insert}
use romd_dat_catalogs.Prelude.Text.{has_part, has_prefix, decimal, digits_from}
use romd_dat_catalogs.Prelude.Regex.{match_string, matches, nullable, after}
use romd_dat_catalogs.Prelude.Words.{below_one64}
use romd_dat_catalogs.Publisher.{
  Bytes, Reference, Reference-discrete, Snapshot, Current, format_name, trust_name, read_bounded,
}
use romd_dat_catalogs.Publisher.Disk.{Disk, read_file, pure, lift, inspect, ◌>>=◌, atomic_write}
use romd_dat_catalogs.Publisher.Objects.{
  Codec, object_path, put, put_at, verified_read, verify_catalogs, verify_events, verify_snapshot,
  load_snapshot,
}
use romd_dat_catalogs.Publisher.Feed.{feed_bytes, feed_items}
use romd_dat_catalogs.Publisher.Arguments.{Library}
use romd_dat_catalogs.Publisher.Latest.Restore.{
  Place, restore_latest, restore_documents, restore_feed, restore_index, bad_latest,
}
use romd_dat_catalogs.Publisher.Latest.Restore.Loads.{IsLoadable}
use romd_dat_catalogs.Distribution.{Index}
use romd_dat_catalogs.Distribution.Restore.{
  Host, Entry, restore_state, check_archive, unpack, read_entry, save, settle, is_safe,
}
use romd_dat_catalogs.Distribution.Restore.Bounded.{IsRestored, restore_state-IsRestored}

abbrev pub digest : String
digest = "0123456789abcdef0123456789abcdef0123456789abcdef0123456789abcdef"

abbrev pub feed_reference : Reference
feed_reference = record { path = "objects/" <> (digest <> ".xml"); sha256 = digest; bytes = 1 }

abbrev pub quiet : Snapshot
quiet = record {
  format = format_name;
  sequence = 7;
  published_at = "2026-01-01T00:00:00Z";
  feed = feed_reference;
  catalogs = some [];
  events = [];
}

abbrev pub pointer : Current
pointer = record {
  format = format_name;
  trust = trust_name;
  sequence = 7;
  snapshot = record { path = "objects/" <> (digest <> ".json"); sha256 = digest; bytes = 2 };
}

abbrev pub fixed : Codec
fixed = record {
  hash = λ b. digest;
  encode_snapshot = λ s. 1 ∷ 2 ∷ [];
  decode_snapshot = λ b. ok quiet;
  encode_current = λ c. 3 ∷ [];
  decode_current = λ b. ok pointer;
}

abbrev pub xml_only : Library
xml_only = record {
  formats = record { unzip = λ b. none; xml_tokens = λ b. record { tokens = []; fails = true } };
  codec = fixed;
  feed_text = record { marshal = λ c. 9 ∷ []; parse_time = λ s. some 5; pub_date = λ t. "" };
  parse_url = λ s. none;
  format_time = λ t. "now";
  input = λ p. none;
}

abbrev pub free_place : Place
free_place = record { destination_exists = false; make_temporary = ok tt; rename = ok tt }

abbrev pub blank_disk : Disk
blank_disk = record { files = []; unreadable = λ p. false; write_faults = [] }

abbrev pub rebuilt : Disk
rebuilt = record {
  files =
      ("objects/" <> (digest <> ".xml"), 9 ∷ [])
      ∷ ("objects/" <> (digest <> ".json"), 1 ∷ 2 ∷ [])
      ∷ ("current.json", 3 ∷ [])
      ∷ [];
  unreadable = λ p. false;
  write_faults = [];
}

rebuilds : restore_latest xml_only free_place quiet [] blank_disk ≡ (ok tt, rebuilt)
unfolding restore_latest restore_documents restore_feed restore_index bad_latest feed_bytes
    feed_items put put_at verified_read verify_catalogs verify_events verify_snapshot read_file pure
    lift inspect ◌>>=◌ atomic_write object_path match_string matches nullable after lookup insert
    refuse_if string_eq nat_eq Reference-discrete below_one64
rebuilds = refl

pub quiet-IsLoadable : IsLoadable xml_only quiet blank_disk
unfolding object_path match_string matches nullable after
quiet-IsLoadable = record {
  snapshot = refl;
  pointer = refl;
  readable = λ p. refl;
  named = refl;
  fits = omega arith;
  current = omega arith;
}

abbrev entry : String → Bytes → Entry
entry name b = record {
  name = name;
  is_regular = true;
  opened = ok (record { delivered = b; fails = false });
}

abbrev pub archive_host : Host
archive_host = record {
  codec = fixed;
  unzip = λ b. ok (
      entry "current.json" (3 ∷ [])
      ∷ entry ("objects/" <> (digest <> ".json")) (1 ∷ 2 ∷ [])
      ∷ entry ("objects/" <> (digest <> ".xml")) (9 ∷ [])
      ∷ []);
  destination_exists = false;
  make_temporary = ok tt;
  cannot_write = λ name. false;
  unreadable = λ name. false;
  rename = ok tt;
}

abbrev archive_index : Index
archive_index = record {
  definitions = none;
  format = "romd-signed-catalog-1";
  version = 3;
  snapshot = quiet;
  state = record { url = ""; sha256 = digest; bytes = 1 };
  downloads = [];
}

archive_restored : (d : Disk) × (restore_state archive_host archive_index (80 ∷ []) ≡ ok d)
unfolding restore_state check_archive unpack read_entry save settle is_safe has_part has_prefix
    decimal digits_from read_bounded load_snapshot verified_read verify_catalogs verify_events
    verify_snapshot read_file object_path match_string matches nullable after lookup insert
    refuse_if string_eq nat_eq below_one64
archive_restored = (_, refl)

restore_state-IsRestored_example :
    IsRestored archive_host archive_index (80 ∷ []) archive_restored.0
restore_state-IsRestored_example =
    restore_state-IsRestored archive_host archive_index (80 ∷ []) archive_restored.0
      archive_restored.1
