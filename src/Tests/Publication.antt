-- ===== src/Tests/Publication.antt =====
-- The publisher at concrete inputs.
use romd_dat_catalogs.Prelude.{
  ℕ, ◌<◌, ◌≤◌, ◌≡◌, ◌≢◌, refl, String, Bool, true, false, Option, none, some, List, [], ◌∷◌, length,
  All, arith, contains, ◌||◌, Result, ok, err, string_eq, nat_eq, refuse_if,
}
use romd_dat_catalogs.Prelude.Dict.{lookup, insert}
use romd_dat_catalogs.Publisher.{
  Bytes, Counts, Reference, Reference-discrete, Attempt, Catalog, Event, Snapshot, Current, Stream,
}
use romd_dat_catalogs.Publisher.Document.{
  Formats, document, scan, trim_mark, visit, open_root, enter,
}
use romd_dat_catalogs.Publisher.Document.Sound.{IsExtract, IsAccepted, document_sound}
use romd_dat_catalogs.Publisher.Document.Complete.{Dat, render, scan-render}
use romd_dat_catalogs.Publisher.Disk.{Disk}
use romd_dat_catalogs.Publisher.Feed.{FeedText}
use romd_dat_catalogs.Publisher.Objects.{Codec, reference}
use romd_dat_catalogs.Publisher.Arguments.{Library, Options, Host, sort_attempts}
use romd_dat_catalogs.Publisher.Publish.{
  publish, evaluate, process, Loop, entry_of, load_prior, clock_regressed, clock,
}
use romd_dat_catalogs.Publisher.Publish.Step.{
  IsFailure, IsSuccess, process-IsFailure, process-IsSuccess,
}
use romd_dat_catalogs.Publisher.Publish.Attempts.{IsPublished, publish-IsPublished}
use romd_dat_catalogs.Publisher.Publish.Commit.{IsAtomic, publish-IsAtomic}
use romd_dat_catalogs.Publisher.CatchUp.{catch_up}
use romd_dat_catalogs.Publisher.CatchUp.Laws.{lookup-catch_up}
use romd_dat_catalogs.Publisher.Latest.{latest}
use romd_dat_catalogs.Publisher.Latest.Laws.{IsLatest, latest-IsLatest}

abbrev dat : Dat
dat = record { name = "Sony"; games = ("a", 2) ∷ ("b", 1) ∷ [] }

decided : contains {A = String} ("a" ∷ []) "b" ≡ false
unfolding string_eq
decided = refl

scan-render_example :
    scan (record { tokens = render dat; fails = false }) "Sony"
    ≡ ok (record { games = 2; roms = 3 })
scan-render_example = scan-render dat (omega arith) ((λ h. cc), refl, ((λ h. cc), decided, tt))

abbrev formats : Formats
formats = record {
  unzip = λ b. none;
  xml_tokens = λ b. record { tokens = render dat; fails = false };
}

accepted : document formats (1 ∷ []) "Sony" ≡ ok (1 ∷ [], record { games = 2; roms = 3 })
unfolding document scan refuse_if string_eq nat_eq visit open_root enter
accepted = refl

document_sound_example :
    IsExtract formats (1 ∷ []) (1 ∷ [])
    × (length {A = ℕ} (1 ∷ []) ≤ 16777216)
    × (length {A = ℕ} (1 ∷ []) ≤ 33554432)
    × IsAccepted (formats.xml_tokens (trim_mark (1 ∷ []))) "Sony" (record { games = 2; roms = 3 })
document_sound_example =
    document_sound formats (1 ∷ []) (1 ∷ []) "Sony" (record { games = 2; roms = 3 }) accepted

abbrev object : Reference
object = record { path = "objects/0.dat"; sha256 = "0"; bytes = 1 }

abbrev held : Catalog
held = record {
  retry_at = none;
  name = "Sony";
  artifact = some object;
  last_successful_check = none;
  last_changed = none;
  last_attempt = "";
  health = "healthy";
  error = none;
  counts = none;
  provenance = none;
}

lookup-catch_up_example :
    lookup "psx" (catch_up (("psx", held) ∷ []) (("psx", "1") ∷ []) []) ≡ some object
unfolding lookup string_eq
lookup-catch_up_example =
    lookup-catch_up (("psx", "1") ∷ []) [] "psx" (("psx", held) ∷ []) (refl, tt)

abbrev attempt : Attempt
attempt = record {
  retry_at = none;
  catalog_id = "redump/psx";
  expected_name = "Sony";
  source_url = "https://h/psx";
  path = none;
  failure = some "request_failed";
}

abbrev codec : Codec
codec = record {
  hash = λ b. "0000000000000000000000000000000000000000000000000000000000000000";
  encode_snapshot = λ s. 1 ∷ [];
  decode_snapshot = λ b. err "";
  encode_current = λ c. 2 ∷ [];
  decode_current = λ b. err "";
}

abbrev feed_text : FeedText
feed_text = record { marshal = λ c. 3 ∷ []; parse_time = λ s. some 5; pub_date = λ t. "" }

abbrev library : Library
library = record {
  formats = formats;
  codec = codec;
  feed_text = feed_text;
  parse_url = λ s. some (record {
    scheme = "https";
    hostname = "h";
    has_user = false;
    raw_query = "";
    force_query = false;
    fragment = "";
  });
  format_time = λ t. "now";
  input = λ p. some (record { delivered = 1 ∷ []; fails = false });
}

abbrev host : Host
host = record { wall_clock = 9; opened = ok tt }

abbrev options : Options
options = record { now = 0; feed_limit = 0; before_commit = none }

abbrev empty : Disk
empty = record { files = []; unreadable = λ p. false; write_faults = [] }

abbrev faulty : Disk
faulty = record {
  files = ("note", 1 ∷ []) ∷ [];
  unreadable = λ p. false;
  write_faults = false ∷ true ∷ [];
}

publish-IsAtomic_example :
    IsAtomic library
      (publish library host (attempt ∷ []) "https://h/" options faulty).0
      faulty
      (publish library host (attempt ∷ []) "https://h/" options faulty).1
publish-IsAtomic_example = publish-IsAtomic library host (attempt ∷ []) "https://h/" options faulty

publishes :
    (s : Snapshot) × (d : Disk) × (publish library host (attempt ∷ []) "https://h/" options empty
      ≡ (ok s, d))
unfolding publish lookup insert refuse_if string_eq nat_eq romd_dat_catalogs.Publisher.Disk.◌>>=◌
    romd_dat_catalogs.Publisher.Publish.prepare romd_dat_catalogs.Publisher.Disk.lift
    romd_dat_catalogs.Prelude.Regex.match_string romd_dat_catalogs.Publisher.Arguments.catalog_id
    romd_dat_catalogs.Publisher.Arguments.bad_retry
    romd_dat_catalogs.Publisher.Arguments.bad_attempt romd_dat_catalogs.Publisher.Disk.inspect
    romd_dat_catalogs.Publisher.Publish.load_prior romd_dat_catalogs.Publisher.Objects.load_snapshot
    romd_dat_catalogs.Publisher.Disk.read_file romd_dat_catalogs.Publisher.Publish.clock_regressed
    sort_attempts process romd_dat_catalogs.Publisher.Publish.entry_of evaluate
    romd_dat_catalogs.Publisher.Disk.pure romd_dat_catalogs.Prelude.option_eq
    romd_dat_catalogs.Prelude.Text.text_lt romd_dat_catalogs.Prelude.Text.trim_right_slash
    romd_dat_catalogs.Prelude.Words.below_one64 romd_dat_catalogs.Prelude.Words.next64
    romd_dat_catalogs.Publisher.Arguments.check_arguments
    romd_dat_catalogs.Publisher.Arguments.public_source_url
    romd_dat_catalogs.Publisher.Arguments.public_url romd_dat_catalogs.Publisher.Disk.atomic_write
    romd_dat_catalogs.Publisher.Feed.feed_bytes romd_dat_catalogs.Publisher.Objects.object_path
    romd_dat_catalogs.Publisher.Objects.put romd_dat_catalogs.Publisher.Objects.put_at
    romd_dat_catalogs.Publisher.Objects.verified_read
    romd_dat_catalogs.Publisher.Objects.verify_catalogs
    romd_dat_catalogs.Publisher.Objects.verify_events
    romd_dat_catalogs.Publisher.Objects.verify_snapshot romd_dat_catalogs.Publisher.Publish.accept
    romd_dat_catalogs.Publisher.Publish.commit romd_dat_catalogs.Publisher.Publish.failed_catalog
    romd_dat_catalogs.Publisher.Publish.healthy_catalog
    romd_dat_catalogs.Publisher.Publish.new_event romd_dat_catalogs.Publisher.Publish.process_all
    romd_dat_catalogs.Publisher.Publish.settle romd_dat_catalogs.Publisher.Publish.store_index
    romd_dat_catalogs.Publisher.Publish.store_snapshot
publishes = (_, _, refl)

abbrev event : Event
event = record {
  id = "1/psx";
  catalog_id = "psx";
  name = "Sony";
  sequence = 1;
  published_at = "now";
  artifact = object;
}

abbrev published : Snapshot
published = record {
  format = "romd-dat-catalog-experimental-1";
  sequence = 1;
  published_at = "now";
  catalogs = some (("psx", held) ∷ []);
  events = event ∷ event ∷ [];
  feed = object;
}

latest_done : (s : Snapshot) × (latest codec feed_text published ≡ ok (s, 3 ∷ []))
unfolding latest lookup string_eq nat_eq romd_dat_catalogs.Prelude.option_eq
    romd_dat_catalogs.Publisher.Feed.feed_bytes romd_dat_catalogs.Publisher.Latest.is_present
    Reference-discrete
latest_done = (_, refl)

latest-IsLatest_example :
    IsLatest published latest_done.0 × (latest_done.0.feed ≡ reference codec (3 ∷ []) "xml")
latest-IsLatest_example =
    latest-IsLatest codec feed_text published latest_done.0 (3 ∷ []) latest_done.1

publish-IsPublished_example :
    (old : Snapshot) × (load_prior library empty ≡ ok old)
    × (clock_regressed library (clock options host) old ≡ false)
    × IsPublished library (clock options host) 100 (attempt ∷ []) old publishes.0
unfolding nat_eq
publish-IsPublished_example =
    publish-IsPublished library host (attempt ∷ []) "https://h/" options publishes.0 empty
      publishes.1 publishes.2

abbrev loop : Loop
loop = record { catalogs = ("redump/psx", held) ∷ []; events = [] }

attempt_fails : evaluate library attempt ≡ err "acquisition_failed"
unfolding publish lookup insert refuse_if string_eq nat_eq romd_dat_catalogs.Publisher.Disk.◌>>=◌
    romd_dat_catalogs.Publisher.Publish.prepare romd_dat_catalogs.Publisher.Disk.lift
    romd_dat_catalogs.Prelude.Regex.match_string romd_dat_catalogs.Publisher.Arguments.catalog_id
    romd_dat_catalogs.Publisher.Arguments.bad_retry
    romd_dat_catalogs.Publisher.Arguments.bad_attempt romd_dat_catalogs.Publisher.Disk.inspect
    romd_dat_catalogs.Publisher.Publish.load_prior romd_dat_catalogs.Publisher.Objects.load_snapshot
    romd_dat_catalogs.Publisher.Disk.read_file romd_dat_catalogs.Publisher.Publish.clock_regressed
    sort_attempts process romd_dat_catalogs.Publisher.Publish.entry_of evaluate
    romd_dat_catalogs.Publisher.Disk.pure romd_dat_catalogs.Prelude.option_eq
    romd_dat_catalogs.Prelude.Text.text_lt romd_dat_catalogs.Prelude.Text.trim_right_slash
    romd_dat_catalogs.Prelude.Words.below_one64 romd_dat_catalogs.Prelude.Words.next64
    romd_dat_catalogs.Publisher.Arguments.check_arguments
    romd_dat_catalogs.Publisher.Arguments.public_source_url
    romd_dat_catalogs.Publisher.Arguments.public_url romd_dat_catalogs.Publisher.Disk.atomic_write
    romd_dat_catalogs.Publisher.Feed.feed_bytes romd_dat_catalogs.Publisher.Objects.object_path
    romd_dat_catalogs.Publisher.Objects.put romd_dat_catalogs.Publisher.Objects.put_at
    romd_dat_catalogs.Publisher.Objects.verified_read
    romd_dat_catalogs.Publisher.Objects.verify_catalogs
    romd_dat_catalogs.Publisher.Objects.verify_events
    romd_dat_catalogs.Publisher.Objects.verify_snapshot romd_dat_catalogs.Publisher.Publish.accept
    romd_dat_catalogs.Publisher.Publish.commit romd_dat_catalogs.Publisher.Publish.failed_catalog
    romd_dat_catalogs.Publisher.Publish.healthy_catalog
    romd_dat_catalogs.Publisher.Publish.new_event romd_dat_catalogs.Publisher.Publish.process_all
    romd_dat_catalogs.Publisher.Publish.settle romd_dat_catalogs.Publisher.Publish.store_index
    romd_dat_catalogs.Publisher.Publish.store_snapshot
attempt_fails = refl

loop_named : (entry_of attempt loop.catalogs).name ≡ "Sony"
unfolding publish lookup insert refuse_if string_eq nat_eq romd_dat_catalogs.Publisher.Disk.◌>>=◌
    romd_dat_catalogs.Publisher.Publish.prepare romd_dat_catalogs.Publisher.Disk.lift
    romd_dat_catalogs.Prelude.Regex.match_string romd_dat_catalogs.Publisher.Arguments.catalog_id
    romd_dat_catalogs.Publisher.Arguments.bad_retry
    romd_dat_catalogs.Publisher.Arguments.bad_attempt romd_dat_catalogs.Publisher.Disk.inspect
    romd_dat_catalogs.Publisher.Publish.load_prior romd_dat_catalogs.Publisher.Objects.load_snapshot
    romd_dat_catalogs.Publisher.Disk.read_file romd_dat_catalogs.Publisher.Publish.clock_regressed
    sort_attempts process romd_dat_catalogs.Publisher.Publish.entry_of evaluate
    romd_dat_catalogs.Publisher.Disk.pure romd_dat_catalogs.Prelude.option_eq
    romd_dat_catalogs.Prelude.Text.text_lt romd_dat_catalogs.Prelude.Text.trim_right_slash
    romd_dat_catalogs.Prelude.Words.below_one64 romd_dat_catalogs.Prelude.Words.next64
    romd_dat_catalogs.Publisher.Arguments.check_arguments
    romd_dat_catalogs.Publisher.Arguments.public_source_url
    romd_dat_catalogs.Publisher.Arguments.public_url romd_dat_catalogs.Publisher.Disk.atomic_write
    romd_dat_catalogs.Publisher.Feed.feed_bytes romd_dat_catalogs.Publisher.Objects.object_path
    romd_dat_catalogs.Publisher.Objects.put romd_dat_catalogs.Publisher.Objects.put_at
    romd_dat_catalogs.Publisher.Objects.verified_read
    romd_dat_catalogs.Publisher.Objects.verify_catalogs
    romd_dat_catalogs.Publisher.Objects.verify_events
    romd_dat_catalogs.Publisher.Objects.verify_snapshot romd_dat_catalogs.Publisher.Publish.accept
    romd_dat_catalogs.Publisher.Publish.commit romd_dat_catalogs.Publisher.Publish.failed_catalog
    romd_dat_catalogs.Publisher.Publish.healthy_catalog
    romd_dat_catalogs.Publisher.Publish.new_event romd_dat_catalogs.Publisher.Publish.process_all
    romd_dat_catalogs.Publisher.Publish.settle romd_dat_catalogs.Publisher.Publish.store_index
    romd_dat_catalogs.Publisher.Publish.store_snapshot
loop_named = refl

process-IsFailure_example :
    (l : Loop) × (process library 1 "now" attempt loop empty ≡ (ok l, empty))
    × IsFailure library 1 "now" attempt "acquisition_failed" loop l
process-IsFailure_example =
    process-IsFailure library 1 "now" attempt "acquisition_failed" loop empty attempt_fails
      loop_named

abbrev brought : Attempt
brought = record attempt { path = some "0.dat"; failure = none }

brings : evaluate library brought ≡ ok (1 ∷ [], record { games = 2; roms = 3 })
unfolding publish lookup insert refuse_if string_eq nat_eq romd_dat_catalogs.Publisher.Disk.◌>>=◌
    romd_dat_catalogs.Publisher.Publish.prepare romd_dat_catalogs.Publisher.Disk.lift
    romd_dat_catalogs.Prelude.Regex.match_string romd_dat_catalogs.Publisher.Arguments.catalog_id
    romd_dat_catalogs.Publisher.Arguments.bad_retry
    romd_dat_catalogs.Publisher.Arguments.bad_attempt romd_dat_catalogs.Publisher.Disk.inspect
    romd_dat_catalogs.Publisher.Publish.load_prior romd_dat_catalogs.Publisher.Objects.load_snapshot
    romd_dat_catalogs.Publisher.Disk.read_file romd_dat_catalogs.Publisher.Publish.clock_regressed
    sort_attempts process romd_dat_catalogs.Publisher.Publish.entry_of evaluate
    romd_dat_catalogs.Publisher.Disk.pure romd_dat_catalogs.Prelude.option_eq
    romd_dat_catalogs.Prelude.Text.text_lt romd_dat_catalogs.Prelude.Text.trim_right_slash
    romd_dat_catalogs.Prelude.Words.below_one64 romd_dat_catalogs.Prelude.Words.next64
    romd_dat_catalogs.Publisher.Arguments.check_arguments
    romd_dat_catalogs.Publisher.Arguments.public_source_url
    romd_dat_catalogs.Publisher.Arguments.public_url romd_dat_catalogs.Publisher.Disk.atomic_write
    romd_dat_catalogs.Publisher.Feed.feed_bytes romd_dat_catalogs.Publisher.Objects.object_path
    romd_dat_catalogs.Publisher.Objects.put romd_dat_catalogs.Publisher.Objects.put_at
    romd_dat_catalogs.Publisher.Objects.verified_read
    romd_dat_catalogs.Publisher.Objects.verify_catalogs
    romd_dat_catalogs.Publisher.Objects.verify_events
    romd_dat_catalogs.Publisher.Objects.verify_snapshot romd_dat_catalogs.Publisher.Publish.accept
    romd_dat_catalogs.Publisher.Publish.commit romd_dat_catalogs.Publisher.Publish.failed_catalog
    romd_dat_catalogs.Publisher.Publish.healthy_catalog
    romd_dat_catalogs.Publisher.Publish.new_event romd_dat_catalogs.Publisher.Publish.process_all
    romd_dat_catalogs.Publisher.Publish.settle romd_dat_catalogs.Publisher.Publish.store_index
    romd_dat_catalogs.Publisher.Publish.store_snapshot document scan visit open_root enter
    romd_dat_catalogs.Publisher.read_bounded
brings = refl

processes : (l : Loop) × (d : Disk) × (process library 1 "now" brought loop empty ≡ (ok l, d))
unfolding publish lookup insert refuse_if string_eq nat_eq romd_dat_catalogs.Publisher.Disk.◌>>=◌
    romd_dat_catalogs.Publisher.Publish.prepare romd_dat_catalogs.Publisher.Disk.lift
    romd_dat_catalogs.Prelude.Regex.match_string romd_dat_catalogs.Publisher.Arguments.catalog_id
    romd_dat_catalogs.Publisher.Arguments.bad_retry
    romd_dat_catalogs.Publisher.Arguments.bad_attempt romd_dat_catalogs.Publisher.Disk.inspect
    romd_dat_catalogs.Publisher.Publish.load_prior romd_dat_catalogs.Publisher.Objects.load_snapshot
    romd_dat_catalogs.Publisher.Disk.read_file romd_dat_catalogs.Publisher.Publish.clock_regressed
    sort_attempts process romd_dat_catalogs.Publisher.Publish.entry_of evaluate
    romd_dat_catalogs.Publisher.Disk.pure romd_dat_catalogs.Prelude.option_eq
    romd_dat_catalogs.Prelude.Text.text_lt romd_dat_catalogs.Prelude.Text.trim_right_slash
    romd_dat_catalogs.Prelude.Words.below_one64 romd_dat_catalogs.Prelude.Words.next64
    romd_dat_catalogs.Publisher.Arguments.check_arguments
    romd_dat_catalogs.Publisher.Arguments.public_source_url
    romd_dat_catalogs.Publisher.Arguments.public_url romd_dat_catalogs.Publisher.Disk.atomic_write
    romd_dat_catalogs.Publisher.Feed.feed_bytes romd_dat_catalogs.Publisher.Objects.object_path
    romd_dat_catalogs.Publisher.Objects.put romd_dat_catalogs.Publisher.Objects.put_at
    romd_dat_catalogs.Publisher.Objects.verified_read
    romd_dat_catalogs.Publisher.Objects.verify_catalogs
    romd_dat_catalogs.Publisher.Objects.verify_events
    romd_dat_catalogs.Publisher.Objects.verify_snapshot romd_dat_catalogs.Publisher.Publish.accept
    romd_dat_catalogs.Publisher.Publish.commit romd_dat_catalogs.Publisher.Publish.failed_catalog
    romd_dat_catalogs.Publisher.Publish.healthy_catalog
    romd_dat_catalogs.Publisher.Publish.new_event romd_dat_catalogs.Publisher.Publish.process_all
    romd_dat_catalogs.Publisher.Publish.settle romd_dat_catalogs.Publisher.Publish.store_index
    romd_dat_catalogs.Publisher.Publish.store_snapshot document scan visit open_root enter
    Reference-discrete romd_dat_catalogs.Publisher.read_bounded
processes = (_, _, refl)

process-IsSuccess_example :
    IsSuccess library 1 "now" brought
      (1 ∷ [])
      (record { games = 2; roms = 3 })
      loop
      processes.0
      processes.1
process-IsSuccess_example =
    process-IsSuccess library 1 "now" brought (1 ∷ []) (record { games = 2; roms = 3 }) loop
      processes.0 empty processes.1 brings processes.2
