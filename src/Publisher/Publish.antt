-- ===== src/Publisher/Publish.antt =====
-- internal/publisher/publisher.go: `Publish`, one function for each part of it.
pub mod Step
pub mod Attempts
pub mod Commit
pub mod Reload
use romd_dat_catalogs.Prelude.{
  ℕ, zero, suc, ◌+◌, String, ◌<>◌, Bool, true, false, not, ◌&&◌, ◌||◌, Option, none, some, List, [],
  ◌∷◌, ◌++◌, length, take, ltb, leb, if◌then◌else◌, ◌==◌, contains, string_eq, nat_eq, option_eq,
  Result, ok, err, refuse_if, or_err,
}
use romd_dat_catalogs.Prelude.Dict.{Dict, lookup, insert}
use romd_dat_catalogs.Prelude.Text.{codes, text_lt, trim_right_slash}
use romd_dat_catalogs.Prelude.Words.{next64, signed_decimal}
use romd_dat_catalogs.Prelude.Regex.{Regex, both, one_of, plus, star, up_to, word, match_string}
use romd_dat_catalogs.Publisher.{
  Bytes, Counts, Reference, reference_eq, Attempt, Provenance, Catalog, Event, Snapshot, Current,
  Stream, Read, read, too_big, broken, read_bounded, max_input, max_metadata, format_name,
  trust_name,
}
use romd_dat_catalogs.Publisher.Document.{Formats, document}
use romd_dat_catalogs.Publisher.Disk.{Disk, Io, pure, lift, inspect, ◌>>=◌, atomic_write}
use romd_dat_catalogs.Publisher.Objects.{
  Codec, put, verified_read, verify_snapshot, load_snapshot, entries,
}
use romd_dat_catalogs.Publisher.Feed.{FeedText, feed_bytes}
use romd_dat_catalogs.Publisher.Arguments.{
  Library, Options, Host, is_some, limited, check_arguments, sort_attempts,
}

-- The variables of the second loop.
pub record Loop : Type 0 where
  pub catalogs : Dict Catalog
  pub events : List Event

abbrev pub blank_catalog : String → Catalog
blank_catalog name = record {
  retry_at = none;
  name = name;
  artifact = none;
  last_successful_check = none;
  last_changed = none;
  last_attempt = "";
  health = "";
  error = none;
  counts = none;
  provenance = none;
}

-- `c, exists := s.Catalogs[a.CatalogID]; if !exists { c.Name = a.ExpectedName }`
unfoldable pub entry_of : Attempt → Dict Catalog → Catalog
entry_of a catalogs = elim (lookup a.catalog_id catalogs) [
  | none ↦ blank_catalog a.expected_name
  | some c ↦ c
]

-- An error other than a candidate's becomes "io_failure".
abbrev pub input_read : Read → Result Bytes
input_read (read b) = ok b
input_read too_big = err "size_limit"
input_read broken = err "io_failure"

abbrev pub check_input : Library → String → Result Bytes → Result (Bytes × Counts)
check_input lib name (ok b) = document lib.formats b name
check_input lib name (err e) = err e

abbrev pub read_input : Library → Option String → Result Bytes
read_input lib none = err "panic: nil pointer dereference"
read_input lib (some p) = elim (lib.input p) [
  | none ↦ err "io_failure"
  | some s ↦ input_read (read_bounded s max_input)
]

-- The candidate of an attempt, or the code of what went wrong.
unfoldable pub evaluate : Library → Attempt → Result (Bytes × Counts)
evaluate lib a = elim a.failure [
  | none ↦ check_input lib a.expected_name (read_input lib a.path)
  | some f ↦ err (if f == "publication_paused" then "publication_paused" else "acquisition_failed")
]

unfoldable pub failed_catalog : Attempt → String → Catalog → Catalog
failed_catalog a code c = record c {
  retry_at = if is_some a.retry_at then a.retry_at else c.retry_at;
  health = "failed";
  error = some code;
}

abbrev pub is_changed : Catalog → Reference → Bool
is_changed c artifact = not (c.artifact == some artifact)

unfoldable pub healthy_catalog : Attempt → String → Reference → Counts → Catalog → Catalog
healthy_catalog a stamp artifact counts c =
    let now = record c {
      last_successful_check = some stamp;
      retry_at = none;
      health = "healthy";
      error = none;
    } in
    if is_changed c artifact
    then record now {
      artifact = some artifact;
      last_changed = some stamp;
      counts = some counts;
      provenance = some (record { source_url = a.source_url; acquired_at = stamp });
    }
    else now

unfoldable pub new_event : ℕ → String → Attempt → Catalog → Reference → Event
new_event sequence stamp a c artifact = record {
  id =
      "urn:romd:dat:"
      <> (signed_decimal sequence <> (":" <> (a.catalog_id <> (":" <> artifact.sha256))));
  catalog_id = a.catalog_id;
  name = c.name;
  sequence = sequence;
  published_at = stamp;
  artifact = artifact;
}

-- What the loop does with an artifact that is stored.
unfoldable pub accept : ℕ → String → Attempt → Catalog → Counts → Loop → Reference → Loop
unfolding healthy_catalog new_event
accept sequence stamp a c counts l artifact = record {
  catalogs = insert a.catalog_id (healthy_catalog a stamp artifact counts c) l.catalogs;
  events =
      if is_changed c artifact
      then l.events ++ (new_event sequence stamp a c artifact ∷ [])
      else l.events;
}

unfoldable pub settle :
    Library → ℕ → String → Attempt → Catalog → Result (Bytes × Counts) → Loop → Io Loop
unfolding failed_catalog accept
settle lib sequence stamp a c (err code) l =
    pure (record l { catalogs = insert a.catalog_id (failed_catalog a code c) l.catalogs })
settle lib sequence stamp a c (ok (raw, counts)) l = do
  artifact ← put lib.codec raw "dat"
  pure (accept sequence stamp a c counts l artifact)

-- One round of the second loop.
unfoldable pub process : Library → ℕ → String → Attempt → Loop → Io Loop
unfolding settle
process lib sequence stamp a l = do
  let c = entry_of a l.catalogs
  _ ← lift (
      refuse_if (not (c.name == a.expected_name))
        "registry identity changed; explicit migration required")
  settle lib sequence stamp a (record c { last_attempt = stamp }) (evaluate lib a) l

unfoldable pub process_all : Library → ℕ → String → List Attempt → Loop → Io Loop
process_all lib sequence stamp [] l = pure l
process_all lib sequence stamp (a ∷ rest) l = do
  l' ← process lib sequence stamp a l
  process_all lib sequence stamp rest l'

abbrev pub empty_snapshot : Snapshot
empty_snapshot = record {
  format = "";
  sequence = 0;
  published_at = "";
  catalogs = some [];
  events = [];
  feed = record { path = ""; sha256 = ""; bytes = 0 };
}

abbrev pub first_if_absent : Option Bytes → Result Snapshot → Result Snapshot
first_if_absent present (ok s) = ok s
first_if_absent none (err e) = ok empty_snapshot
first_if_absent (some b) (err e) = err e

-- The prior snapshot, or an empty one where `current.json` does not exist.
unfoldable pub load_prior : Library → Disk → Result Snapshot
load_prior lib d = first_if_absent (lookup "current.json" d.files) (load_snapshot lib.codec d)

-- The publication clock has gone back, or the prior one cannot be read.
unfoldable pub clock_regressed : Library → ℕ → Snapshot → Bool
clock_regressed lib now old =
    not (old.published_at == "") && elim (lib.feed_text.parse_time old.published_at) [
      | none ↦ true
      | some previous ↦ ltb now previous
    ]

abbrev pub clock : Options → Host → ℕ
clock opt host = if opt.now == 0 then host.wall_clock else opt.now

abbrev pub hook : Option (Result (Unit {0})) → Result (Unit {0})
hook none = ok tt
hook (some r) = r

-- The snapshot before its feed is stored.
abbrev pub assemble : Snapshot → String → ℕ → Loop → Snapshot
assemble old stamp limit l = record {
  format = format_name;
  sequence = next64 old.sequence;
  published_at = stamp;
  catalogs = some l.catalogs;
  events = take limit (l.events ++ old.events);
  feed = record { path = ""; sha256 = ""; bytes = 0 };
}

-- The snapshot is stored and read back, with all that it refers to; then the caller's hook runs.
unfoldable pub store_index : Library → Options → Snapshot → Io (Snapshot × Reference)
store_index lib opt s = do
  let b = lib.codec.encode_snapshot s
  _ ← lift (refuse_if (ltb max_metadata (length b)) "metadata size limit")
  ref ← put lib.codec b "json"
  _ ← inspect (verified_read lib.codec ref)
  _ ← inspect (verify_snapshot lib.codec s)
  _ ← lift (hook opt.before_commit)
  pure (s, ref)

-- The feed, then the snapshot with it: everything behind the loop and before the commit.
unfoldable pub store_snapshot : Library → String → Options → Snapshot → Io (Snapshot × Reference)
unfolding store_index
store_snapshot lib base opt assembled = do
  feed ← lift (feed_bytes lib.feed_text assembled.events base)
  feed_ref ← put lib.codec feed "xml"
  store_index lib opt (record assembled { feed = feed_ref })

-- `atomicWrite` of `current.json`: the commit.
unfoldable pub commit : Library → Snapshot × Reference → Io Snapshot
commit lib (s, ref) = do
  _ ← atomic_write "current.json" (
      lib.codec.encode_current (record {
        format = format_name;
        trust = trust_name;
        sequence = s.sequence;
        snapshot = ref;
      }))
  pure s

-- Everything before the commit.
unfoldable pub prepare :
    Library → Host → List Attempt → String → Options → Io (Snapshot × Reference)
unfolding check_arguments process_all
prepare lib host attempts base opt = do
  _ ← lift (check_arguments lib attempts base opt)
  _ ← lift host.opened
  old ← inspect (load_prior lib)
  _ ← lift (
      refuse_if (clock_regressed lib (clock opt host) old) "invalid or regressed publication clock")
  let stamp = lib.format_time (clock opt host)
  l ←
      process_all lib (next64 old.sequence) stamp (sort_attempts attempts)
        (record { catalogs = entries old.catalogs; events = [] })
  store_snapshot lib (trim_right_slash base <> "/") opt
      (assemble old stamp (limited opt.feed_limit) l)

-- `Publish`
unfoldable pub publish : Library → Host → List Attempt → String → Options → Io Snapshot
publish lib host attempts base opt = do
  stored ← prepare lib host attempts base opt
  commit lib stored
