-- ===== src/Publisher/Latest/Restore.antt =====
-- internal/publisher/latest.go: `RestoreLatest`, which rebuilds a publication directory from a
-- snapshot and its documents. The directory is built aside and renamed into place.
pub mod Loads
use romd_dat_catalogs.Prelude.{
  ℕ, String, Bool, true, false, not, ◌||◌, Option, none, some, List, [], ◌∷◌, length, if◌then◌else◌,
  ◌==◌, string_eq, nat_eq, Result, ok, err, refuse_if,
}
use romd_dat_catalogs.Prelude.Dict.{Dict, lookup}
use romd_dat_catalogs.Prelude.Words.{below_one64}
use romd_dat_catalogs.Publisher.{
  Bytes, Counts, Reference, reference_eq, Catalog, Snapshot, Current, format_name, trust_name,
}
use romd_dat_catalogs.Publisher.Document.{document}
use romd_dat_catalogs.Publisher.Disk.{Disk, Io, pure, lift, inspect, ◌>>=◌, atomic_write}
use romd_dat_catalogs.Publisher.Objects.{put, verify_snapshot, entries, is_nil}
use romd_dat_catalogs.Publisher.Feed.{feed_bytes}
use romd_dat_catalogs.Publisher.Arguments.{Library}

-- What the destination and the temporary directory meet.
pub record Place : Type 0 where
  pub destination_exists : Bool
  pub make_temporary : Result (Unit {0})
  pub rename : Result (Unit {0})

abbrev is_extracted : Library → Bytes → Result (Bytes × Counts) → Bool
is_extracted lib b (err e) = false
is_extracted lib b (ok (doc, _)) = lib.codec.hash doc == lib.codec.hash b

-- The document of a catalog, bound to its artifact.
unfoldable pub bound_document : Library → String → Reference → Option Bytes → Result Bytes
bound_document lib name r none = err "document binding mismatch"
bound_document lib name r (some b) =
    if not (lib.codec.hash b == r.sha256) || not (length b == r.bytes)
    then err "document binding mismatch"
    else if is_extracted lib b (document lib.formats b name)
    then ok b
    else err "invalid extracted document"

unfoldable pub restore_one : Library → Dict Bytes → String → Option Reference → Io (Unit {0})
restore_one lib documents name none = pure tt
restore_one lib documents name (some r) =
    lift (bound_document lib name r (lookup r.path documents)) >>= λ b.
    put lib.codec b "dat" >>= λ ref. lift (refuse_if (not (ref == r)) "invalid document reference")

-- The loop over the catalogs.
unfoldable pub restore_documents : Library → Dict Bytes → Dict Catalog → Io (Unit {0})
restore_documents lib documents [] = pure tt
restore_documents lib documents ((id, c) ∷ rest) =
    restore_one lib documents c.name c.artifact >>= λ _. restore_documents lib documents rest

-- The snapshot and the pointer to it, when all that it names is there.
unfoldable pub restore_index : Library → Snapshot → Io (Unit {0})
restore_index lib s = inspect (verify_snapshot lib.codec s) >>= λ _.
    put lib.codec (lib.codec.encode_snapshot s) "json" >>= λ ref. atomic_write "current.json" (
      lib.codec.encode_current (record {
        format = format_name;
        trust = trust_name;
        sequence = s.sequence;
        snapshot = ref;
      }))

unfoldable pub restore_feed : Library → Snapshot → Io (Unit {0})
unfolding restore_index
restore_feed lib s =
    lift (feed_bytes lib.feed_text s.events "https://catalogs.example.invalid/") >>= λ feed.
    put lib.codec feed "xml" >>= λ ref.
    lift (refuse_if (not (ref == s.feed)) "feed binding mismatch") >>= λ _. restore_index lib s

unfoldable pub bad_latest : Snapshot → Bool
bad_latest s = not (s.format == format_name) || below_one64 s.sequence || is_nil s.catalogs

-- `RestoreLatest`, on the temporary directory.
unfoldable pub restore_latest : Library → Place → Snapshot → Dict Bytes → Io (Unit {0})
unfolding restore_documents restore_feed
restore_latest lib place s documents =
    lift (refuse_if (bad_latest s) "invalid latest snapshot") >>= λ _.
    lift (refuse_if place.destination_exists "restore destination must not exist") >>= λ _.
    lift place.make_temporary >>= λ _. restore_documents lib documents (entries s.catalogs) >>= λ _.
    restore_feed lib s >>= λ _. lift place.rename
