-- ===== src/Publisher/Objects.antt =====
-- internal/publisher/publisher.go: content-addressed objects, and loading a snapshot.
pub mod Laws
use romd_dat_catalogs.Prelude.{
  ℕ, String, ◌<>◌, Bool, true, false, not, ◌||◌, Option, none, some, List, [], ◌∷◌, length, ltb,
  if◌then◌else◌, ◌==◌, string_eq, nat_eq,
}
use romd_dat_catalogs.Prelude.{Result, ok, err, ◌>>=◌, ◌>>◌, refuse_if}
use romd_dat_catalogs.Prelude.Dict.{Dict}
use romd_dat_catalogs.Prelude.Text.{codes}
use romd_dat_catalogs.Prelude.Words.{below_one64}
use romd_dat_catalogs.Prelude.Regex.{Regex, both, either, one_of, times, word, match_string}
use romd_dat_catalogs.Publisher.{
  Bytes, bytes_eq, Reference, Catalog, Event, Snapshot, Current, max_document, max_metadata,
  format_name, trust_name,
}
use romd_dat_catalogs.Publisher.Disk.{
  Disk, Io, returning, missing, failed, loaded, Load, read_file, atomic_write,
}

-- crypto/sha256 in hexadecimal, and encoding/json on the two metadata types.
pub record Codec : Type 0 where
  pub hash : Bytes → String
  pub encode_snapshot : Snapshot → Bytes
  pub decode_snapshot : Bytes → Result Snapshot
  pub encode_current : Current → Bytes
  pub decode_current : Bytes → Result Current

abbrev hex : Regex
hex = one_of ((b'0', b'9') ∷ (b'a', b'f') ∷ [])

-- `^objects/[0-9a-f]{64}\.(dat|json|xml)$`
unfoldable pub object_path : Regex
object_path = both (word (codes "objects/")) (
    both (times 64 hex) (
      both (word (codes "."))
        (either (word (codes "dat")) (either (word (codes "json")) (word (codes "xml"))))))

-- `Reference{...}` of `put`
abbrev pub reference : Codec → Bytes → String → Reference
reference codec b suffix = record {
  path = "objects/" <> (codec.hash b <> ("." <> suffix));
  sha256 = codec.hash b;
  bytes = length b;
}

-- What stands at the object's path decides: nothing, the same bytes, or an error.
unfoldable pub put_at : Reference → Bytes → Load → Io Reference
put_at r b missing d = returning (atomic_write r.path b) r d
put_at r b (failed e) d = (err e, d)
put_at r b (loaded old) d = if old == b then (ok r, d) else (err "immutable object corruption", d)

-- `put`
unfoldable pub put : Codec → Bytes → String → Io Reference
unfolding put_at
put codec b suffix d =
    let r = reference codec b suffix in put_at r b (read_file d r.path max_document) d

abbrev pub check_object : Codec → Reference → Load → Result Bytes
check_object codec r missing = err "no such file"
check_object codec r (failed e) = err e
check_object codec r (loaded b) =
    if not (length b == r.bytes) || not (codec.hash b == r.sha256)
    then err "object integrity failure"
    else ok b

-- `VerifiedRead`
unfoldable pub verified_read : Codec → Reference → Disk → Result Bytes
verified_read codec r d = do
  refuse_if (not (match_string object_path r.path)) "invalid object path"
  check_object codec r (read_file d r.path max_document)

unfoldable pub verify_catalogs : Codec → Dict Catalog → Disk → Result (Unit {0})
verify_catalogs codec [] d = ok tt
verify_catalogs codec ((id, c) ∷ rest) d = elim c.artifact [
  | none ↦ verify_catalogs codec rest d
  | some r ↦ do verified_read codec r d; verify_catalogs codec rest d
]

unfoldable pub verify_events : Codec → List Event → Disk → Result (Unit {0})
verify_events codec [] d = ok tt
verify_events codec (e ∷ rest) d = do verified_read codec e.artifact d; verify_events codec rest d

-- The range over a map, which may be nil.
abbrev pub entries {ℓ} : {A : Type ℓ} → Option (Dict A) → Dict A
entries none = []
entries (some d) = d

abbrev pub is_nil {ℓ} : {A : Type ℓ} → Option A → Bool
is_nil none = true
is_nil (some a) = false

-- `verifySnapshot`
unfoldable pub verify_snapshot : Codec → Snapshot → Disk → Result (Unit {0})
unfolding verify_catalogs verify_events
verify_snapshot codec s d = do
  verified_read codec s.feed d
  verify_catalogs codec (entries s.catalogs) d
  verify_events codec s.events d

abbrev pub load_result : Load → Result Bytes
load_result missing = err "no such file"
load_result (failed e) = err e
load_result (loaded b) = ok b

-- `LoadSnapshot`
unfoldable pub load_snapshot : Codec → Disk → Result Snapshot
load_snapshot codec d = do
  raw ← load_result (read_file d "current.json" max_metadata)
  c ← codec.decode_current raw
  refuse_if (not (c.format == format_name) || not (c.trust == trust_name)) "unsupported metadata"
  b ← verified_read codec c.snapshot d
  refuse_if (ltb max_metadata (length b)) "metadata size limit"
  s ← codec.decode_snapshot b
  refuse_if
      (not (s.format == format_name)
        || not (s.sequence == c.sequence)
        || below_one64 s.sequence
        || is_nil s.catalogs)
      "invalid snapshot"
  verify_snapshot codec s d
  ok s
