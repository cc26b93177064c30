-- ===== src/Distribution/Restore.antt =====
-- internal/distribution/stage.go: `RestoreState`, which unpacks a downloaded state archive into a
-- new directory. archive/zip is a parameter, as is what the disk refuses.
pub mod Bounded
use romd_dat_catalogs.Prelude.{
  ℕ, ◌+◌, ◌-◌, String, ◌<>◌, Bool, true, false, not, ◌&&◌, ◌||◌, List, [], ◌∷◌, length, ltb,
  if◌then◌else◌, ◌==◌, contains, string_eq, nat_eq, Result, ok, err, ◌>>=◌, ◌>>◌, refuse_if,
}
use romd_dat_catalogs.Prelude.Dict.{Dict, insert}
use romd_dat_catalogs.Prelude.Text.{codes, has_part, has_prefix, decimal}
use romd_dat_catalogs.Publisher.{Bytes, Snapshot, Stream, Read, read, too_big, broken, read_bounded}
use romd_dat_catalogs.Publisher.Disk.{Disk}
use romd_dat_catalogs.Publisher.Objects.{Codec, load_snapshot}
use romd_dat_catalogs.Definitions.Parse.{equal}
use romd_dat_catalogs.Distribution.{Index, max_state}

-- A file of an archive, and what opening it gives.
pub record Entry : Type 0 where
  pub name : String
  pub is_regular : Bool
  pub opened : Result Stream

-- What the restore takes from elsewhere: the disk's refusals, and the archive reader.
pub record Host : Type 0 where
  pub codec : Codec
  pub unzip : Bytes → Result (List Entry)
  pub destination_exists : Bool
  pub make_temporary : Result (Unit {0})
  pub cannot_write : String → Bool
  pub unreadable : String → Bool
  pub rename : Result (Unit {0})

unfoldable pub is_safe : String → Bool
unfolding string_eq has_part has_prefix
is_safe name =
    not (has_part (codes name) (codes "\\"))
    && not (has_part (codes name) (codes ".."))
    && not (has_prefix (codes name) (codes "/"))
    && (name == "current.json" || has_prefix (codes name) (codes "objects/"))

-- `save`
unfoldable pub save : Host → String → Bytes → Dict Bytes → Result (Dict Bytes)
save h name b files = if h.cannot_write name then err "io failure" else ok (insert name b files)

abbrev pub expanded : Read → Result Bytes
expanded (read b) = ok b
expanded too_big = err "expanded state limit"
expanded broken = err "unexpected EOF"

-- A round of the loop: the file's bytes, of which `total` are taken already.
unfoldable pub read_entry : List String → ℕ → Entry → Result Bytes
read_entry seen total f = do
  refuse_if (contains seen f.name || not f.is_regular || not (is_safe f.name))
      "unsafe state archive"
  r ← f.opened
  expanded (read_bounded r (max_state - total))

-- The loop over the files, with `seen` and `total`.
unfoldable pub unpack : Host → List Entry → List String → ℕ → Dict Bytes → Result (Dict Bytes)
unfolding read_entry save
unpack h [] seen total files = ok files
unpack h (f ∷ rest) seen total files = do
  b ← read_entry seen total f
  files' ← save h f.name b files
  unpack h rest (f.name ∷ seen) (total + length b) files'

abbrev pub directory : Host → Dict Bytes → Disk
directory h files = record { files = files; unreadable = h.unreadable; write_faults = [] }

unfoldable pub check_archive : Host → Index → Bytes → Result (Unit {0})
check_archive h index raw = do
  refuse_if (not (length raw == index.state.bytes) || not (h.codec.hash raw == index.state.sha256))
      "state integrity failure"
  refuse_if (ltb max_state (length raw)) "state size limit"
  refuse_if h.destination_exists "restore destination must not exist"

abbrev pub version_file : String
version_file = ".distribution-version"

-- What is done with the unpacked files: the directory that then stands at the destination.
unfoldable pub settle : Host → Index → Dict Bytes → Result Disk
settle h index files = do
  restored ← load_snapshot h.codec (directory h files)
  refuse_if
      (not (equal (h.codec.encode_snapshot restored) (h.codec.encode_snapshot index.snapshot)))
      "state/index mismatch"
  files' ← save h version_file (codes (decimal index.version)) files
  h.rename
  ok (directory h files')

-- `RestoreState`
unfoldable pub restore_state : Host → Index → Bytes → Result Disk
unfolding check_archive unpack settle
restore_state h index raw = do
  check_archive h index raw
  entries ← h.unzip raw
  h.make_temporary
  files ← unpack h entries [] 0 []
  settle h index files
