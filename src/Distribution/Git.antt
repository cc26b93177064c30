-- ===== src/Distribution/Git.antt =====
-- internal/distribution/git.go: stable data paths, the downloads that an index names, and their
-- check.
pub mod Bound
use romd_dat_catalogs.Prelude.{
  ℕ, ◌+◌, String, ◌<>◌, Bool, true, false, not, ◌&&◌, ◌||◌, Option, none, some, List, [], ◌∷◌,
  if◌then◌else◌, ◌==◌, string_eq, nat_eq, Result, ok, err, ◌>>=◌, ◌>>◌, refuse_if, refuse_if-passed,
  >>=-eq-ok, ◌≡◌, refl, sym, subst, ap, ◌∙◌, ◌⊎◌, inl, inr, arith, All, Option-cases, Bool-cases,
}
use romd_dat_catalogs.Prelude.Dict.{Dict, lookup, insert, lookup-insert, lookup-cons}
use romd_dat_catalogs.Prelude.Text.{text_lt}
use romd_dat_catalogs.Prelude.Regex.{match_string}
use romd_dat_catalogs.Publisher.{Bytes, Reference, Catalog}
use romd_dat_catalogs.Publisher.Disk.{Disk}
use romd_dat_catalogs.Publisher.Objects.{Codec, verified_read}
use romd_dat_catalogs.Publisher.Objects.Laws.{verified_read_sound}
use romd_dat_catalogs.Distribution.{
  Asset, Index, Net, git_catalog, git_repository, git_commit, git_asset_url, git_format, old_format,
  fetch_asset, fetch_asset_sound,
}

-- `save`, into a checkout where it may fail.
abbrev save : (String → Bool) → String → Bytes → Dict Bytes → Result (Dict Bytes)
save fails name b files = if fails name then err "io failure" else ok (insert name b files)

-- One round of `ExportData`.
unfoldable pub export_one :
    Codec → Disk → (String → Bool) → String → Option Reference → Dict Bytes → Result (Dict Bytes)
export_one codec d fails id none files = ok files
export_one codec d fails id (some r) files = do
  b ← verified_read codec r d
  save fails (id <> ".dat") b files

-- The loop of `ExportData`, on the catalogs of the loaded snapshot.
unfoldable pub export_data :
    Codec → Disk → (String → Bool) → Dict Catalog → Dict Bytes → Result (Dict Bytes)
export_data codec d fails [] files = ok files
export_data codec d fails ((id, c) ∷ rest) files = do
  refuse_if (not (match_string git_catalog id)) "unsupported data catalog path"
  files' ← export_one codec d fails id c.artifact files
  export_data codec d fails rest files'

-- The catalogs by identifier, `sort.Strings`.
unfoldable pub insert_entry : String × Catalog → Dict Catalog → Dict Catalog
insert_entry e [] = e ∷ []
insert_entry (id, c) ((j, k) ∷ rest) =
    if text_lt j id then (j, k) ∷ insert_entry (id, c) rest else (id, c) ∷ (j, k) ∷ rest

unfoldable pub sort_entries : Dict Catalog → Dict Catalog
unfolding insert_entry
sort_entries [] = []
sort_entries (e ∷ rest) = insert_entry e (sort_entries rest)

abbrev asset_of : String → String → String → Reference → Asset
asset_of repository commit id r = record {
  url =
      "https://raw.githubusercontent.com/"
      <> (repository <> ("/" <> (commit <> ("/" <> (id <> ".dat")))));
  sha256 = r.sha256;
  bytes = r.bytes;
}

-- Documents that catalogs share share a download.
abbrev if_absent : String → Asset → Dict Asset → Option Asset → Dict Asset
if_absent p a d none = insert p a d
if_absent p a d (some b) = d

abbrev add_download : String → String → String → Option Reference → Dict Asset → Dict Asset
add_download repository commit id none d = d
add_download repository commit id (some r) d =
    if_absent r.path (asset_of repository commit id r) d (lookup r.path d)

unfoldable pub stage_each : String → String → Dict Catalog → Dict Asset → Result (Dict Asset)
stage_each repository commit [] d = ok d
stage_each repository commit ((id, c) ∷ rest) d = do
  refuse_if (not (match_string git_catalog id)) "unsupported data catalog path"
  stage_each repository commit rest (add_download repository commit id c.artifact d)

-- The downloads of `StageGit`.
unfoldable pub stage_downloads : String → String → Dict Catalog → Result (Dict Asset)
unfolding stage_each sort_entries
stage_downloads repository commit catalogs = do
  refuse_if (not (match_string git_repository repository) || not (match_string git_commit commit))
      "data repository and full Git commit required"
  stage_each repository commit (sort_entries catalogs) []

unfoldable pub bad_binding : Reference → Asset → Bool
bad_binding r a =
    not (a.sha256 == r.sha256) || not (a.bytes == r.bytes) || not (match_string git_asset_url a.url)

abbrev bound : Reference → Option Asset → Result Asset
bound r none = err "invalid Git document binding"
bound r (some a) = if bad_binding r a then err "invalid Git document binding" else ok a

abbrev fetch_new : Net → String → Asset → Option Bytes → Dict Bytes → Result (Dict Bytes)
fetch_new net p a none docs = fetch_asset net a >>= λ b. ok (insert p b docs)
fetch_new net p a (some b) docs = ok docs

unfoldable pub fetch_one : Net → Dict Asset → Option Reference → Dict Bytes → Result (Dict Bytes)
fetch_one net downloads none docs = ok docs
fetch_one net downloads (some r) docs = do
  a ← bound r (lookup r.path downloads)
  fetch_new net r.path a (lookup r.path docs) docs

-- The loop of `RestorePublication`.
unfoldable pub fetch_documents : Net → Dict Asset → Dict Catalog → Dict Bytes → Result (Dict Bytes)
fetch_documents net downloads [] docs = ok docs
fetch_documents net downloads ((id, c) ∷ rest) docs = do
  docs' ← fetch_one net downloads c.artifact docs
  fetch_documents net downloads rest docs'

unfoldable pub verify_each : Net → Bool → Dict Asset → Result (Unit {0})
verify_each net is_git [] = ok tt
verify_each net is_git ((p, a) ∷ rest) = do
  refuse_if (is_git && not (match_string git_asset_url a.url)) "expected immutable Git DAT URL"
  fetch_asset net a
  verify_each net is_git rest

unfoldable pub verify_state : Net → Index → Result (Unit {0})
verify_state net index =
    if index.format == old_format
    then fetch_asset net index.state >> ok tt
    else refuse_if (not (index.format == git_format)) "unsupported catalog"

-- `VerifyDownloads`
unfoldable pub verify_downloads : Net → Index → Result (Unit {0})
unfolding verify_each verify_state
verify_downloads net index = do
  verify_each net (index.format == git_format) index.downloads
  verify_state net index
