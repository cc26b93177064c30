-- ===== src/Distribution/Recovery.antt =====
-- internal/distribution/git.go: `RestorePublication`, which rebuilds a state directory from an
-- authenticated index. What is returned is the directory that then stands at the destination;
-- after an error nothing of this run stands there.
pub mod Framed
pub mod Reloaded
use romd_dat_catalogs.Prelude.{
  ℕ, String, Bool, not, ◌||◌, Option, none, some, [], ltb, if◌then◌else◌, ◌==◌, string_eq, Result,
  ok, err, ◌>>=◌, ◌>>◌, refuse_if,
}
use romd_dat_catalogs.Prelude.Dict.{insert}
use romd_dat_catalogs.Prelude.Text.{codes, decimal}
use romd_dat_catalogs.Publisher.{Bytes}
use romd_dat_catalogs.Publisher.Disk.{Disk}
use romd_dat_catalogs.Publisher.Objects.{entries}
use romd_dat_catalogs.Publisher.Arguments.{Library}
use romd_dat_catalogs.Publisher.Latest.Restore.{Place, restore_latest}
use romd_dat_catalogs.Definitions.{Registry}
use romd_dat_catalogs.Definitions.Validate.{validate}
use romd_dat_catalogs.Distribution.{Net, Index, git_format, old_format, fetch_asset}
use romd_dat_catalogs.Distribution.Git.{fetch_documents}
use romd_dat_catalogs.Distribution.Restore.{Host, restore_state, version_file}

-- The client, the empty temporary directory, and what is written beside the publication.
pub record Goal : Type 0 where
  pub net : Net
  pub library : Library
  pub place : Place
  pub blank : Disk
  pub host : Host
  pub to_lower : String → String
  pub encode_definitions : Registry → Result Bytes
  pub cannot_write : String → Bool

-- `save`
unfoldable pub keep : Goal → String → Bytes → Disk → Result Disk
keep goal name b d =
    if goal.cannot_write name
    then err "io failure"
    else ok (record d { files = insert name b d.files })

abbrev pub definitions_file : String
definitions_file = ".definitions.json"

unfoldable pub keep_definitions : Goal → Option Registry → Disk → Result Disk
unfolding keep
keep_definitions goal none d = ok d
keep_definitions goal (some registry) d = do
  validate goal.to_lower registry
  b ← goal.encode_definitions registry
  keep goal definitions_file b d

unfoldable pub keep_version : Goal → ℕ → Disk → Result Disk
unfolding keep
keep_version goal version d = keep goal version_file (codes (decimal version)) d

abbrev pub standing : Result (Unit {0}) × Disk → Result Disk
standing (ok u, d) = ok d
standing (err e, d) = err e

unfoldable pub restore_git : Goal → Index → Result Disk
unfolding keep_definitions keep_version
restore_git goal index = do
  refuse_if (not (index.format == git_format) || ltb index.version 1) "unsupported catalog"
  docs ← fetch_documents goal.net index.downloads (entries index.snapshot.catalogs) []
  d ← standing (restore_latest goal.library goal.place index.snapshot docs goal.blank)
  d' ← keep_definitions goal index.definitions d
  keep_version goal index.version d'

-- `RestorePublication`
unfoldable pub restore_publication : Goal → Index → Result Disk
unfolding restore_git
restore_publication goal index =
    if index.format == old_format
    then fetch_asset goal.net index.state >>= restore_state goal.host index
    else restore_git goal index
