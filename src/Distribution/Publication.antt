-- ===== src/Distribution/Publication.antt =====
-- internal/distribution/git.go: `StageGit`, from the checks of its arguments and of what was
-- published before to the signing. The directories, the disk and the TUF library are parameters.
pub mod Staged
use romd_dat_catalogs.Prelude.{
  ℕ, ◌-◌, String, ◌<>◌, Bool, true, false, not, ◌&&◌, ◌||◌, Option, none, some, List, [], ◌∷◌, ◌++◌,
  length, ltb, leb, if◌then◌else◌, ◌==◌, string_eq, nat_eq, Result, ok, err, ◌>>=◌, ◌>>◌, refuse_if,
}
use romd_dat_catalogs.Prelude.Dict.{Dict, lookup}
use romd_dat_catalogs.Prelude.Text.{codes, has_prefix}
use romd_dat_catalogs.Prelude.Regex.{match_string}
use romd_dat_catalogs.Publisher.{Bytes, Catalog, Snapshot}
use romd_dat_catalogs.Publisher.Disk.{Disk}
use romd_dat_catalogs.Publisher.Objects.{Codec, load_snapshot, entries}
use romd_dat_catalogs.Publisher.Feed.{FeedText}
use romd_dat_catalogs.Publisher.Latest.{latest}
use romd_dat_catalogs.Definitions.{Registry}
use romd_dat_catalogs.Definitions.Parse.{Json, Folder, load}
use romd_dat_catalogs.Definitions.Validate.{compatible}
use romd_dat_catalogs.Distribution.{Asset, Index, git_repository, git_commit, git_format}
use romd_dat_catalogs.Distribution.Git.{stage_downloads}
use romd_dat_catalogs.Distribution.Stage.{Tuf, Desk, StageOptions, Layers, read_root, sign_index}

-- What is there before: the state directory and its two files beside the publication, and what the
-- options say of the output and of the keys. `scan` is `fmt.Sscan`, with 0 for a number below 0.
pub record Ground : Type 0 where
  pub codec : Codec
  pub text : FeedText
  pub json : Json
  pub state : Disk
  pub folder : Folder
  pub has_definitions : Bool
  pub version_file : Result (Option Bytes)
  pub scan : Bytes → Option ℕ
  pub output_missing : Bool
  pub has_root_key : Bool

-- A round of `bytes.ReplaceAll` for a text that is not empty; `skip` code points belong to a match.
unfoldable pub replace_from : Bytes → Bytes → ℕ → Bytes → Bytes
unfolding nat_eq has_prefix
replace_from old new skip [] = []
replace_from old new skip (c ∷ cs) =
    let here = skip == 0 && has_prefix (c ∷ cs) old in
    let rest = replace_from old new (if here then length old - 1 else skip - 1) cs in
    (if here then new else if skip == 0 then c ∷ [] else []) ++ rest

abbrev pub replace_all : Bytes → String → String → Bytes
replace_all b old new = replace_from (codes old) (codes new) 0 b

abbrev link_host : String
link_host = "https://catalogs.example.invalid/"

unfoldable pub link_downloads : Dict Asset → Bytes → Bytes
link_downloads [] feed = feed
link_downloads ((path, a) ∷ rest) feed =
    link_downloads rest (replace_all feed (link_host <> path) a.url)

unfoldable pub link_feed : String → Dict Asset → Bytes → Bytes
unfolding link_downloads
link_feed repository downloads feed =
    replace_all (link_downloads downloads feed) link_host
      ("https://github.com/" <> (repository <> "/"))

abbrev pub synthetic : String
synthetic = "synthetic/console/standard"

-- The name that a catalog's definition expects, or the fixture without one.
abbrev pub is_bound : Registry → String → Catalog → Bool
is_bound registry id c = elim (lookup id registry.catalogs) [
  | none ↦ id == synthetic
  | some definition ↦ definition.expected_name == c.name
]

unfoldable pub check_bound : Registry → Dict Catalog → Result (Unit {0})
check_bound registry [] = ok tt
check_bound registry ((id, c) ∷ rest) = do
  refuse_if (not (is_bound registry id c)) "catalog %q is not bound to its definition"
  check_bound registry rest

unfoldable pub check_options : Ground → StageOptions → String → String → Result (Unit {0})
check_options g opt repository commit = do
  refuse_if (not (match_string git_repository repository) || not (match_string git_commit commit))
      "data repository and full Git commit required"
  refuse_if (ltb opt.version 1 || opt.now == 0) "version and publication time required"
  refuse_if (not g.output_missing) "staging output must not exist"
  refuse_if g.has_root_key "offline root key must not be available to publication"

abbrev pub is_behind : ℕ → Option ℕ → Bool
is_behind version none = true
is_behind version (some previous) = leb version previous

abbrev pub not_advanced : Ground → ℕ → Option Bytes → Bool
not_advanced g version none = false
not_advanced g version (some b) = is_behind version (g.scan b)

unfoldable pub check_version : Ground → StageOptions → Result (Unit {0})
check_version g opt = do
  o ← g.version_file
  refuse_if (not_advanced g opt.version o) "publication version must advance"

unfoldable pub load_previous : Ground → Result (Option Registry)
unfolding load
load_previous g =
    if g.has_definitions
    then (load g.json g.folder ".definitions.json" >>= λ r. ok (some r))
    else ok none

-- The definitions of the options against the previous ones and against the catalogs.
abbrev pub check_definitions :
    Json → Option Registry → Option Registry → Dict Catalog → Result (Unit {0})
check_definitions json none none catalogs = ok tt
check_definitions json none (some previous) catalogs = err "cannot remove published definitions"
check_definitions json (some registry) previous catalogs =
    compatible json.to_lower registry previous >> check_bound registry catalogs

-- What `StageGit` signs.
abbrev pub git_index : StageOptions → Snapshot → Dict Asset → Index
git_index opt s downloads = record {
  definitions = opt.definitions;
  format = git_format;
  version = opt.version;
  snapshot = s;
  state = record { url = ""; sha256 = ""; bytes = 0 };
  downloads = downloads;
}

-- What is checked of the root and of the state before anything is built.
unfoldable pub admit :
    {M : Type 0} → Tuf M → Desk → Ground → StageOptions → String → String → Result Snapshot
unfolding check_options check_version load_previous check_bound
admit tuf desk g opt repository commit = do
  check_options g opt repository commit
  root ← read_root tuf desk
  refuse_if (not (ltb opt.now (tuf.expires root))) "root expired; rotate offline"
  check_version g opt
  s ← load_snapshot g.codec g.state
  previous ← load_previous g
  check_definitions g.json opt.definitions previous (entries s.catalogs)
  ok s

-- `StageGit`. The test of the arguments in `stage_downloads` is the first one of `check_options`.
unfoldable pub stage_git :
    {M : Type 0}
    → Tuf M
    → Desk
    → Ground
    → StageOptions
    → String
    → String
    → Result (Index × Layers M × Dict Bytes)
unfolding admit link_feed
stage_git tuf desk g opt repository commit = do
  s ← admit tuf desk g opt repository commit
  view ← latest g.codec g.text s
  downloads ← stage_downloads repository commit (entries view.0.catalogs)
  sign_index tuf desk opt (git_index opt view.0 downloads) (link_feed repository downloads view.1)
