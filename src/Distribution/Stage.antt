-- ===== src/Distribution/Stage.antt =====
-- internal/distribution: `signIndex` (stage.go) and `readRoot` (keys.go). The TUF library, the
-- clock and the disk are parameters, and `signer` is part of a role's signing; a staged site is
-- its files.
pub mod Signed
use mathlib.Core.List.{reverse}
use romd_dat_catalogs.Prelude.{
  ℕ, ◌+◌, ◌*◌, String, ◌<>◌, Bool, true, false, not, ◌&&◌, ◌||◌, Option, none, some, List, [], ◌∷◌,
  ltb, leb, if◌then◌else◌, ◌==◌, string_eq, nat_eq, Result, ok, err, ◌>>=◌, ◌>>◌, refuse_if,
}
use romd_dat_catalogs.Prelude.Dict.{Dict, lookup, insert}
use romd_dat_catalogs.Prelude.Text.{codes, decimal, has_prefix}
use romd_dat_catalogs.Publisher.{Bytes}
use romd_dat_catalogs.Definitions.{Registry}
use romd_dat_catalogs.Distribution.{Index}

-- What is used of the TUF library, over its metadata `M`. A role's key signs, and a root verifies.
pub record Tuf (M : Type 0) : Type 0 where
  pub scan_name : String → Option (ℕ × String)
  pub read_root : String → Result M
  pub version : M → ℕ
  pub expires : M → ℕ
  pub targets : (expires version : ℕ) → Dict Bytes → Result M
  pub snapshot : (expires version : ℕ) → Bytes → M
  pub timestamp : (expires version : ℕ) → Bytes → M
  pub sign : String → M → Result M
  pub verify : M → String → M → Result (Unit {0})
  pub to_bytes : M → Result Bytes

-- The directory of the roots, and what is written of JSON and to the site.
pub record Desk : Type 0 where
  pub roots : Result (List String)
  pub read_root_bytes : String → Result Bytes
  pub encode_index : Index → Result Bytes
  pub encode_definitions : Registry → Result Bytes
  pub hash : Bytes → String
  pub cannot_write : String → Bool

pub record StageOptions : Type 0 where
  pub definitions : Option Registry
  pub version : ℕ
  pub now : ℕ

unfoldable pub save : Desk → String → Bytes → Dict Bytes → Result (Dict Bytes)
save desk name b site = if desk.cannot_write name then err "io failure" else ok (insert name b site)

module _ {M : Type 0} (tuf : Tuf M) where
  abbrev newer : Option M → M → M
  newer none r = r
  newer (some best) r = if ltb (tuf.version best) (tuf.version r) then r else best

  abbrev is_versioned : Option (ℕ × String) → Option ℕ
  is_versioned none = none
  is_versioned (some (v, rest)) = if rest == "json" then some v else none

  unfoldable pub take_root : String → Option M → Option ℕ → Result (Option M)
  take_root name best none = ok best
  take_root name best (some v) = do
    r ← tuf.read_root name
    refuse_if (not (tuf.version r == v)) "root filename/version mismatch"
    ok (some (newer best r))

  unfoldable pub pick_root : List String → Option M → Result (Option M)
  pick_root [] best = ok best
  pick_root (name ∷ rest) best =
      take_root name best (is_versioned (tuf.scan_name name)) >>= pick_root rest

  abbrev pub self_signed : Option M → Result M
  self_signed none = err "missing versioned root"
  self_signed (some r) = tuf.verify r "root" r >> ok r

  -- `readRoot`
  unfoldable pub read_root : Desk → Result M
  unfolding pick_root
  read_root desk = do entries ← desk.roots; best ← pick_root entries none; self_signed best

  -- Metadata of a role, signed and verified, with its bytes.
  unfoldable pub sign_role : M → String → M → Result (M × Bytes)
  sign_role root role m = do
    signed ← tuf.sign role m
    tuf.verify root role signed
    b ← tuf.to_bytes signed
    ok (signed, b)

abbrev pub day : ℕ
day = 86400000000000

-- The targets of the site, in the order in which the range meets them.
unfoldable pub save_targets : Desk → Dict Bytes → Dict Bytes → Result (Dict Bytes)
save_targets desk [] site = ok site
save_targets desk ((name, b) ∷ rest) site = do
  site' ← save desk ("targets/" <> (desk.hash b <> ("." <> name))) b site
  save_targets desk rest site'

abbrev pub with_definitions :
    Desk → Option Registry → Dict Bytes → Dict Bytes → Result (Dict Bytes × Dict Bytes)
with_definitions desk none files site = ok (files, site)
with_definitions desk (some registry) files site = do
  b ← desk.encode_definitions registry
  site' ← save desk "catalog-definitions.json" b site
  ok (insert "catalog-definitions.json" b files, site')

abbrev is_root : String → Bool
is_root name = has_prefix (reverse (codes name)) (reverse (codes ".root.json"))

unfoldable pub copy_roots : Desk → List String → Dict Bytes → Result (Dict Bytes)
unfolding has_prefix
copy_roots desk [] site = ok site
copy_roots desk (name ∷ rest) site = do
  site' ←
      if is_root name
      then (desk.read_root_bytes name >>= λ b. save desk ("metadata/" <> name) b site)
      else ok site
  copy_roots desk rest site'

unfoldable pub save_all : Desk → Dict Bytes → Dict Bytes → Result (Dict Bytes)
save_all desk [] site = ok site
save_all desk ((name, b) ∷ rest) site = save desk name b site >>= save_all desk rest

-- The three layers of the metadata, each over the bytes of the one below.
pub record Layers (M : Type 0) : Type 0 where
  pub targets : M × Bytes
  pub snapshot : M × Bytes
  pub timestamp : M × Bytes

unfoldable pub sign_layers :
    {M : Type 0} → Tuf M → M → StageOptions → Dict Bytes → Result (Layers M)
sign_layers tuf root opt files = do
  unsigned ← tuf.targets (opt.now + 30 * day) opt.version files
  t ← sign_role tuf root "targets" unsigned
  s ← sign_role tuf root "snapshot" (tuf.snapshot (opt.now + 7 * day) opt.version t.1)
  u ← sign_role tuf root "timestamp" (tuf.timestamp (opt.now + 2 * day) opt.version s.1)
  ok (record { targets = t; snapshot = s; timestamp = u })

abbrev page : Bytes
page =
    codes
      "<!doctype html><meta charset=utf-8><title>ROMD DAT catalogs</title><h1>ROMD DAT catalog publisher</h1><p>Signed catalog updates. Consult the authenticated catalog index for available sources and acquisition health. RSS is a notification feed; clients verify signed metadata before applying updates.</p><p><a href=feed.xml>RSS feed</a></p>"

-- The files that stand beside the targets.
unfoldable pub save_metadata :
    {M : Type 0} → Desk → StageOptions → Layers M → Bytes → Dict Bytes → Result (Dict Bytes)
unfolding save_all copy_roots
save_metadata desk opt layers feed site = do
  site₁ ←
      save_all desk
        (("metadata/" <> (decimal opt.version <> ".targets.json"), layers.targets.1)
          ∷ ("metadata/" <> (decimal opt.version <> ".snapshot.json"), layers.snapshot.1)
          ∷ ("metadata/timestamp.json", layers.timestamp.1)
          ∷ ("feed.xml", feed)
          ∷ [])
        site
  roots ← desk.roots
  site₂ ← copy_roots desk roots site₁
  save desk "index.html" page site₂

-- `signIndex`: the index, and the site that it leaves.
unfoldable pub sign_index :
    {M : Type 0}
    → Tuf M
    → Desk
    → StageOptions
    → Index
    → Bytes
    → Result (Index × Layers M × Dict Bytes)
unfolding read_root sign_layers save_targets save_metadata
sign_index tuf desk opt index feed = do
  root ← read_root tuf desk
  raw ← desk.encode_index index
  listed ←
      with_definitions desk index.definitions (("catalog.json", raw) ∷ ("feed.xml", feed) ∷ []) []
  site ← save_targets desk listed.0 listed.1
  layers ← sign_layers tuf root opt listed.0
  site' ← save_metadata desk opt layers feed site
  ok (index, layers, site')
