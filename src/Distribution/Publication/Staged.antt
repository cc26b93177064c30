-- ===== src/Distribution/Publication/Staged.antt =====
-- What a successful staging was admitted on, and what it signed.
use romd_dat_catalogs.Prelude.{
  ◌⊎◌, inl, inr, Option-cases, ℕ, ◌+◌, ◌≤◌, ◌≡◌, refl, sym, ◌∙◌, ap, subst, String, Bool, true,
  false, not, Option, none, some, [], ◌∷◌, All, arith, ltb, string_eq, nat_eq, Result, ok,
  refuse_if, refuse_if-passed, >>=-eq-ok,
}
use romd_dat_catalogs.Prelude.Dict.{Dict, lookup}
use romd_dat_catalogs.Publisher.{Bytes, Catalog, Snapshot}
use romd_dat_catalogs.Publisher.Objects.{load_snapshot, entries}
use romd_dat_catalogs.Publisher.Latest.{latest}
use romd_dat_catalogs.Definitions.{Registry, Catalog as Definition}
use romd_dat_catalogs.Definitions.Parse.{Json}
use romd_dat_catalogs.Definitions.Validate.{compatible}
use romd_dat_catalogs.Distribution.{Asset, Index}
use romd_dat_catalogs.Distribution.Git.{stage_downloads}
use romd_dat_catalogs.Distribution.Stage.{Tuf, Desk, StageOptions, Layers, read_root}
use romd_dat_catalogs.Distribution.Stage.Signed.{IsRoot, IsChain, sign_index-IsChain}
use romd_dat_catalogs.Distribution.Publication.{
  Ground, synthetic, is_bound, check_bound, check_options, is_behind, not_advanced, check_version,
  load_previous, check_definitions, git_index, admit, stage_git, link_feed,
}

ok-injective : {A : Type 0} {a b : A} → ◌≡◌ {A = Result A} (ok a) (ok b) → a ≡ b
ok-injective e = cc

negated : (b : Bool) → not b ≡ false → b ≡ true
negated true h = refl
negated false h = absurd cc

refuse_if-false : (b : Bool) (m : String) → refuse_if b m ≡ ok tt → b ≡ false
unfolding refuse_if
refuse_if-false true m h = absurd cc
refuse_if-false false m h = refl

-- The version is above the one of the last publication, where there was one.
pub Advances : Ground → ℕ → Type 0
Advances g version =
    (b : Bytes) → g.version_file ≡ ok (some b) → (v : ℕ) × (g.scan b ≡ some v) × (v + 1 ≤ version)

is_behind-false :
    (version : ℕ) (o : Option ℕ)
    → is_behind version o ≡ false
    → (v : ℕ) × (o ≡ some v) × (v + 1 ≤ version)
is_behind-false version none h = absurd cc
is_behind-false version (some v) h = (v, refl, ground (arith, h))

check_version-Advances :
    (g : Ground) (opt : StageOptions) → check_version g opt ≡ ok tt → Advances g opt.version
unfolding check_version Advances
check_version-Advances g opt e b h =
    let (o, e₁, e₂) = >>=-eq-ok g.version_file _ e in
    let same : o ≡ some b = ok-injective (sym e₁ ∙ h) in
    let advanced = refuse_if-false (not_advanced g opt.version o) _ e₂ in
    is_behind-false opt.version (g.scan b)
      (subst (λ o. not_advanced g opt.version o ≡ false) same advanced)

-- Every catalog has a definition that expects its name, or is the fixture.
pub AreBound : Option Registry → Dict Catalog → Type 0
AreBound none catalogs = Unit
AreBound (some registry) catalogs =
    All
      (λ (id, c).
        ((definition : Definition) × (lookup id registry.catalogs ≡ some definition)
          × (definition.expected_name ≡ c.name))
        ⊎ ((lookup id registry.catalogs ≡ none) × (id ≡ synthetic)))
      catalogs

is_bound-true :
    (registry : Registry) (id : String) (c : Catalog)
    → is_bound registry id c ≡ true
    → ((definition : Definition) × (lookup id registry.catalogs ≡ some definition)
        × (definition.expected_name ≡ c.name))
      ⊎ ((lookup id registry.catalogs ≡ none) × (id ≡ synthetic))
is_bound-true registry id c h = elim (Option-cases (lookup id registry.catalogs)) [
  | inl e ↦ inr (e, ground (arith, e, h))
  | inr (definition, e) ↦ inl (definition, e, ground (arith, e, h))
]

check_bound-AreBound :
    (registry : Registry) (catalogs : Dict Catalog)
    → check_bound registry catalogs ≡ ok tt
    → AreBound (some registry) catalogs
unfolding check_bound AreBound
check_bound-AreBound registry [] e = tt
check_bound-AreBound registry ((id, c) ∷ rest) e =
    let (h, e₁) = refuse_if-passed (not (is_bound registry id c)) _ _ e in
    (
      is_bound-true registry id c (negated (is_bound registry id c) h),
      check_bound-AreBound registry rest e₁,
    )

check_definitions-AreBound :
    (json : Json) (o previous : Option Registry) (catalogs : Dict Catalog)
    → check_definitions json o previous catalogs ≡ ok tt
    → AreBound o catalogs
unfolding AreBound
check_definitions-AreBound json none previous catalogs e = tt
check_definitions-AreBound json (some registry) previous catalogs e =
    let (_, _, e₁) = >>=-eq-ok (compatible json.to_lower registry previous) _ e in
    check_bound-AreBound registry catalogs e₁

check_options-offline :
    (g : Ground) (opt : StageOptions) (repository commit : String)
    → check_options g opt repository commit ≡ ok tt
    → (1 ≤ opt.version) × (g.output_missing ≡ true) × (g.has_root_key ≡ false)
unfolding check_options
check_options-offline g opt repository commit e =
    let (_, e₁) = refuse_if-passed _ _ _ e in
    let (v, e₂) = refuse_if-passed _ _ _ e₁ in
    let (m, e₃) = refuse_if-passed _ _ _ e₂ in
    (ground (arith, v), negated g.output_missing m, refuse_if-false g.has_root_key _ e₃)

-- What a publication stands on: the state it loaded, a root that is in force, and arguments that
-- go past the last publication without the offline key.
pub record IsAdmitted {M : Type 0} (tuf : Tuf M) (desk : Desk) (g : Ground) (opt : StageOptions)
    (root : M) (s : Snapshot) : Type 0 where
  pub loaded : load_snapshot g.codec g.state ≡ ok s
  pub chosen : read_root tuf desk ≡ ok root
  pub in_force : opt.now + 1 ≤ tuf.expires root
  pub positive : 1 ≤ opt.version
  pub advances : Advances g opt.version
  pub output_missing : g.output_missing ≡ true
  pub offline : g.has_root_key ≡ false
  pub named : AreBound opt.definitions (entries s.catalogs)

admit-IsAdmitted :
    {M : Type 0} (tuf : Tuf M) (desk : Desk) (g : Ground) (opt : StageOptions)
    (repository commit : String) (s : Snapshot)
    → admit tuf desk g opt repository commit ≡ ok s
    → (root : M) × IsAdmitted tuf desk g opt root s
unfolding admit
admit-IsAdmitted tuf desk g opt repository commit s e =
    let (_, e₁, e₂) = >>=-eq-ok (check_options g opt repository commit) _ e in
    let (root, e₃, e₄) = >>=-eq-ok (read_root tuf desk) _ e₂ in
    let (fresh, e₅) = refuse_if-passed (not (ltb opt.now (tuf.expires root))) _ _ e₄ in
    let (_, e₆, e₇) = >>=-eq-ok (check_version g opt) _ e₅ in
    let (s', e₈, e₉) = >>=-eq-ok (load_snapshot g.codec g.state) _ e₇ in
    let (previous, _, e₁₀) = >>=-eq-ok (load_previous g) _ e₉ in
    let (_, e₁₁, e₁₂) =
      >>=-eq-ok (check_definitions g.json opt.definitions previous (entries s'.catalogs)) _ e₁₀ in
    let same : s' ≡ s = ok-injective e₁₂ in
    let (positive, missing, offline) = check_options-offline g opt repository commit e₁ in
    let named =
      check_definitions-AreBound g.json opt.definitions previous (entries s'.catalogs) e₁₁ in
    (
      root,
      record {
        loaded = e₈ ∙ ap ok same;
        chosen = e₃;
        in_force = ground (arith, fresh);
        positive = positive;
        advances = check_version-Advances g opt e₆;
        output_missing = missing;
        offline = offline;
        named = subst (λ t. AreBound opt.definitions (entries t.catalogs)) same named;
      },
    )

-- When `StageGit` succeeds, the root signs itself, is the newest of the directory and not expired,
-- the version is positive and above the last publication's, the output did not exist, the offline
-- root key was absent, every catalog of the loaded snapshot has its definition where definitions
-- are given, the index states that version and holds the latest view with its downloads at the
-- commit, and timestamp, snapshot and targets are signed as one chain under that root over files
-- that hold the index.
pub stage_git-IsStaged :
    {M : Type 0} (tuf : Tuf M) (desk : Desk) (g : Ground) (opt : StageOptions)
    (repository commit : String) (out : Index) (l : Layers M) (site : Dict Bytes)
    → stage_git tuf desk g opt repository commit ≡ ok (out, l, site)
    → (root : M) × (s view : Snapshot) × (feed : Bytes) × (downloads : Dict Asset) × (raw : Bytes)
      × (files : Dict Bytes) × IsAdmitted tuf desk g opt root s
      × IsRoot tuf desk root
      × (latest g.codec g.text s ≡ ok (view, feed))
      × (stage_downloads repository commit (entries view.catalogs) ≡ ok downloads)
      × (out ≡ git_index opt view downloads)
      × (desk.encode_index out ≡ ok raw)
      × (lookup "catalog.json" files ≡ some raw)
      × IsChain tuf root opt files l
unfolding stage_git
stage_git-IsStaged tuf desk g opt repository commit out l site e =
    let (s, e₁, e₂) = >>=-eq-ok (admit tuf desk g opt repository commit) _ e in
    let (root, admitted) = admit-IsAdmitted tuf desk g opt repository commit s e₁ in
    let (seen, e₃, e₄) = >>=-eq-ok (latest g.codec g.text s) _ e₂ in
    let (downloads, e₅, e₆) =
      >>=-eq-ok (stage_downloads repository commit (entries seen.0.catalogs)) _ e₄ in
    let (same, root', raw, files, is_root, e₇, e₈, chain) =
      sign_index-IsChain tuf desk opt (git_index opt seen.0 downloads) out
        (link_feed repository downloads seen.1) l site e₆ in
    let one : root' ≡ root = ok-injective (sym is_root.chosen ∙ admitted.chosen) in
    (
      root,
      s,
      seen.0,
      seen.1,
      downloads,
      raw,
      files,
      admitted,
      subst (IsRoot tuf desk) one is_root,
      e₃,
      e₅,
      same,
      ap desk.encode_index same ∙ e₇,
      e₈,
      subst (λ r. IsChain tuf r opt files l) one chain,
    )
