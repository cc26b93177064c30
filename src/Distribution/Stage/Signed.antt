-- ===== src/Distribution/Stage/Signed.antt =====
-- What a site that was signed is: one chain of trust under the newest root.
use romd_dat_catalogs.Prelude.{
  ℕ, ◌+◌, ◌*◌, ◌≤◌, ◌≡◌, refl, sym, ◌∙◌, ap, subst, inl, inr, String, Option, none, some, List, [],
  ◌∷◌, All, arith, ltb, string_eq, nat_eq, Result, ok, Bool-cases, refuse_if-passed, >>=-eq-ok,
  ok-injective_pair,
}
use romd_dat_catalogs.Prelude.Dict.{Dict, lookup, insert, lookup-insert}
use romd_dat_catalogs.Publisher.{Bytes}
use romd_dat_catalogs.Definitions.{Registry}
use romd_dat_catalogs.Distribution.{Index}
use romd_dat_catalogs.Distribution.Stage.{
  Tuf, Desk, StageOptions, save, newer, is_versioned, take_root, pick_root, self_signed, read_root,
  sign_role, day, save_targets, with_definitions, Layers, sign_layers, save_metadata, sign_index,
}

first :
    (raw feed : Bytes)
    → lookup "catalog.json" (("catalog.json", raw) ∷ ("feed.xml", feed) ∷ []) ≡ some raw
unfolding lookup string_eq
first raw feed = refl

beside :
    (b : Bytes) (files : Dict Bytes) (raw : Bytes)
    → lookup "catalog.json" files ≡ some raw
    → lookup "catalog.json" (insert "catalog-definitions.json" b files) ≡ some raw
unfolding string_eq
beside b files raw h = lookup-insert "catalog.json" "catalog-definitions.json" b files ∙ h

ok-injective : {A : Type 0} {a b : A} → ◌≡◌ {A = Result A} (ok a) (ok b) → a ≡ b
ok-injective e = cc

module _ {M : Type 0} (tuf : Tuf M) where
  self_signed-eq-ok :
      (best : Option M) (root : M)
      → self_signed tuf best ≡ ok root
      → (best ≡ some root) × (tuf.verify root "root" root ≡ ok tt)
  self_signed-eq-ok none root e = absurd cc
  self_signed-eq-ok (some r) root e =
      let (_, e₁, e₂) = >>=-eq-ok (tuf.verify r "root" r) _ e in
      let same : r ≡ root = ok-injective e₂ in
      (ap some same, subst (λ q. tuf.verify q "root" q ≡ ok tt) same e₁)

  -- A root was chosen, of no lower version.
  pub AtMost : ℕ → Option M → Type 0
  AtMost v none = ⊥
  AtMost v (some r) = v ≤ tuf.version r

  abbrev Grown : Option M → Option M → Type 0
  Grown none out = Unit
  Grown (some b) out = AtMost (tuf.version b) out

  abbrev Covers : Option M → Option ℕ → Type 0
  Covers out none = Unit
  Covers out (some v) = AtMost v out

  newer-le :
      (best : Option M) (r : M)
      → Grown best (some (newer tuf best r)) × (tuf.version r ≤ tuf.version (newer tuf best r))
  unfolding AtMost
  newer-le none r = (tt, omega arith)
  newer-le (some b) r = elim (Bool-cases (ltb (tuf.version b) (tuf.version r))) [
    | inl e ↦ rw e (ground arith, omega arith)
    | inr e ↦ rw e (omega arith, ground arith)
  ]

  take_root-Covers :
      (name : String) (best mid : Option M) (o : Option ℕ)
      → take_root tuf name best o ≡ ok mid
      → Grown best mid × Covers mid o
  unfolding take_root AtMost
  take_root-Covers name none mid none e = (tt, tt)
  take_root-Covers name (some b) mid none e =
      let same : some b ≡ mid = cc in (subst (AtMost (tuf.version b)) same (omega arith), tt)
  take_root-Covers name best mid (some v) e =
      let (r, _, e₁) = >>=-eq-ok (tuf.read_root name) _ e in
      let (good, e₂) = refuse_if-passed _ _ _ e₁ in
      let same : some (newer tuf best r) ≡ mid = cc in
      let v_eq : tuf.version r ≡ v = ground (arith, good) in
      let (grown, le) = newer-le best r in
      (subst (Grown best) same grown, subst (λ o. Covers o (some v)) same (rw⁻¹ v_eq le))

  AtMost-trans :
      (v : ℕ) (mid : M) (out : Option M)
      → v ≤ tuf.version mid
      → AtMost (tuf.version mid) out
      → AtMost v out
  unfolding AtMost
  AtMost-trans v mid none h k = k
  AtMost-trans v mid (some r) h k = omega arith

  Covers-trans : (o : Option ℕ) (mid out : Option M) → Covers mid o → Grown mid out → Covers out o
  unfolding AtMost
  Covers-trans none mid out h g = tt
  Covers-trans (some v) none out h g = absurd h
  Covers-trans (some v) (some m) out h g = AtMost-trans v m out h g

  Grown-trans : (best mid out : Option M) → Grown best mid → Grown mid out → Grown best out
  unfolding AtMost
  Grown-trans none mid out h g = tt
  Grown-trans (some b) none out h g = absurd h
  Grown-trans (some b) (some m) out h g = AtMost-trans (tuf.version b) m out h g

  Grown-refl : (best : Option M) → Grown best best
  unfolding AtMost
  Grown-refl none = tt
  Grown-refl (some b) = omega arith

  pick_root-Covers :
      (entries : List String) (best out : Option M)
      → pick_root tuf entries best ≡ ok out
      → Grown best out × All (λ name. Covers out (is_versioned tuf (tuf.scan_name name))) entries
  unfolding pick_root
  pick_root-Covers [] best out e =
      let same : best ≡ out = cc in (subst (Grown best) same (Grown-refl best), tt)
  pick_root-Covers (name ∷ rest) best out e =
      let (mid, e₁, e₂) =
        >>=-eq-ok (take_root tuf name best (is_versioned tuf (tuf.scan_name name))) _ e in
      let (grown, here) = take_root-Covers name best mid _ e₁ in
      let (more, later) = pick_root-Covers rest mid out e₂ in
      (Grown-trans best mid out grown more, (Covers-trans _ mid out here more, later))

  -- The root of a staging: it signs itself, and no root of the directory is newer.
  pub record IsRoot (desk : Desk) (root : M) : Type 0 where
    pub entries : List String
    pub listed : desk.roots ≡ ok entries
    pub newest : All (λ name. Covers (some root) (is_versioned tuf (tuf.scan_name name))) entries
    pub verified : tuf.verify root "root" root ≡ ok tt
    pub chosen : read_root tuf desk ≡ ok root

  read_root-IsRoot : (desk : Desk) (root : M) → read_root tuf desk ≡ ok root → IsRoot desk root
  unfolding read_root
  read_root-IsRoot desk root e =
      let (entries, e₁, e₂) = >>=-eq-ok desk.roots _ e in
      let (best, e₃, e₄) = >>=-eq-ok (pick_root tuf entries none) _ e₂ in
      let (_, covers) = pick_root-Covers entries none best e₃ in
      let (same, verified) = self_signed-eq-ok best root e₄ in
      record {
        entries = entries;
        listed = e₁;
        newest =
            subst (λ o. All (λ name. Covers o (is_versioned tuf (tuf.scan_name name))) entries) same
              covers;
        verified = verified;
        chosen = e;
      }

  -- A role's metadata: signed with its key, verified by the root, and written out.
  pub record IsSigned (root : M) (role : String) (m : M) (p : M × Bytes) : Type 0 where
    pub signed : tuf.sign role m ≡ ok p.0
    pub verified : tuf.verify root role p.0 ≡ ok tt
    pub bytes : tuf.to_bytes p.0 ≡ ok p.1

  sign_role-IsSigned :
      (root : M) (role : String) (m : M) (p : M × Bytes)
      → sign_role tuf root role m ≡ ok p
      → IsSigned root role m p
  unfolding sign_role
  sign_role-IsSigned root role m p e =
      let (signed, e₁, e₂) = >>=-eq-ok (tuf.sign role m) _ e in
      let (_, e₃, e₄) = >>=-eq-ok (tuf.verify root role signed) _ e₂ in
      let (b, e₅, e₆) = >>=-eq-ok (tuf.to_bytes signed) _ e₄ in
      let (s, t) = ok-injective_pair e₆ in
      record {
        signed = e₁ ∙ ap ok s;
        verified = subst (λ q. tuf.verify root role q ≡ ok tt) s e₃;
        bytes = subst (λ q. tuf.to_bytes q ≡ ok p.1) s (e₅ ∙ ap ok t);
      }

  -- The timestamp stands over the snapshot's bytes, that over the targets', and those over the
  -- files.
  pub record IsChain (root : M) (opt : StageOptions) (files : Dict Bytes) (l : Layers M)
      : Type 0 where
    pub unsigned : M
    pub listed : tuf.targets (opt.now + 30 * day) opt.version files ≡ ok unsigned
    pub targets : IsSigned root "targets" unsigned l.targets
    pub snapshot :
        IsSigned root "snapshot"
          (tuf.snapshot (opt.now + 7 * day) opt.version l.targets.1)
          l.snapshot
    pub timestamp :
        IsSigned root "timestamp"
          (tuf.timestamp (opt.now + 2 * day) opt.version l.snapshot.1)
          l.timestamp

  sign_layers-IsChain :
      (root : M) (opt : StageOptions) (files : Dict Bytes) (l : Layers M)
      → sign_layers tuf root opt files ≡ ok l
      → IsChain root opt files l
  unfolding sign_layers
  sign_layers-IsChain root opt files l e =
      let (unsigned, e₁, e₂) = >>=-eq-ok (tuf.targets (opt.now + 30 * day) opt.version files) _ e in
      let (t, e₃, e₄) = >>=-eq-ok (sign_role tuf root "targets" unsigned) _ e₂ in
      let (s, e₅, e₆) = >>=-eq-ok (sign_role tuf root "snapshot" _) _ e₄ in
      let (u, e₇, e₈) = >>=-eq-ok (sign_role tuf root "timestamp" _) _ e₆ in
      let chain : IsChain root opt files (record { targets = t; snapshot = s; timestamp = u }) =
        record {
          unsigned = unsigned;
          listed = e₁;
          targets = sign_role-IsSigned root "targets" unsigned t e₃;
          snapshot = sign_role-IsSigned root "snapshot" _ s e₅;
          timestamp = sign_role-IsSigned root "timestamp" _ u e₇;
        } in
      let same : record { targets = t; snapshot = s; timestamp = u } ≡ l = cc in
      subst (IsChain root opt files) same chain

  with_definitions-lookup :
      (desk : Desk) (o : Option Registry) (files site : Dict Bytes) (raw : Bytes)
      (out : Dict Bytes × Dict Bytes)
      → lookup "catalog.json" files ≡ some raw
      → with_definitions desk o files site ≡ ok out
      → lookup "catalog.json" out.0 ≡ some raw
  with_definitions-lookup desk none files site raw out h e =
      subst (λ d. lookup "catalog.json" d ≡ some raw) (ok-injective_pair e).0 h
  with_definitions-lookup desk (some registry) files site raw out h e =
      let (b, _, e₁) = >>=-eq-ok (desk.encode_definitions registry) _ e in
      let (_, _, e₂) = >>=-eq-ok (save desk "catalog-definitions.json" b site) _ e₁ in
      subst (λ d. lookup "catalog.json" d ≡ some raw) (ok-injective_pair e₂).0
        (beside b files raw h)

  -- When `signIndex` succeeds, its root signs itself and is the newest of the directory, the
  -- timestamp is signed over the snapshot, the snapshot over the targets and the targets over files
  -- that hold the index, each verified by that root, and the index is the one that was given.
  pub sign_index-IsChain :
      (desk : Desk) (opt : StageOptions) (index out : Index) (feed : Bytes) (l : Layers M)
      (site : Dict Bytes)
      → sign_index tuf desk opt index feed ≡ ok (out, l, site)
      → (out ≡ index)
        × (root : M) × (raw : Bytes) × (files : Dict Bytes) × IsRoot desk root
        × (desk.encode_index index ≡ ok raw)
        × (lookup "catalog.json" files ≡ some raw)
        × IsChain root opt files l
  unfolding sign_index
  sign_index-IsChain desk opt index out feed l site e =
      let (root, e₁, e₂) = >>=-eq-ok (read_root tuf desk) _ e in
      let (raw, e₃, e₄) = >>=-eq-ok (desk.encode_index index) _ e₂ in
      let given = ("catalog.json", raw) ∷ ("feed.xml", feed) ∷ [] in
      let (listed, e₅, e₆) = >>=-eq-ok (with_definitions desk index.definitions given []) _ e₄ in
      let (site₁, _, e₇) = >>=-eq-ok (save_targets desk listed.0 listed.1) _ e₆ in
      let (layers, e₈, e₉) = >>=-eq-ok (sign_layers tuf root opt listed.0) _ e₇ in
      let (site₂, _, e₁₀) = >>=-eq-ok (save_metadata desk opt layers feed site₁) _ e₉ in
      let chain = sign_layers-IsChain root opt listed.0 layers e₈ in
      (
        sym (ap (λ p. p.0) (ok-injective e₁₀)),
        root,
        raw,
        listed.0,
        read_root-IsRoot desk root e₁,
        e₃,
        with_definitions-lookup desk index.definitions given [] raw listed (first raw feed) e₅,
        subst (IsChain root opt listed.0) (ap (λ p. p.1) (ok-injective e₁₀)) chain,
      )
