-- ===== src/Distribution/Git/Bound.antt =====
-- The index that a stage makes binds every document, and a restore fetches what is bound.
use romd_dat_catalogs.Prelude.{
  ℕ, String, Option, Option-cases, inl, inr, none, some, [], ◌∷◌, length, if-cases, string_eq,
  nat_eq, ok, refuse_if-passed, >>=-eq-ok, ◌≡◌, refl, sym, subst, ap, ◌∙◌, arith, All,
}
use romd_dat_catalogs.Prelude.Dict.{
  Dict, lookup, insert, lookup-insert, lookup-insert_self, lookup-nil,
}
use romd_dat_catalogs.Prelude.Text.{text_lt}
use romd_dat_catalogs.Publisher.{Bytes, Reference, Catalog, Snapshot, max_metadata}
use romd_dat_catalogs.Publisher.Disk.{Disk, Load, missing, failed, loaded, read_file}
use romd_dat_catalogs.Publisher.Objects.{
  Codec, check_object, verified_read, verify_catalogs, verify_snapshot, load_result, load_snapshot,
  entries,
}
use romd_dat_catalogs.Distribution.{Asset, Net, fetch_asset, fetch_asset_sound}
use romd_dat_catalogs.Distribution.Git.{
  insert_entry, sort_entries, asset_of, if_absent, add_download, stage_each, stage_downloads,
  bad_binding, bound, fetch_new, fetch_one, fetch_documents,
}

-- A document is fetched: its bytes are those that its reference names.
abbrev pub Fetched : Net → Dict Bytes → Option Reference → Type 0
Fetched net docs none = Unit
Fetched net docs (some r) =
    (b : Bytes) × (lookup r.path docs ≡ some b) × (net.hash b ≡ r.sha256) × (length b ≡ r.bytes)

module _ (net : Net) (downloads : Dict Asset) where
  -- Every document so far is the one that the downloads name for its path.
  abbrev AllNamed : Dict Bytes → Type 0
  AllNamed docs =
      (p : String) (b : Bytes)
      → lookup p docs ≡ some b
      → (a : Asset) × (lookup p downloads ≡ some a) × (net.hash b ≡ a.sha256) × (length b ≡ a.bytes)

  abbrev Grows : Dict Bytes → Dict Bytes → Type 0
  Grows docs docs' = (p : String) (b : Bytes) → lookup p docs ≡ some b → lookup p docs' ≡ some b

  bound-eq-ok :
      (r : Reference) (o : Option Asset) (a : Asset)
      → bound r o ≡ ok a
      → (o ≡ some a) × (a.sha256 ≡ r.sha256) × (a.bytes ≡ r.bytes)
  unfolding bad_binding string_eq nat_eq
  bound-eq-ok r none a e = absurd cc
  bound-eq-ok r (some a') a e = ground (arith, e)

  fetch_new-Fetched :
      (r : Reference) (a : Asset) (o : Option Bytes) (docs docs' : Dict Bytes)
      → lookup r.path docs ≡ o
      → lookup r.path downloads ≡ some a
      → (a.sha256 ≡ r.sha256) × (a.bytes ≡ r.bytes)
      → fetch_new net r.path a o docs ≡ ok docs'
      → AllNamed docs
      → AllNamed docs' × Grows docs docs' × Fetched net docs' (some r)
  fetch_new-Fetched r a (some b) docs docs' here named (hash_eq, size_eq) e h =
      let same : docs ≡ docs' = cc in
      let (a', e₁, k₁, k₂) = h r.path b here in
      let same_asset : a' ≡ a = cc in
      (
        subst AllNamed same h,
        (λ p c k. ap (lookup p) (sym same) ∙ k),
        (b, ap (lookup r.path) (sym same) ∙ here, cc, cc),
      )
  fetch_new-Fetched r a none docs docs' here named (hash_eq, size_eq) e h =
      let (b, e₁, e₂) = >>=-eq-ok (fetch_asset net a) _ e in
      let (size, hashed, _, _) = fetch_asset_sound net a b e₁ in
      let same : insert r.path b docs ≡ docs' = cc in
      (
        subst AllNamed same (λ p c k. elim (string_eq.dec p r.path) [
          | yes q ↦
              let is_b : b ≡ c = ground (arith, k, q, lookup-insert p r.path b docs) in
              (
                a,
                ap (λ p. lookup p downloads) q ∙ named,
                ap net.hash (sym is_b) ∙ hashed,
                ap length (sym is_b) ∙ size,
              )
          | no q ↦ h p c (ground (arith, k, q, lookup-insert p r.path b docs))
        ]),
        (λ p c k.
            ap (lookup p) (sym same) ∙ ground (arith, k, here, lookup-insert p r.path b docs)),
        (
          b,
          ap (lookup r.path) (sym same) ∙ lookup-insert_self r.path b docs,
          hashed ∙ hash_eq,
          size ∙ size_eq,
        ),
      )

  fetch_one-Fetched :
      (o : Option Reference) (docs docs' : Dict Bytes)
      → fetch_one net downloads o docs ≡ ok docs'
      → AllNamed docs
      → AllNamed docs' × Grows docs docs' × Fetched net docs' o
  unfolding fetch_one
  fetch_one-Fetched none docs docs' e h =
      let same : docs ≡ docs' = cc in
      (subst AllNamed same h, (λ p c k. ap (lookup p) (sym same) ∙ k), tt)
  fetch_one-Fetched (some r) docs docs' e h =
      let (a, e₁, e₂) = >>=-eq-ok (bound r (lookup r.path downloads)) _ e in
      let (named, same, size) = bound-eq-ok r (lookup r.path downloads) a e₁ in
      fetch_new-Fetched r a (lookup r.path docs) docs docs' refl named (same, size) e₂ h

  Fetched-Grows :
      (o : Option Reference) (docs docs' : Dict Bytes)
      → Grows docs docs'
      → Fetched net docs o
      → Fetched net docs' o
  Fetched-Grows none docs docs' g h = tt
  Fetched-Grows (some r) docs docs' g (b, e, k, l) = (b, g r.path b e, k, l)

  fetch_documents-Grows :
      (catalogs : Dict Catalog) (docs docs' : Dict Bytes)
      → fetch_documents net downloads catalogs docs ≡ ok docs'
      → AllNamed docs
      → Grows docs docs' × All (λ (id, c). Fetched net docs' c.artifact) catalogs
  unfolding fetch_documents
  fetch_documents-Grows [] docs docs' e h =
      let same : docs ≡ docs' = cc in ((λ p c k. ap (lookup p) (sym same) ∙ k), tt)
  fetch_documents-Grows ((id, c) ∷ rest) docs docs' e h =
      let (docs₁, e₁, e₂) = >>=-eq-ok (fetch_one net downloads c.artifact docs) _ e in
      let (h₁, g, here) = fetch_one-Fetched c.artifact docs docs₁ e₁ h in
      let (g', later) = fetch_documents-Grows rest docs₁ docs' e₂ h₁ in
      ((λ p b k. g' p b (g p b k)), (Fetched-Grows c.artifact docs₁ docs' g' here, later))

  -- A restore that fetches its documents has one for every catalog that has an artifact, with the
  -- artifact's hash and length, however the downloads are shared.
  pub fetch_documents-Fetched :
      (catalogs : Dict Catalog) (docs : Dict Bytes)
      → fetch_documents net downloads catalogs [] ≡ ok docs
      → All (λ (id, c). Fetched net docs c.artifact) catalogs
  fetch_documents-Fetched catalogs docs e =
      (fetch_documents-Grows catalogs [] docs e
        (λ p b k. absurd (ground (arith, k, lookup-nil {V = Bytes} p)))).1

-- The downloads bind a reference.
abbrev pub Bound : Dict Asset → Option Reference → Type 0
Bound d none = Unit
Bound d (some r) =
    (a : Asset) × (lookup r.path d ≡ some a) × (a.sha256 ≡ r.sha256) × (a.bytes ≡ r.bytes)

-- A path tells the hash and the length: objects are named by their content.
abbrev pub Tells : (String → String × ℕ) → Option Reference → Type 0
Tells content none = Unit
Tells content (some r) = (r.sha256 ≡ (content r.path).0) × (r.bytes ≡ (content r.path).1)

module _ (content : String → String × ℕ) (repository commit : String) where
  abbrev AllTold : Dict Asset → Type 0
  AllTold d =
      (p : String) (a : Asset)
      → lookup p d ≡ some a
      → (a.sha256 ≡ (content p).0) × (a.bytes ≡ (content p).1)

  abbrev Extends : Dict Asset → Dict Asset → Type 0
  Extends d d' = (p : String) (a : Asset) → lookup p d ≡ some a → lookup p d' ≡ some a

  if_absent-Bound :
      (id : String) (r : Reference) (d : Dict Asset) (o : Option Asset)
      → lookup r.path d ≡ o
      → Tells content (some r)
      → AllTold d
      → AllTold (if_absent r.path (asset_of repository commit id r) d o)
        × Extends d (if_absent r.path (asset_of repository commit id r) d o)
        × Bound (if_absent r.path (asset_of repository commit id r) d o) (some r)
  if_absent-Bound id r d (some b) here (hash_eq, size_eq) h =
      let (k₁, k₂) = h r.path b here in
      (h, (λ p a k. k), (b, here, k₁ ∙ sym hash_eq, k₂ ∙ sym size_eq))
  if_absent-Bound id r d none here (hash_eq, size_eq) h =
      let made : Asset = asset_of repository commit id r in
      (
        (λ p a k. elim (string_eq.dec p r.path) [
          | yes q ↦
              let is_made : made ≡ a = ground (arith, k, q, lookup-insert p r.path made d) in
              (
                ap (λ a. a.sha256) (sym is_made) ∙ hash_eq ∙ ap (λ p. (content p).0) (sym q),
                ap (λ a. a.bytes) (sym is_made) ∙ size_eq ∙ ap (λ p. (content p).1) (sym q),
              )
          | no q ↦ h p a (ground (arith, k, q, lookup-insert p r.path made d))
        ]),
        (λ p a k. ground (arith, k, here, lookup-insert p r.path made d)),
        (made, lookup-insert_self r.path made d, refl, refl),
      )

  add_download-Bound :
      (id : String) (o : Option Reference) (d : Dict Asset)
      → Tells content o
      → AllTold d
      → AllTold (add_download repository commit id o d)
        × Extends d (add_download repository commit id o d)
        × Bound (add_download repository commit id o d) o
  add_download-Bound id none d t h = (h, (λ p a k. k), tt)
  add_download-Bound id (some r) d t h = if_absent-Bound id r d (lookup r.path d) refl t h

  Bound-Extends : (o : Option Reference) (d d' : Dict Asset) → Extends d d' → Bound d o → Bound d' o
  Bound-Extends none d d' g h = tt
  Bound-Extends (some r) d d' g (a, e, k, l) = (a, g r.path a e, k, l)

  stage_each-Bound :
      (catalogs : Dict Catalog) (d d' : Dict Asset)
      → stage_each repository commit catalogs d ≡ ok d'
      → All (λ (id, c). Tells content c.artifact) catalogs
      → AllTold d
      → Extends d d' × All (λ (id, c). Bound d' c.artifact) catalogs
  unfolding stage_each
  stage_each-Bound [] d d' e t h =
      let same : d ≡ d' = cc in ((λ p a k. ap (lookup p) (sym same) ∙ k), tt)
  stage_each-Bound ((id, c) ∷ rest) d d' e (t, ts) h =
      let (_, e₁) = refuse_if-passed _ _ _ e in
      let (h₁, g, here) = add_download-Bound id c.artifact d t h in
      let (g', later) =
        stage_each-Bound rest (add_download repository commit id c.artifact d) d' e₁ ts h₁ in
      ((λ p a k. g' p a (g p a k)), (Bound-Extends c.artifact _ d' g' here, later))

module _ (P : String × Catalog → Type 0) where
  All-insert_entry :
      (e : String × Catalog) (d : Dict Catalog) → P e → All P d → All P (insert_entry e d)
  unfolding insert_entry
  All-insert_entry e [] p h = (p, tt)
  All-insert_entry (id, c) ((j, k) ∷ rest) p (q, h) =
      if-cases (All P) (text_lt j id) _ _ (λ _. (q, All-insert_entry (id, c) rest p h))
        (λ _. (p, (q, h)))

  All-of_insert_entry :
      (e : String × Catalog) (d : Dict Catalog) → All P (insert_entry e d) → P e × All P d
  unfolding insert_entry
  All-of_insert_entry e [] = λ h. h
  All-of_insert_entry (id, c) ((j, k) ∷ rest) =
      if-cases (λ l. All P l → P (id, c) × (P (j, k) × All P rest)) (text_lt j id) _ _
        (λ _ (q, h). let (p, h') = All-of_insert_entry (id, c) rest h in (p, (q, h'))) (λ _ h. h)

  All-sort_entries : (d : Dict Catalog) → All P d → All P (sort_entries d)
  unfolding sort_entries
  All-sort_entries [] h = tt
  All-sort_entries (e ∷ rest) (p, h) =
      All-insert_entry e (sort_entries rest) p (All-sort_entries rest h)

  All-of_sort_entries : (d : Dict Catalog) → All P (sort_entries d) → All P d
  unfolding sort_entries
  All-of_sort_entries [] h = tt
  All-of_sort_entries (e ∷ rest) h =
      let (p, h') = All-of_insert_entry e (sort_entries rest) h in (p, All-of_sort_entries rest h')

bind_told :
    (content : String → String × ℕ) (repository commit : String) (catalogs : Dict Catalog)
    (d : Dict Asset)
    → All (λ (id, c). Tells content c.artifact) catalogs
    → stage_downloads repository commit catalogs ≡ ok d
    → All (λ (id, c). Bound d c.artifact) catalogs
unfolding stage_downloads
bind_told content repository commit catalogs d t e =
    let (_, e₁) = refuse_if-passed _ _ _ e in
    All-of_sort_entries (λ (id, c). Bound d c.artifact) catalogs
      (stage_each-Bound content repository commit (sort_entries catalogs) [] d e₁
        (All-sort_entries (λ (id, c). Tells content c.artifact) catalogs t)
        (λ p a k. absurd (ground (arith, k, lookup-nil {V = Asset} p)))).1

-- What a disk's object tells of itself.
abbrev told : Codec → Option Bytes → String × ℕ
told codec none = ("", 0)
told codec (some b) = (codec.hash b, length b)

check_object-eq-ok :
    (codec : Codec) (r : Reference) (l : Load) (b : Bytes)
    → check_object codec r l ≡ ok b
    → (l ≡ loaded b) × (length b ≡ r.bytes) × (codec.hash b ≡ r.sha256)
check_object-eq-ok codec r missing b e = absurd cc
check_object-eq-ok codec r (failed m) b e = absurd cc
check_object-eq-ok codec r (loaded c) b e = ground (arith, e)

read_file-lookup :
    (d : Disk) (p : String) (n : ℕ) (b : Bytes)
    → read_file d p n ≡ loaded b
    → lookup p d.files ≡ some b
unfolding read_file
read_file-lookup d p n b e = ground (arith, e)

verified_read-Tells :
    (codec : Codec) (disk : Disk) (r : Reference) (b : Bytes)
    → verified_read codec r disk ≡ ok b
    → Tells (λ p. told codec (lookup p disk.files)) (some r)
unfolding verified_read
verified_read-Tells codec disk r b e =
    let (_, e₁) = refuse_if-passed _ _ _ e in
    let (l, size, hash) = check_object-eq-ok codec r (read_file disk r.path _) b e₁ in
    let held = read_file-lookup disk r.path _ b l in
    (
      sym hash ∙ ap (λ o. (told codec o).0) (sym held),
      sym size ∙ ap (λ o. (told codec o).1) (sym held),
    )

verify_catalogs-Tells :
    (codec : Codec) (disk : Disk) (catalogs : Dict Catalog)
    → verify_catalogs codec catalogs disk ≡ ok tt
    → All (λ (id, c). Tells (λ p. told codec (lookup p disk.files)) c.artifact) catalogs
unfolding verify_catalogs
verify_catalogs-Tells codec disk [] e = tt
verify_catalogs-Tells codec disk ((id, c) ∷ rest) e = elim (Option-cases c.artifact) [
  | inl h ↦ (subst (Tells _) (sym h) tt, verify_catalogs-Tells codec disk rest (rw h at e))
  | inr (r, h) ↦
      let (b, e₁, e₂) = >>=-eq-ok (verified_read codec r disk) _ (rw h at e) in
      (
        subst (Tells _) (sym h) (verified_read-Tells codec disk r b e₁),
        verify_catalogs-Tells codec disk rest e₂,
      )
]

load_snapshot-Tells :
    (codec : Codec) (disk : Disk) (s : Snapshot)
    → load_snapshot codec disk ≡ ok s
    → All (λ (id, c). Tells (λ p. told codec (lookup p disk.files)) c.artifact) (entries s.catalogs)
unfolding load_snapshot verify_snapshot
load_snapshot-Tells codec disk s e =
    let (raw, _, e₁) = >>=-eq-ok (load_result (read_file disk "current.json" max_metadata)) _ e in
    let (c, _, e₂) = >>=-eq-ok (codec.decode_current raw) _ e₁ in
    let (_, e₃) = refuse_if-passed _ _ _ e₂ in
    let (b, _, e₄) = >>=-eq-ok (verified_read codec c.snapshot disk) _ e₃ in
    let (_, e₅) = refuse_if-passed _ _ _ e₄ in
    let (t, _, e₆) = >>=-eq-ok (codec.decode_snapshot b) _ e₅ in
    let (_, e₇) = refuse_if-passed _ _ _ e₆ in
    let (_, verified, e₈) = >>=-eq-ok (verify_snapshot codec t disk) _ e₇ in
    let (_, _, v₁) = >>=-eq-ok (verified_read codec t.feed disk) _ verified in
    let (_, v₂, _) = >>=-eq-ok (verify_catalogs codec (entries t.catalogs) disk) _ v₁ in
    let same : t ≡ s = cc in
    subst
      (λ q.
        All (λ (id, c). Tells (λ p. told codec (lookup p disk.files)) c.artifact)
          (entries q.catalogs))
      same (verify_catalogs-Tells codec disk (entries t.catalogs) v₂)

-- The index staged from a snapshot that was loaded has a download for every catalog with an
-- artifact, of the artifact's hash and length, also where catalogs share a document.
pub stage_downloads-Bound :
    (codec : Codec) (disk : Disk) (s : Snapshot) (repository commit : String) (d : Dict Asset)
    → load_snapshot codec disk ≡ ok s
    → stage_downloads repository commit (entries s.catalogs) ≡ ok d
    → All (λ (id, c). Bound d c.artifact) (entries s.catalogs)
stage_downloads-Bound codec disk s repository commit d h e =
    bind_told (λ p. told codec (lookup p disk.files)) repository commit (entries s.catalogs) d
      (load_snapshot-Tells codec disk s h) e
