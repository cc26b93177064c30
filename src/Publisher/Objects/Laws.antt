-- ===== src/Publisher/Objects/Laws.antt =====
-- Objects once written stay, and are read back as they were written.
use text.Mathlib.Text.{starts_with}
use text.Mathlib.TextPositions.{starts_with-append}
use romd_dat_catalogs.Prelude.{
  ℕ, ◌≤◌, String, ◌<>◌, ◌≡◌, refl, sym, ap, subst, ◌∙◌, ◌≢◌, true, false, none, some, List, [], ◌∷◌,
  arith, length, ◌==◌, string_eq, nat_eq, ok, refuse_if, refuse_if-passed, Option-cases, Bool-cases,
  inl, inr,
}
use romd_dat_catalogs.Prelude.Dict.{Dict, lookup, lookup-insert_self}
use romd_dat_catalogs.Prelude.Regex.{match_string}
use romd_dat_catalogs.Publisher.{Bytes, bytes_eq, Reference, Catalog, Event, Snapshot, max_document}
use romd_dat_catalogs.Publisher.Disk.{
  Disk, Load, missing, failed, loaded, read_file, atomic_write, pure,
}
use romd_dat_catalogs.Publisher.Disk.Keeps.{
  Extends, Extends-refl, Keeps, atomic_write-Extends, atomic_write-eq-ok, bind-eq-ok, Keeps-pure,
  bind-Extends,
}
use romd_dat_catalogs.Publisher.Objects.{
  Codec, reference, put_at, put, check_object, object_path, verified_read, verify_catalogs,
  verify_events, verify_snapshot,
}

objects_ne_current : (s : String) → ("objects/" <> s) ≢ "current.json"
objects_ne_current s e =
    let h : starts_with "current.json" "objects/" ≡ true =
      ap (λ t. starts_with t "objects/") (sym e) ∙ starts_with-append "objects/" s in
    cc

read_file-missing :
    (d : Disk) (name : String) (limit : ℕ)
    → read_file d name limit ≡ missing
    → lookup name d.files ≡ none
unfolding read_file
read_file-missing d name limit e = ground arith

read_file-loaded :
    (d : Disk) (name : String) (limit : ℕ) (b : Bytes)
    → read_file d name limit ≡ loaded b
    → (lookup name d.files ≡ some b) × (length b ≤ limit) × (d.unreadable name ≡ false)
unfolding read_file
read_file-loaded d name limit b e = ground arith

pub pure-eq-ok :
    {A : Type 0} (a : A) (d : Disk) {b : A} {d' : Disk} → pure a d ≡ (ok b, d') → (b ≡ a) × (d ≡ d')
unfolding pure
pure-eq-ok a d e = (cc, cc)

module _ (codec : Codec) where
  put_at-Extends :
      (r : Reference) (b : Bytes) (l : Load) (d : Disk)
      → r.path ≢ "current.json"
      → read_file d r.path max_document ≡ l
      → Extends d (put_at r b l d).1
  unfolding put_at
  put_at-Extends r b missing d other e =
      bind-Extends (atomic_write r.path b) (λ _. pure r) d
        (atomic_write-Extends r.path b d (read_file-missing d r.path max_document e) other)
        (λ _. Keeps-pure r)
  put_at-Extends r b (failed m) d other e = Extends-refl d
  put_at-Extends r b (loaded old) d other e = elim (Bool-cases (old == b)) [
    | inl same ↦ rw same (Extends-refl d)
    | inr differ ↦ rw differ (Extends-refl d)
  ]

  -- Storing an object changes no file that is there.
  pub put-Keeps : (b : Bytes) (suffix : String) → Keeps (put codec b suffix)
  unfolding put
  put-Keeps b suffix = record {
    at = λ d. put_at-Extends (reference codec b suffix) b _ d (objects_ne_current _) refl;
  }

  put_at-eq-ok :
      (r : Reference) (b : Bytes) (l : Load) (d d' : Disk) {r' : Reference}
      → read_file d r.path max_document ≡ l
      → put_at r b l d ≡ (ok r', d')
      → (r' ≡ r) × (lookup r.path d'.files ≡ some b)
  unfolding put_at
  put_at-eq-ok r b missing d d' e h =
      let (_, d₁, w, p) = bind-eq-ok (atomic_write r.path b) (λ _. pure r) d h in
      let (files, _) = atomic_write-eq-ok r.path b d d₁ w in
      let (value, same) = pure-eq-ok r d₁ p in
      (value, rw (← same, files) (lookup-insert_self r.path b d.files))
  put_at-eq-ok r b (failed m) d d' e h = absurd (ground arith)
  put_at-eq-ok r b (loaded old) d d' e h =
      let (held, _, _) = read_file-loaded d r.path max_document old e in
      (ground arith, ground arith)

  -- An object that was stored has the reference of its content, and its bytes are there.
  pub put-eq-ok :
      (b : Bytes) (suffix : String) (d d' : Disk) {r : Reference}
      → put codec b suffix d ≡ (ok r, d')
      → (r ≡ reference codec b suffix) × (lookup r.path d'.files ≡ some b)
  unfolding put
  put-eq-ok b suffix d d' h =
      let (e, held) = put_at-eq-ok (reference codec b suffix) b _ d d' refl h in (e, rw e held)

  check_object_sound :
      (r : Reference) (l : Load) (b : Bytes)
      → check_object codec r l ≡ ok b
      → (l ≡ loaded b) × (length b ≡ r.bytes) × (codec.hash b ≡ r.sha256)
  check_object_sound r missing b h = cc
  check_object_sound r (failed e) b h = cc
  check_object_sound r (loaded c) b h = ground arith

  -- What a verified read returns is stored at the reference's path, which names an object, and has
  -- the reference's length and hash.
  pub verified_read_sound :
      (r : Reference) (d : Disk) (b : Bytes)
      → verified_read codec r d ≡ ok b
      → (match_string object_path r.path ≡ true)
        × (lookup r.path d.files ≡ some b)
        × (length b ≡ r.bytes)
        × (codec.hash b ≡ r.sha256)
        × (length b ≤ max_document)
  unfolding verified_read
  verified_read_sound r d b h =
      let (path, h₁) = refuse_if-passed _ _ _ h in
      let (l, length_eq, hash_eq) = check_object_sound r _ b h₁ in
      let (held, fits, _) = read_file-loaded d r.path max_document b l in
      (ground arith, held, length_eq, hash_eq, fits)

-- The two disks differ in `current.json` at most.
pub record Agrees (d d' : Disk) : Type 0 where
  pub others : (p : String) → p ≢ "current.json" → lookup p d'.files ≡ lookup p d.files
  pub readable : d'.unreadable ≡ d.unreadable

module _ (codec : Codec) {d d' : Disk} (same : Agrees d d') where
  read_file-Agrees :
      (p : String) (limit : ℕ) → p ≢ "current.json" → read_file d' p limit ≡ read_file d p limit
  unfolding read_file
  read_file-Agrees p limit other = ground (arith, same.others p other, same.readable)

  object_ne_current : (p : String) → match_string object_path p ≡ true → p ≢ "current.json"
  unfolding object_path match_string
  object_ne_current p h e =
      let k : match_string object_path "current.json" ≡ true =
        subst (λ t. match_string object_path t ≡ true) e h in
      cc

  -- A verified read does not look at `current.json`.
  pub verified_read-Agrees : (r : Reference) → verified_read codec r d' ≡ verified_read codec r d
  unfolding verified_read refuse_if
  verified_read-Agrees r = elim (Bool-cases (match_string object_path r.path)) [
    | inl h ↦ rw h (
        ap (check_object codec r)
          (read_file-Agrees r.path max_document (object_ne_current r.path h)))
    | inr h ↦ rw h
  ]

  verify_catalogs-Agrees :
      (cs : Dict Catalog) → verify_catalogs codec cs d' ≡ verify_catalogs codec cs d
  unfolding verify_catalogs
  verify_catalogs-Agrees [] = refl
  verify_catalogs-Agrees ((id, c) ∷ rest) = elim (Option-cases c.artifact) [
    | inl e ↦ rw e (verify_catalogs-Agrees rest)
    | inr (r, e) ↦ rw e (rw (verified_read-Agrees, verify_catalogs-Agrees rest))
  ]

  verify_events-Agrees : (es : List Event) → verify_events codec es d' ≡ verify_events codec es d
  unfolding verify_events
  verify_events-Agrees [] = refl
  verify_events-Agrees (e ∷ rest) = rw (verified_read-Agrees, verify_events-Agrees rest)

  pub verify_snapshot-Agrees :
      (s : Snapshot) → verify_snapshot codec s d' ≡ verify_snapshot codec s d
  unfolding verify_snapshot
  verify_snapshot-Agrees s = rw (verified_read-Agrees, verify_catalogs-Agrees, verify_events-Agrees)
