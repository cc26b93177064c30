-- ===== src/Distribution/Recovery/Reloaded.antt =====
-- What a rebuilt directory gives back.
use romd_dat_catalogs.Prelude.{
  if◌then◌else◌, ltb, length, ℕ, ◌≡◌, refl, sym, ◌∙◌, ap, subst, String, true, false, Option, none,
  some, [], Result, Bool-cases, ok, err, inl, inr, arith, string_eq, ◌==◌, >>=-eq-ok,
  refuse_if-passed,
}
use romd_dat_catalogs.Prelude.Dict.{lookup, insert, lookup-insert, lookup-insert_self}
use romd_dat_catalogs.Prelude.Text.{codes, decimal}
use romd_dat_catalogs.Prelude.Regex.{match_string}
use romd_dat_catalogs.Publisher.{Bytes}
use romd_dat_catalogs.Publisher.Disk.{Disk, missing, failed, loaded, read_file}
use romd_dat_catalogs.Publisher.Objects.{Codec, object_path, load_snapshot, entries}
use romd_dat_catalogs.Publisher.Latest.Restore.{restore_latest}
use romd_dat_catalogs.Publisher.Latest.Restore.Loads.{IsLoadable, load_snapshot-restore_latest}
use romd_dat_catalogs.Definitions.{Registry}
use romd_dat_catalogs.Definitions.Validate.{validate}
use romd_dat_catalogs.Distribution.{Index}
use romd_dat_catalogs.Distribution.Git.{fetch_documents}
use romd_dat_catalogs.Distribution.Restore.{version_file}
use romd_dat_catalogs.Distribution.Recovery.{
  Goal, keep, definitions_file, keep_definitions, keep_version, standing, restore_git,
}
use romd_dat_catalogs.Distribution.Recovery.Framed.{load_snapshot-same}

ok-injective : {A : Type 0} {a b : A} → ◌≡◌ {A = Result A} (ok a) (ok b) → a ≡ b
ok-injective e = cc

abbrev with_file : Disk → String → Bytes → Disk
with_file d name b = record d { files = insert name b d.files }

read_file-insert :
    (d : Disk) (name : String) (b : Bytes) (p : String) (n : ℕ)
    → (p == name) ≡ false
    → read_file (with_file d name b) p n ≡ read_file d p n
unfolding read_file
read_file-insert d name b p n h =
    let kept : lookup p (insert name b d.files) ≡ lookup p d.files =
      ground (arith, lookup-insert p name b d.files, h) in
    ap
      (λ o. elim o [
        | none ↦ missing
        | some c ↦
            if d.unreadable p
            then failed "io failure"
            else if ltb n (length c)
            then failed "size_limit"
            else loaded c
      ])
      kept

apart :
    (p name : String)
    → match_string object_path p ≡ true
    → match_string object_path name ≡ false
    → (p == name) ≡ false
apart p name h k = elim (Bool-cases (p == name)) [
  | inl e ↦ absurd (ground (arith, e, h, k))
  | inr e ↦ e
]

load_snapshot-keep :
    (goal : Goal) (codec : Codec) (name : String) (b : Bytes) (d d' : Disk)
    → match_string object_path name ≡ false
    → ("current.json" == name) ≡ false
    → keep goal name b d ≡ ok d'
    → (load_snapshot codec d' ≡ load_snapshot codec d) × (d'.files ≡ insert name b d.files)
unfolding keep
load_snapshot-keep goal codec name b d d' h k e = elim (Bool-cases (goal.cannot_write name)) [
  | inl f ↦ absurd cc
  | inr f ↦
      let same : with_file d name b ≡ d' = ok-injective (ground (arith, f, e)) in
      (
        subst (λ q. load_snapshot codec q ≡ load_snapshot codec d) same
            (load_snapshot-same codec d (with_file d name b)
              (λ p m n. read_file-insert d name b p n (apart p name m h))
              (λ n. read_file-insert d name b "current.json" n k)),
        sym (ap (λ q. q.files) same),
      )
]

standing-eq-ok : (r : Result (Unit {0}) × Disk) (d : Disk) → standing r ≡ ok d → r ≡ (ok tt, d)
standing-eq-ok (ok u, q) d e = ap (λ x. (ok tt, x)) (ok-injective e)
standing-eq-ok (err m, q) d e = absurd cc

keep_definitions-same :
    (goal : Goal) (codec : Codec) (o : Option Registry) (d d' : Disk)
    → keep_definitions goal o d ≡ ok d'
    → load_snapshot codec d' ≡ load_snapshot codec d
unfolding keep_definitions match_string string_eq object_path
keep_definitions-same goal codec none d d' e = ap (load_snapshot codec) (sym (ok-injective e))
keep_definitions-same goal codec (some registry) d d' e =
    let (_, _, e₁) = >>=-eq-ok (validate goal.to_lower registry) _ e in
    let (b, _, e₂) = >>=-eq-ok (goal.encode_definitions registry) _ e₁ in
    (load_snapshot-keep goal codec definitions_file b d d' refl refl e₂).0

-- When `RestorePublication` rebuilds a directory from a current index, `LoadSnapshot` gives back
-- exactly the snapshot of the index from it, and the version of the index stands beside it,
-- provided that encoding/json reads the two metadata files back, the hash makes an object's name,
-- the files can be read, and the metadata is within its limit.
pub load_snapshot-restore_git :
    (goal : Goal) (index : Index) (d : Disk)
    → IsLoadable goal.library index.snapshot goal.blank
    → restore_git goal index ≡ ok d
    → (load_snapshot goal.library.codec d ≡ ok index.snapshot)
      × (lookup version_file d.files ≡ some (codes (decimal index.version)))
unfolding restore_git keep_version match_string string_eq object_path
load_snapshot-restore_git goal index d k e =
    let codec = goal.library.codec in
    let (_, e₁) = refuse_if-passed _ _ _ e in
    let (docs, _, e₂) =
      >>=-eq-ok (fetch_documents goal.net index.downloads (entries index.snapshot.catalogs) []) _
        e₁ in
    let (d₁, e₃, e₄) =
      >>=-eq-ok (standing (restore_latest goal.library goal.place index.snapshot docs goal.blank)) _
        e₂ in
    let (d₂, e₅, e₆) = >>=-eq-ok (keep_definitions goal index.definitions d₁) _ e₄ in
    let loads =
      load_snapshot-restore_latest goal.library goal.place index.snapshot docs goal.blank d₁ k
        (standing-eq-ok _ d₁ e₃) in
    let (kept, files) =
      load_snapshot-keep goal codec version_file (codes (decimal index.version)) d₂ d refl refl
        e₆ in
    (
      kept ∙ (keep_definitions-same goal codec index.definitions d₁ d₂ e₅ ∙ loads),
      ap (lookup version_file) files ∙ lookup-insert_self version_file _ d₂.files,
    )
