-- ===== src/Distribution/Restore/Bounded.antt =====
-- What a state archive that was restored has become.
use romd_dat_catalogs.Prelude.{
  ◌≢◌, ◌⊎◌, ◌++◌, ◌||◌, ℕ, ◌+◌, ◌-◌, ◌≤◌, ◌≡◌, refl, sym, ◌∙◌, ap, ap₂, inl, inr, String, Bool,
  true, false, not, List, [], ◌∷◌, All, arith, length, ltb, string_eq, nat_eq, ◌==◌, ok, Bool-cases,
  refuse_if, refuse_if-passed, >>=-eq-ok,
}
use romd_dat_catalogs.Prelude.Dict.{Dict, insert}
use romd_dat_catalogs.Prelude.Parts.{has_part-false, has_prefix-true}
use romd_dat_catalogs.Prelude.Text.{has_prefix, codes, decimal}
use romd_dat_catalogs.Publisher.{Bytes, Snapshot, Stream, read_bounded}
use romd_dat_catalogs.Publisher.Disk.{Disk}
use romd_dat_catalogs.Publisher.Objects.{load_snapshot}
use romd_dat_catalogs.Definitions.Parse.{equal}
use romd_dat_catalogs.Distribution.{Index, max_state}
use romd_dat_catalogs.Distribution.Restore.{
  Entry, Host, is_safe, save, expanded, read_entry, unpack, directory, check_archive, version_file,
  settle, restore_state,
}

-- The bytes of all files.
abbrev pub total_bytes : Dict Bytes → ℕ
total_bytes [] = 0
total_bytes ((_, b) ∷ d) = length b + total_bytes d

insert-total_bytes :
    (k : String) (b : Bytes) (d : Dict Bytes)
    → total_bytes (insert k b d) ≤ total_bytes d + length b
unfolding insert
insert-total_bytes k b [] = omega arith
insert-total_bytes k b ((j, c) ∷ d) = ground (arith, insert-total_bytes k b d)

insert-All :
    (P : String → Type 0) (k : String) (b : Bytes) (d : Dict Bytes)
    → P k
    → All (λ e. P e.0) d
    → All (λ e. P e.0) (insert k b d)
unfolding insert
insert-All P k b [] p h = (p, tt)
insert-All P k b ((j, c) ∷ d) p (q, h) = elim (Bool-cases (k == j)) [
  | inl e ↦ rw e (p, h)
  | inr e ↦ rw e (q, insert-All P k b d p h)
]

-- A name that leads nowhere but to the pointer or below objects/: it never names a parent
-- directory, and no backslash separates its parts.
pub record IsConfined (name : String) : Type 0 where
  pub place : (name ≡ "current.json") ⊎ ((rest : List ℕ) × (codes name ≡ codes "objects/" ++ rest))
  pub no_parent : (xs ys : List ℕ) → codes name ≢ xs ++ (codes ".." ++ ys)
  pub no_backslash : (xs ys : List ℕ) → codes name ≢ xs ++ (codes "\\" ++ ys)

is_safe-place :
    (name : String)
    → (name == "current.json" || has_prefix (codes name) (codes "objects/")) ≡ true
    → (name ≡ "current.json") ⊎ ((rest : List ℕ) × (codes name ≡ codes "objects/" ++ rest))
is_safe-place name h = elim (Bool-cases (has_prefix (codes name) (codes "objects/"))) [
  | inl e ↦ inr (has_prefix-true (codes name) (codes "objects/") e)
  | inr e ↦ inl (ground (arith, e, h))
]

is_safe-IsConfined : (name : String) → is_safe name ≡ true → IsConfined name
unfolding is_safe
is_safe-IsConfined name h = record {
  place = is_safe-place name (ground (arith, h));
  no_parent = has_part-false (codes name) (codes "..") (ground (arith, h));
  no_backslash = has_part-false (codes name) (codes "\\") (ground (arith, h));
}

-- Files of safe names, of no more bytes than counted, within the limit.
pub record IsUnpacked (total : ℕ) (files : Dict Bytes) : Type 0 where
  pub safe : All (λ e. IsConfined e.0) files
  pub counted : total_bytes files ≤ total
  pub limit : total ≤ max_state

save-eq-ok :
    (h : Host) (name : String) (b : Bytes) (files out : Dict Bytes)
    → save h name b files ≡ ok out
    → out ≡ insert name b files
unfolding save
save-eq-ok h name b files out e = elim (Bool-cases (h.cannot_write name)) [
  | inl refused ↦ absurd (let f = rw refused at e in cc)
  | inr written ↦ let f = rw written at e in cc
]

expanded-length :
    (s : Stream) (limit : ℕ) (b : Bytes) → expanded (read_bounded s limit) ≡ ok b → length b ≤ limit
unfolding read_bounded
expanded-length s limit b e = elim (Bool-cases (ltb limit (length s.delivered))) [
  | inl over ↦ absurd (let f = rw over at e in cc)
  | inr within ↦ elim (Bool-cases s.fails) [
    | inl broke ↦ absurd (let f = rw (within, broke) at e in cc)
    | inr whole ↦
        let f = rw (within, whole) at e in
        let same : s.delivered ≡ b = cc in rw⁻¹ same (ground (arith, within))
  ]
]

read_entry-eq-ok :
    (seen : List String) (total : ℕ) (f : Entry) (b : Bytes)
    → read_entry seen total f ≡ ok b
    → IsConfined f.name × (length b ≤ max_state - total)
unfolding read_entry
read_entry-eq-ok seen total f b e =
    let (good, e₁) = refuse_if-passed _ _ _ e in
    let (r, _, e₂) = >>=-eq-ok f.opened _ e₁ in
    (is_safe-IsConfined f.name (ground (arith, good)), expanded-length r (max_state - total) b e₂)

unpack-IsUnpacked :
    (h : Host) (entries : List Entry) (seen : List String) (total : ℕ) (files out : Dict Bytes)
    → IsUnpacked total files
    → unpack h entries seen total files ≡ ok out
    → (n : ℕ) × IsUnpacked n out
unfolding unpack
unpack-IsUnpacked h [] seen total files out k e =
    let same : files ≡ out = cc in (total, rw⁻¹ same k)
unpack-IsUnpacked h (f ∷ rest) seen total files out k e =
    let (b, e₁, e₂) = >>=-eq-ok (read_entry seen total f) _ e in
    let (safe, small) = read_entry-eq-ok seen total f b e₁ in
    let (files', e₃, e₄) = >>=-eq-ok (save h f.name b files) _ e₂ in
    let put = save-eq-ok h f.name b files files' e₃ in
    let low = k.limit in
    let sum = k.counted in
    let grown : total_bytes files' ≤ total + length b =
      rw put (omega (arith, insert-total_bytes f.name b files, sum)) in
    unpack-IsUnpacked h rest (f.name ∷ seen) (total + length b) files' out
      (record {
        safe = rw put (insert-All IsConfined f.name b files safe k.safe);
        counted = grown;
        limit = omega arith;
      })
      e₄

-- What `RestoreState` has made sure of. `unpacked` are the archive's files, to which it adds the
-- one that holds the version.
pub record IsRestored (h : Host) (index : Index) (raw : Bytes) (d : Disk) : Type 0 where
  pub unpacked : Dict Bytes
  pub files : d.files ≡ insert version_file (codes (decimal index.version)) unpacked
  pub safe : All (λ e. IsConfined e.0) unpacked
  pub small : total_bytes unpacked ≤ max_state
  pub size : length raw ≡ index.state.bytes
  pub hash : h.codec.hash raw ≡ index.state.sha256
  pub free : h.destination_exists ≡ false
  pub restored : Snapshot
  pub loads : load_snapshot h.codec (directory h unpacked) ≡ ok restored
  pub same : h.codec.encode_snapshot restored ≡ h.codec.encode_snapshot index.snapshot

equal_sound : (xs ys : Bytes) → equal xs ys ≡ true → xs ≡ ys
equal_sound [] [] h = refl
equal_sound [] (y ∷ ys) h = absurd cc
equal_sound (x ∷ xs) [] h = absurd cc
equal_sound (x ∷ xs) (y ∷ ys) h =
    let head : x ≡ y = ground (arith, h) in
    let tail : equal xs ys ≡ true = ground (arith, h) in
    ap₂ (λ a b. a ∷ b) head (equal_sound xs ys tail)

forced : (b : Bool) → not b ≡ false → b ≡ true
forced true h = refl
forced false h = absurd cc

refuse_if-eq-ok : (b : Bool) (m : String) (u : Unit {0}) → refuse_if b m ≡ ok u → b ≡ false
unfolding refuse_if
refuse_if-eq-ok b m u e = ground arith

-- When `RestoreState` succeeds, the archive has the size and the hash that the index names,
-- nothing stood at the destination, and the directory there holds the version beside unpacked
-- files that stand as current.json or below objects/, name no parent directory, have 64 MB at
-- most, and from which the snapshot of the index is loaded.
pub restore_state-IsRestored :
    (h : Host) (index : Index) (raw : Bytes) (d : Disk)
    → restore_state h index raw ≡ ok d
    → IsRestored h index raw d
unfolding restore_state check_archive settle
restore_state-IsRestored h index raw d e =
    let (_, checked, e₁) = >>=-eq-ok (check_archive h index raw) _ e in
    let (bound, c₁) = refuse_if-passed _ _ _ checked in
    let (_, c₂) = refuse_if-passed _ _ _ c₁ in
    let (entries, _, e₂) = >>=-eq-ok (h.unzip raw) _ e₁ in
    let (_, _, e₃) = >>=-eq-ok h.make_temporary _ e₂ in
    let (files, e₄, e₅) = >>=-eq-ok (unpack h entries [] 0 []) _ e₃ in
    let (restored, loads, e₆) = >>=-eq-ok (load_snapshot h.codec (directory h files)) _ e₅ in
    let (equal_bytes, e₇) = refuse_if-passed _ _ _ e₆ in
    let (files', e₈, e₉) =
      >>=-eq-ok (save h version_file (codes (decimal index.version)) files) _ e₇ in
    let (_, _, e₁₀) = >>=-eq-ok h.rename _ e₉ in
    let (n, u) =
      unpack-IsUnpacked h entries [] 0 [] files
        (record { safe = tt; counted = omega arith; limit = omega arith }) e₄ in
    let put = save-eq-ok h version_file (codes (decimal index.version)) files files' e₈ in
    let kept : directory h files' ≡ d = cc in
    let counted = u.counted in
    let limit = u.limit in
    record {
      unpacked = files;
      files = ap (λ (k : Disk). k.files) (sym kept) ∙ put;
      safe = u.safe;
      small = omega arith;
      size = ground (arith, bound);
      hash = ground (arith, bound);
      free = refuse_if-eq-ok _ _ _ c₂;
      restored = restored;
      loads = loads;
      same = equal_sound _ _ (forced _ equal_bytes);
    }
