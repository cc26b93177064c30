-- ===== src/Publisher/Latest/Restore/Loads.antt =====
-- What `RestoreLatest` rebuilds is what `LoadSnapshot` then finds.
use romd_dat_catalogs.Prelude.{
  ℕ, ◌≤◌, ◌≡◌, refl, sym, ◌∙◌, ap, subst, inl, inr, String, Bool, true, false, not, Option, none,
  some, List, [], ◌∷◌, arith, length, ◌==◌, string_eq, nat_eq, Result, ok, refuse_if, Option-cases,
  refuse_if-passed, >>=-eq-ok,
}
use romd_dat_catalogs.Prelude.Dict.{Dict, lookup, insert, lookup-insert, lookup-insert_self}
use romd_dat_catalogs.Prelude.Regex.{match_string}
use romd_dat_catalogs.Prelude.Words.{below_one64}
use romd_dat_catalogs.Publisher.{
  Bytes, Reference, reference_eq, Catalog, Event, Snapshot, format_name, max_document, max_metadata,
}
use romd_dat_catalogs.Publisher.Disk.{Disk, Io, lift, read_file, missing, failed, loaded, Load}
use romd_dat_catalogs.Publisher.Disk.Keeps.{
  Extends, Keeps, Keeps-pure, Keeps-lift, Keeps-bind, bind-eq-ok, lift-bind-eq-ok,
  inspect-bind-eq-ok, atomic_write-eq-ok,
}
use romd_dat_catalogs.Publisher.Objects.{
  object_path, check_object, reference, put, verified_read, verify_catalogs, verify_events,
  verify_snapshot, load_snapshot, entries, is_nil,
}
use romd_dat_catalogs.Publisher.Objects.Laws.{
  put-eq-ok, put-Keeps, Agrees, verified_read-Agrees, verify_snapshot-Agrees,
}
use romd_dat_catalogs.Publisher.Feed.{feed_bytes}
use romd_dat_catalogs.Publisher.Arguments.{Library}
use romd_dat_catalogs.Publisher.Publish.Reload.{current_of, load_committed, read_current}
use romd_dat_catalogs.Publisher.Latest.Restore.{
  Place, restore_one, restore_documents, restore_index, restore_feed, bad_latest, restore_latest,
}

module _ (lib : Library) {d d' : Disk} (grown : Extends d d') where
  -- An object that was read can still be read in a directory that has grown.
  read_file-Extends :
      (p : String) (limit : ℕ) (b : Bytes)
      → read_file d p limit ≡ loaded b
      → read_file d' p limit ≡ loaded b
  unfolding read_file
  read_file-Extends p limit b h = elim (Option-cases (lookup p d.files)) [
    | inl gone ↦ absurd (ground (arith, h, gone))
    | inr (c, held) ↦ ground (arith, h, held, grown.kept p c held, grown.readable)
  ]

  check_object-loaded :
      (r : Reference) (l : Load) (b : Bytes) → check_object lib.codec r l ≡ ok b → l ≡ loaded b
  check_object-loaded r missing b e = absurd cc
  check_object-loaded r (failed m) b e = absurd cc
  check_object-loaded r (loaded c) b e = ground (arith, e)

  verified_read-Extends :
      (r : Reference) (b : Bytes)
      → verified_read lib.codec r d ≡ ok b
      → verified_read lib.codec r d' ≡ ok b
  unfolding verified_read refuse_if
  verified_read-Extends r b e =
      let (path, e₁) =
        refuse_if-passed (not (match_string object_path r.path)) "invalid object path"
          (check_object lib.codec r (read_file d r.path max_document)) e in
      let here = check_object-loaded r (read_file d r.path max_document) b e₁ in
      let there = read_file-Extends r.path max_document b here in
      rw path (ap (check_object lib.codec r) (there ∙ sym here) ∙ e₁)

  verify_events-Extends :
      (es : List Event)
      → verify_events lib.codec es d ≡ ok tt
      → verify_events lib.codec es d' ≡ ok tt
  unfolding verify_events
  verify_events-Extends [] h = refl
  verify_events-Extends (e ∷ rest) h =
      let (b, e₁, e₂) = >>=-eq-ok (verified_read lib.codec e.artifact d) _ h in
      rw (verified_read-Extends e.artifact b e₁) (verify_events-Extends rest e₂)

  verify_catalogs-Extends :
      (cs : Dict Catalog)
      → verify_catalogs lib.codec cs d ≡ ok tt
      → verify_catalogs lib.codec cs d' ≡ ok tt
  unfolding verify_catalogs
  verify_catalogs-Extends [] h = refl
  verify_catalogs-Extends ((id, c) ∷ rest) h = elim (Option-cases c.artifact) [
    | inl e ↦ rw e (verify_catalogs-Extends rest (rw e at h))
    | inr (r, e) ↦
        let h' = rw e at h in
        let (b, e₁, e₂) = >>=-eq-ok (verified_read lib.codec r d) _ h' in
        rw (e, verified_read-Extends r b e₁) (verify_catalogs-Extends rest e₂)
  ]

  verify_snapshot-Extends :
      (s : Snapshot)
      → verify_snapshot lib.codec s d ≡ ok tt
      → verify_snapshot lib.codec s d' ≡ ok tt
  unfolding verify_snapshot
  verify_snapshot-Extends s h =
      let (b, e₁, e₂) = >>=-eq-ok (verified_read lib.codec s.feed d) _ h in
      let (u, e₃, e₄) = >>=-eq-ok (verify_catalogs lib.codec (entries s.catalogs) d) _ e₂ in
      rw (verified_read-Extends s.feed b e₁, verify_catalogs-Extends (entries s.catalogs) e₃)
        (verify_events-Extends s.events e₄)

read_object :
    (p : String) (limit : ℕ) (b : Bytes) (d : Disk)
    → lookup p d.files ≡ some b
    → d.unreadable p ≡ false
    → length b ≤ limit
    → read_file d p limit ≡ loaded b
unfolding read_file
read_object p limit b d held readable fits = ground arith

module _ (lib : Library) where
  restore_one-Keeps :
      (documents : Dict Bytes) (name : String) (o : Option Reference)
      → Keeps (restore_one lib documents name o)
  unfolding restore_one
  restore_one-Keeps documents name none = Keeps-pure tt
  restore_one-Keeps documents name (some r) =
      Keeps-bind _ _ (Keeps-lift _)
        (λ b. Keeps-bind _ _ (put-Keeps lib.codec b "dat") (λ ref. Keeps-lift _))

  restore_documents-Keeps :
      (documents : Dict Bytes) (cs : Dict Catalog) → Keeps (restore_documents lib documents cs)
  unfolding restore_documents
  restore_documents-Keeps documents [] = Keeps-pure tt
  restore_documents-Keeps documents ((id, c) ∷ rest) =
      Keeps-bind _ _ (restore_one-Keeps documents c.name c.artifact)
        (λ _. restore_documents-Keeps documents rest)

  -- An object that stands under its own reference is read.
  verified_read-held :
      (b : Bytes) (d : Disk)
      → match_string object_path (reference lib.codec b "json").path ≡ true
      → lookup (reference lib.codec b "json").path d.files ≡ some b
      → d.unreadable (reference lib.codec b "json").path ≡ false
      → length b ≤ max_document
      → verified_read lib.codec (reference lib.codec b "json") d ≡ ok b
  unfolding verified_read refuse_if
  verified_read-held b d named held readable fits =
      rw
        (named, read_object (reference lib.codec b "json").path max_document b d held readable fits)
        (ground arith)

  -- What the load of a restored directory rests on.
  pub record IsLoadable (s : Snapshot) (d : Disk) : Type 0 where
    pub snapshot : lib.codec.decode_snapshot (lib.codec.encode_snapshot s) ≡ ok s
    pub pointer :
        lib.codec.decode_current (
          lib.codec.encode_current
            (current_of lib s (reference lib.codec (lib.codec.encode_snapshot s) "json")))
        ≡ ok (current_of lib s (reference lib.codec (lib.codec.encode_snapshot s) "json"))
    pub readable : (p : String) → d.unreadable p ≡ false
    pub named :
        match_string object_path (reference lib.codec (lib.codec.encode_snapshot s) "json").path
        ≡ true
    pub fits : length (lib.codec.encode_snapshot s) ≤ max_metadata
    pub current :
        length (
          lib.codec.encode_current
            (current_of lib s (reference lib.codec (lib.codec.encode_snapshot s) "json")))
        ≤ max_metadata

  bad_latest-false :
      (s : Snapshot)
      → bad_latest s ≡ false
      → (s.format ≡ format_name) × (is_nil s.catalogs ≡ false) × (below_one64 s.sequence ≡ false)
  unfolding bad_latest
  bad_latest-false s h = (ground (arith, h), ground (arith, h), ground (arith, h))

  index_loads :
      (s : Snapshot) (d d' : Disk)
      → IsLoadable s d
      → bad_latest s ≡ false
      → lookup (reference lib.codec (lib.codec.encode_snapshot s) "json").path d.files
        ≡ some (lib.codec.encode_snapshot s)
      → verify_snapshot lib.codec s d ≡ ok tt
      → d'.files
        ≡ insert "current.json"
            (lib.codec.encode_current
              (current_of lib s (reference lib.codec (lib.codec.encode_snapshot s) "json")))
            d.files
      → d'.unreadable ≡ d.unreadable
      → load_snapshot lib.codec d' ≡ ok s
  index_loads s d d' k good held verified files unreadable =
      let ref = reference lib.codec (lib.codec.encode_snapshot s) "json" in
      let raw = lib.codec.encode_current (current_of lib s ref) in
      let agrees : Agrees d d' = record {
        others = λ p other. ground (arith, files, lookup-insert p "current.json" raw d.files);
        readable = unreadable;
      } in
      let (format, nil, positive) = bad_latest-false s good in
      let fits = k.fits in
      load_committed lib s ref d' k.snapshot k.pointer
        (read_current lib d' raw (rw files (lookup-insert_self "current.json" raw d.files))
          (ap (λ (f : String → Bool). f "current.json") unreadable ∙ k.readable "current.json")
          k.current)
        (verified_read-Agrees lib.codec agrees ref
          ∙ verified_read-held (lib.codec.encode_snapshot s) d k.named held (k.readable ref.path)
              (omega arith))
        fits (verify_snapshot-Agrees lib.codec agrees s ∙ verified) format nil positive

  IsLoadable-Extends :
      (s : Snapshot) {d d' : Disk} → Extends d d' → IsLoadable s d → IsLoadable s d'
  IsLoadable-Extends s grown k = record {
    snapshot = k.snapshot;
    pointer = k.pointer;
    readable = λ p. ap (λ (f : String → Bool). f p) grown.readable ∙ k.readable p;
    named = k.named;
    fits = k.fits;
    current = k.current;
  }

  -- From an action that ended at `d'`, what it keeps.
  ended :
      {A : Type 0} (m : Io A) (d d' : Disk) (r : Result A) → Keeps m → m d ≡ (r, d') → Extends d d'
  ended m d d' r k e = subst (λ q. Extends d q) (ap (λ t. t.1) e) (k.at d)

  restore_index-loads :
      (s : Snapshot) (d d' : Disk)
      → IsLoadable s d
      → bad_latest s ≡ false
      → restore_index lib s d ≡ (ok tt, d')
      → load_snapshot lib.codec d' ≡ ok s
  unfolding restore_index
  restore_index-loads s d d' k good e =
      let enc = lib.codec.encode_snapshot s in
      let (_, verified, e₁) = inspect-bind-eq-ok (verify_snapshot lib.codec s) _ d e in
      let (ref, d₁, stored, e₂) = bind-eq-ok (put lib.codec enc "json") _ d e₁ in
      let (same, held) = put-eq-ok lib.codec enc "json" d d₁ stored in
      let (files, unreadable) = atomic_write-eq-ok "current.json" _ d₁ d' e₂ in
      let grown =
        ended (put lib.codec enc "json") d d₁ (ok ref) (put-Keeps lib.codec enc "json") stored in
      index_loads s d₁ d' (IsLoadable-Extends s grown k) good
        (subst (λ r. lookup r.path d₁.files ≡ some enc) same held)
        (verify_snapshot-Extends lib grown s verified)
        (subst
          (λ r.
            d'.files
            ≡ insert "current.json" (lib.codec.encode_current (current_of lib s r)) d₁.files)
          same files)
        unreadable

  restore_feed-loads :
      (s : Snapshot) (d d' : Disk)
      → IsLoadable s d
      → bad_latest s ≡ false
      → restore_feed lib s d ≡ (ok tt, d')
      → load_snapshot lib.codec d' ≡ ok s
  unfolding restore_feed
  restore_feed-loads s d d' k good e =
      let (feed, _, e₁) = lift-bind-eq-ok (feed_bytes lib.feed_text s.events _) _ d e in
      let (ref, d₁, stored, e₂) = bind-eq-ok (put lib.codec feed "xml") _ d e₁ in
      let (_, _, e₃) = lift-bind-eq-ok (refuse_if (not (ref == s.feed)) _) _ d₁ e₂ in
      let grown =
        ended (put lib.codec feed "xml") d d₁ (ok ref) (put-Keeps lib.codec feed "xml") stored in
      restore_index-loads s d₁ d' (IsLoadable-Extends s grown k) good e₃

  refuse_if-eq-ok : (b : Bool) (m : String) (u : Unit {0}) → refuse_if b m ≡ ok u → b ≡ false
  unfolding refuse_if
  refuse_if-eq-ok b m u e = ground arith

  lift-eq-ok : {A : Type 0} (r : Result A) (d d' : Disk) (a : A) → lift r d ≡ (ok a, d') → d ≡ d'
  unfolding lift
  lift-eq-ok r d d' a e = ap (λ t. t.1) e

  -- When `RestoreLatest` succeeds, `LoadSnapshot` gives back exactly the snapshot from the
  -- directory that it has built, provided that encoding/json reads the two metadata files back,
  -- the hash makes an object's name, the files can be read, and the metadata is within its limit.
  pub load_snapshot-restore_latest :
      (place : Place) (s : Snapshot) (documents : Dict Bytes) (d d' : Disk)
      → IsLoadable s d
      → restore_latest lib place s documents d ≡ (ok tt, d')
      → load_snapshot lib.codec d' ≡ ok s
  unfolding restore_latest
  load_snapshot-restore_latest place s documents d d' k e =
      let (_, g, e₁) = lift-bind-eq-ok (refuse_if (bad_latest s) _) _ d e in
      let (_, _, e₂) = lift-bind-eq-ok (refuse_if place.destination_exists _) _ d e₁ in
      let (_, _, e₃) = lift-bind-eq-ok place.make_temporary _ d e₂ in
      let (u, d₁, stored, e₄) =
        bind-eq-ok (restore_documents lib documents (entries s.catalogs)) _ d e₃ in
      let (_, d₂, indexed, e₅) = bind-eq-ok (restore_feed lib s) _ d₁ e₄ in
      let grown =
        ended (restore_documents lib documents (entries s.catalogs)) d d₁ (ok u)
          (restore_documents-Keeps documents (entries s.catalogs)) stored in
      subst (λ q. load_snapshot lib.codec q ≡ ok s) (lift-eq-ok place.rename d₂ d' tt e₅)
        (restore_feed-loads s d₁ d₂ (IsLoadable-Extends s grown k) (refuse_if-eq-ok _ _ _ g)
          indexed)
