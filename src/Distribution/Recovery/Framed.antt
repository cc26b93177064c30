-- ===== src/Distribution/Recovery/Framed.antt =====
-- The files beside a publication do not take part in its load.
use romd_dat_catalogs.Prelude.{
  ℕ, ◌≡◌, refl, String, true, List, [], ◌∷◌, Result, Bool-cases, Option-cases, refuse_if, ok, err,
  ◌>>=◌, inl, inr,
}
use romd_dat_catalogs.Prelude.Dict.{Dict}
use romd_dat_catalogs.Prelude.Regex.{match_string}
use romd_dat_catalogs.Publisher.{Reference, Catalog, Event, Snapshot}
use romd_dat_catalogs.Publisher.Disk.{Disk, read_file}
use romd_dat_catalogs.Publisher.Objects.{
  Codec, object_path, verified_read, verify_catalogs, verify_events, verify_snapshot, load_snapshot,
  entries,
}

>>=-same :
    {A B : Type 0} (r : Result A) {f g : A → Result B}
    → ((a : A) → f a ≡ g a)
    → (r >>= f) ≡ (r >>= g)
>>=-same (ok a) h = h a
>>=-same (err e) h = refl

-- Two disks that give the same objects.
module _ (codec : Codec) (d d' : Disk)
    (same : (p : String)
      → match_string object_path p ≡ true
      → (n : ℕ) → read_file d' p n ≡ read_file d p n) where
  verified_read-same : (r : Reference) → verified_read codec r d' ≡ verified_read codec r d
  unfolding verified_read refuse_if
  verified_read-same r = elim (Bool-cases (match_string object_path r.path)) [
    | inl h ↦ rw (h, same r.path h _) refl
    | inr h ↦ rw h refl
  ]

  verify_catalogs-same :
      (catalogs : Dict Catalog)
      → verify_catalogs codec catalogs d' ≡ verify_catalogs codec catalogs d
  unfolding verify_catalogs
  verify_catalogs-same [] = refl
  verify_catalogs-same ((id, c) ∷ rest) = elim (Option-cases c.artifact) [
    | inl h ↦ rw (h, verify_catalogs-same rest) refl
    | inr (r, h) ↦ rw (h, verified_read-same r, verify_catalogs-same rest) refl
  ]

  verify_events-same :
      (events : List Event) → verify_events codec events d' ≡ verify_events codec events d
  unfolding verify_events
  verify_events-same [] = refl
  verify_events-same (e ∷ rest) = rw (verified_read-same e.artifact, verify_events-same rest) refl

  verify_snapshot-same : (s : Snapshot) → verify_snapshot codec s d' ≡ verify_snapshot codec s d
  unfolding verify_snapshot
  verify_snapshot-same s =
      rw
        (
          verified_read-same s.feed,
          verify_catalogs-same (entries s.catalogs),
          verify_events-same s.events,
        )
        refl

  pub load_snapshot-same :
      ((n : ℕ) → read_file d' "current.json" n ≡ read_file d "current.json" n)
      → load_snapshot codec d' ≡ load_snapshot codec d
  unfolding load_snapshot
  load_snapshot-same current = rw (current _) (
      >>=-same _ (λ raw. >>=-same (codec.decode_current raw) (λ c. >>=-same (refuse_if _ _) (λ _.
        rw (verified_read-same c.snapshot) (
          >>=-same _ (λ b. >>=-same (refuse_if _ _) (λ _.
            >>=-same (codec.decode_snapshot b)
              (λ s. >>=-same (refuse_if _ _) (λ _. rw (verify_snapshot-same s) refl)))))))))
