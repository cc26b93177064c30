-- ===== src/Publisher/Publish/Commit.antt =====
-- The whole of `Publish`: atomic, and what it commits is what is loaded next.
use romd_dat_catalogs.Prelude.{
  ℕ, String, ◌≡◌, refl, ◌≢◌, some, List, [], ◌∷◌, arith, string_eq, nat_eq, Result, ok, err,
}
use romd_dat_catalogs.Prelude.Dict.{lookup, lookup-insert}
use romd_dat_catalogs.Publisher.{Bytes, Reference, Attempt, Snapshot}
use romd_dat_catalogs.Publisher.Disk.{Disk, pure, continue, ◌>>=◌, atomic_write}
use romd_dat_catalogs.Publisher.Disk.Keeps.{
  Extends, Keeps, keeps_rules, atomic_write-eq-ok, atomic_write-eq-err,
}
use romd_dat_catalogs.Publisher.Objects.Laws.{put-Keeps}
use romd_dat_catalogs.Publisher.Arguments.{Library, Options, Host}
use romd_dat_catalogs.Publisher.Publish.{
  Loop, process_all, store_index, store_snapshot, commit, prepare, publish,
}
use romd_dat_catalogs.Publisher.Publish.Step.{process-Keeps}

module _ (lib : Library) where
  process_all-Keeps :
      (sequence : ℕ) (stamp : String) (attempts : List Attempt) (l : Loop)
      → Keeps (process_all lib sequence stamp attempts l)
  unfolding process_all
  process_all-Keeps sequence stamp [] l = search keeps_rules
  process_all-Keeps sequence stamp (a ∷ rest) l =
      search (keeps_rules, process-Keeps, process_all-Keeps sequence stamp rest)

  store_index-Keeps : (opt : Options) (s : Snapshot) → Keeps (store_index lib opt s)
  unfolding store_index
  store_index-Keeps opt s = search (keeps_rules, put-Keeps) depth 20

  store_snapshot-Keeps :
      (base : String) (opt : Options) (s : Snapshot) → Keeps (store_snapshot lib base opt s)
  unfolding store_snapshot
  store_snapshot-Keeps base opt s = search (keeps_rules, put-Keeps, store_index-Keeps) depth 20

  -- Nothing before the commit changes a file.
  pub prepare-Keeps :
      (host : Host) (attempts : List Attempt) (base : String) (opt : Options)
      → Keeps (prepare lib host attempts base opt)
  unfolding prepare
  prepare-Keeps host attempts base opt =
      search (keeps_rules, process_all-Keeps, store_snapshot-Keeps) depth 20

  -- Every file but `current.json` is as it was, and `current.json` is one of the two.
  pub record IsAtomic (r : Result Snapshot) (d d' : Disk) : Type 0 where
    pub kept :
        (p : String) (b : Bytes)
        → p ≢ "current.json"
        → lookup p d.files ≡ some b
        → lookup p d'.files ≡ some b
    pub on_error :
        (m : String) → r ≡ err m → lookup "current.json" d'.files ≡ lookup "current.json" d.files

  write_current :
      (s : Snapshot) (b : Bytes) (d d₁ : Disk) (w : Result (Unit {0}) × Disk)
      → Extends d d₁
      → atomic_write "current.json" b d₁ ≡ w
      → IsAtomic (continue w (λ _. pure s)).0 d (continue w (λ _. pure s)).1
  unfolding pure
  write_current s b d d₁ (ok u, d₂) x e =
      let (files, _) = atomic_write-eq-ok "current.json" b d₁ d₂ e in
      record {
        kept = λ p c other h.
            ground (arith, files, x.kept p c, lookup-insert p "current.json" b d₁.files);
        on_error = λ m h. cc;
      }
  write_current s b d d₁ (err m, d₂) x e =
      let files = atomic_write-eq-err "current.json" b d₁ d₂ e in
      record { kept = λ p c other h. rw files (x.kept p c h); on_error = λ n h. rw files x.current }

  commit_stored :
      (d : Disk) (p : Result (Snapshot × Reference) × Disk)
      → Extends d p.1
      → IsAtomic (continue p (commit lib)).0 d (continue p (commit lib)).1
  unfolding commit ◌>>=◌
  commit_stored d (ok (s, ref), d₁) x = write_current s _ d d₁ _ x refl
  commit_stored d (err m, d₁) x = record {
    kept = λ p c other h. x.kept p c h;
    on_error = λ n h. x.current;
  }

  -- Whatever a run is given and wherever it stops, it changes no file that is there but
  -- `current.json`, and where it returns an error `current.json` is as it was.
  pub publish-IsAtomic :
      (host : Host) (attempts : List Attempt) (base : String) (opt : Options) (d : Disk)
      → IsAtomic (publish lib host attempts base opt d).0 d (publish lib host attempts base opt d).1
  unfolding publish ◌>>=◌
  publish-IsAtomic host attempts base opt d =
      commit_stored d (prepare lib host attempts base opt d)
        ((prepare-Keeps host attempts base opt).at d)
