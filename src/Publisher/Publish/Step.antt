-- ===== src/Publisher/Publish/Step.antt =====
-- One attempt: what a failure keeps, what a success records.
use romd_dat_catalogs.Prelude.{
  ℕ, String, ◌≡◌, refl, sym, subst, ◌≢◌, none, some, [], ◌∷◌, ◌++◌, arith, string_eq, option_eq,
  Result, ok, err, refuse_if,
}
use romd_dat_catalogs.Prelude.Dict.{Dict, lookup, insert, lookup-insert, lookup-insert_self}
use romd_dat_catalogs.Publisher.{Bytes, Counts, Reference, reference_eq, Attempt, Catalog}
use romd_dat_catalogs.Publisher.Disk.{Disk, pure, lift, ◌>>=◌}
use romd_dat_catalogs.Publisher.Disk.Keeps.{bind-eq-ok, Keeps, keeps_rules}
use romd_dat_catalogs.Publisher.Objects.{reference, put}
use romd_dat_catalogs.Publisher.Objects.Laws.{put-eq-ok, put-Keeps, pure-eq-ok}
use romd_dat_catalogs.Publisher.Arguments.{Library}
use romd_dat_catalogs.Publisher.Publish.{
  Loop, entry_of, evaluate, failed_catalog, healthy_catalog, new_event, accept, settle, process,
}

-- The entry after a failure: what was published stays, and the failure is told.
pub record IsRetained (c c' : Catalog) (code stamp : String) : Type 0 where
  pub name : c'.name ≡ c.name
  pub artifact : c'.artifact ≡ c.artifact
  pub counts : c'.counts ≡ c.counts
  pub provenance : c'.provenance ≡ c.provenance
  pub last_changed : c'.last_changed ≡ c.last_changed
  pub last_successful_check : c'.last_successful_check ≡ c.last_successful_check
  pub health : c'.health ≡ "failed"
  pub error : c'.error ≡ some code
  pub last_attempt : c'.last_attempt ≡ stamp

-- The entry after a success: the new document, or the old one where nothing changed.
pub record IsRenewed (c c' : Catalog) (artifact : Reference) (counts : Counts) (stamp : String)
    : Type 0 where
  pub name : c'.name ≡ c.name
  pub artifact_eq : c'.artifact ≡ some artifact
  pub health : c'.health ≡ "healthy"
  pub error : c'.error ≡ none
  pub retry_at : c'.retry_at ≡ none
  pub last_successful_check : c'.last_successful_check ≡ some stamp
  pub last_attempt : c'.last_attempt ≡ stamp
  pub unchanged :
      c.artifact ≡ some artifact
      → (c'.last_changed ≡ c.last_changed) × (c'.counts ≡ c.counts) × (c'.provenance ≡ c.provenance)
  pub changed :
      c.artifact ≢ some artifact → (c'.last_changed ≡ some stamp) × (c'.counts ≡ some counts)

module _ (lib : Library) (sequence : ℕ) (stamp : String) (a : Attempt) where
  -- The catalogs of all other identifiers stay.
  abbrev pub Others : Dict Catalog → Dict Catalog → Type 0
  Others before after = (j : String) → j ≢ a.catalog_id → lookup j after ≡ lookup j before

  -- What one attempt does to the loop's variables when it fails to bring a document.
  pub record IsFailure (code : String) (l l' : Loop) : Type 0 where
    pub entry : Catalog
    pub held : lookup a.catalog_id l'.catalogs ≡ some entry
    pub retained : IsRetained (entry_of a l.catalogs) entry code stamp
    pub events : l'.events ≡ l.events
    pub others : Others l.catalogs l'.catalogs

  failed_catalog-IsRetained :
      (code : String) (c : Catalog)
      → IsRetained c (failed_catalog a code (record c { last_attempt = stamp })) code stamp
  unfolding failed_catalog
  failed_catalog-IsRetained code c = record {
    name = refl;
    artifact = refl;
    counts = refl;
    provenance = refl;
    last_changed = refl;
    last_successful_check = refl;
    health = refl;
    error = refl;
    last_attempt = refl;
  }

  insert-Others : (c : Catalog) (d : Dict Catalog) → Others d (insert a.catalog_id c d)
  insert-Others c d j other = ground (arith, lookup-insert j a.catalog_id c d)

  -- An attempt that brings no document keeps the entry's published document with all that
  -- describes it, marks the entry as failed with the code, emits no event, writes no file, and
  -- leaves every other catalog alone.
  pub process-IsFailure :
      (code : String) (l : Loop) (d : Disk)
      → evaluate lib a ≡ err code
      → (entry_of a l.catalogs).name ≡ a.expected_name
      → (l' : Loop) × (process lib sequence stamp a l d ≡ (ok l', d)) × IsFailure code l l'
  unfolding process ◌>>=◌ refuse_if lift pure
  process-IsFailure code l d failed named =
      let c = record (entry_of a l.catalogs) { last_attempt = stamp } in
      let c' = failed_catalog a code c in
      (
        record l { catalogs = insert a.catalog_id c' l.catalogs },
        ground arith,
        record {
          entry = c';
          held = lookup-insert_self a.catalog_id c' l.catalogs;
          retained = failed_catalog-IsRetained code (entry_of a l.catalogs);
          events = refl;
          others = insert-Others c' l.catalogs;
        },
      )

  -- What one attempt does to the loop's variables when it brings a document.
  pub record IsSuccess (raw : Bytes) (counts : Counts) (l l' : Loop) (d' : Disk) : Type 0 where
    pub artifact : Reference
    pub content : artifact ≡ reference lib.codec raw "dat"
    pub stored : lookup artifact.path d'.files ≡ some raw
    pub entry : Catalog
    pub held : lookup a.catalog_id l'.catalogs ≡ some entry
    pub renewed : IsRenewed (entry_of a l.catalogs) entry artifact counts stamp
    pub no_event : (entry_of a l.catalogs).artifact ≡ some artifact → l'.events ≡ l.events
    pub one_event :
        (entry_of a l.catalogs).artifact ≢ some artifact
        → l'.events ≡ l.events ++ (new_event sequence stamp a entry artifact ∷ [])
    pub others : Others l.catalogs l'.catalogs

  healthy_catalog-IsRenewed :
      (artifact : Reference) (counts : Counts) (c : Catalog)
      → IsRenewed c
          (healthy_catalog a stamp artifact counts (record c { last_attempt = stamp }))
          artifact
          counts
          stamp
  unfolding healthy_catalog
  healthy_catalog-IsRenewed artifact counts c = ground arith

  accept-IsSuccess :
      (raw : Bytes) (counts : Counts) (l : Loop) (d' : Disk) (r : Reference)
      → r ≡ reference lib.codec raw "dat"
      → lookup r.path d'.files ≡ some raw
      → IsSuccess raw counts l
          (accept sequence stamp a
            (record (entry_of a l.catalogs) { last_attempt = stamp })
            counts
            l
            r)
          d'
  unfolding accept
  accept-IsSuccess raw counts l d' r e stored =
      let c = record (entry_of a l.catalogs) { last_attempt = stamp } in
      let c' = healthy_catalog a stamp r counts c in
      record {
        artifact = r;
        content = e;
        stored = stored;
        entry = c';
        held = lookup-insert_self a.catalog_id c' l.catalogs;
        renewed = healthy_catalog-IsRenewed r counts (entry_of a l.catalogs);
        no_event = λ p. ground arith;
        one_event = λ p. ground arith;
        others = insert-Others c' l.catalogs;
      }

  -- An attempt that brings a document and completes stores the document unchanged, points the entry
  -- at it, and marks the entry as healthy; it emits one event exactly where the reference is new,
  -- and only then changes what describes the document. Every other catalog is left alone.
  pub process-IsSuccess :
      (raw : Bytes) (counts : Counts) (l l' : Loop) (d d' : Disk)
      → evaluate lib a ≡ ok (raw, counts)
      → process lib sequence stamp a l d ≡ (ok l', d')
      → IsSuccess raw counts l l' d'
  unfolding process settle
  process-IsSuccess raw counts l l' d d' brought e =
      let (_, d₁, _, e₁) = bind-eq-ok (lift _) _ d e in
      let (r, d₂, p, e₂) = bind-eq-ok (put lib.codec raw "dat") _ d₁ (rw brought at e₁) in
      let (value, same) = pure-eq-ok _ d₂ e₂ in
      let (re, stored) = put-eq-ok lib.codec raw "dat" d₁ d₂ p in
      subst (λ m. IsSuccess raw counts l m d') (sym value)
        (accept-IsSuccess raw counts l d' r re
          (subst (λ q. lookup r.path q.files ≡ some raw) same stored))

  settle-Keeps :
      (c : Catalog) (o : Result (Bytes × Counts)) (l : Loop)
      → Keeps (settle lib sequence stamp a c o l)
  unfolding settle
  settle-Keeps c (err code) l = search keeps_rules
  settle-Keeps c (ok (raw, counts)) l = search (keeps_rules, put-Keeps)

  -- One attempt changes no file.
  pub process-Keeps : (l : Loop) → Keeps (process lib sequence stamp a l)
  unfolding process
  process-Keeps l = search (keeps_rules, settle-Keeps)
