-- ===== src/Publisher/Publish/Attempts.antt =====
-- All attempts of a run: which catalogs change, and which events are new.
use mathlib.Core.List.{append-nil, append_assoc}
use romd_dat_catalogs.Prelude.{
  ℕ, ◌≡◌, refl, sym, ap, subst, Bool-cases, ◌||◌, ◌∙◌, inl, inr, String, Bool, true, false, some,
  List, [], ◌∷◌, ◌++◌, arith, ◌==◌, string_eq, All, All-append, take, Result, ok, err, refuse_if,
}
use romd_dat_catalogs.Prelude.Dict.{lookup, insert, lookup-insert, NodupKeys, insert-NodupKeys}
use romd_dat_catalogs.Prelude.Words.{next64}
use romd_dat_catalogs.Publisher.{Bytes, Counts, Attempt, Catalog, Event, Snapshot, Reference}
use romd_dat_catalogs.Publisher.Disk.{Disk}
use romd_dat_catalogs.Publisher.Disk.Keeps.{bind-eq-ok, lift-bind-eq-ok}
use romd_dat_catalogs.Publisher.Objects.{put, entries}
use romd_dat_catalogs.Publisher.Objects.Laws.{pure-eq-ok}
use romd_dat_catalogs.Publisher.Arguments.{Library, Options, Host, limited, sort_attempts}
use romd_dat_catalogs.Publisher.Arguments.Sorted.{attempts_on, attempts_on-sort_attempts}
use romd_dat_catalogs.Publisher.Publish.{
  Loop, evaluate, entry_of, failed_catalog, healthy_catalog, new_event, accept, settle, process,
  process_all, publish, is_changed, load_prior, clock, clock_regressed,
}
use romd_dat_catalogs.Publisher.Publish.Reload.{publish-eq-ok, prepare-IsPrepared}

failed_catalog-last_attempt :
    (a : Attempt) (code : String) (c : Catalog)
    → (failed_catalog a code c).last_attempt ≡ c.last_attempt
unfolding failed_catalog
failed_catalog-last_attempt a code c = refl

healthy_catalog-last_attempt :
    (stamp : String) (a : Attempt) (r : Reference) (counts : Counts) (c : Catalog)
    → (healthy_catalog a stamp r counts c).last_attempt ≡ c.last_attempt
unfolding healthy_catalog
healthy_catalog-last_attempt stamp a r counts c = ground arith

module _ (lib : Library) (sequence : ℕ) (stamp : String) where
  -- An event of this run, for one of its attempts.
  abbrev pub IsNew : Event → Type 0
  IsNew e = (e.sequence ≡ sequence) × (e.published_at ≡ stamp)

  -- From `l` to `l'`, where the attempted catalogs may change.
  pub record IsProgress (attempted : String → Bool) (l l' : Loop) : Type 0 where
    pub others : (j : String) → attempted j ≡ false → lookup j l'.catalogs ≡ lookup j l.catalogs
    pub tried :
        (j : String)
        → attempted j ≡ true
        → (c : Catalog) × (lookup j l'.catalogs ≡ some c) × (c.last_attempt ≡ stamp)
    pub unique : NodupKeys l.catalogs → NodupKeys l'.catalogs
    pub fresh : List Event
    pub events : l'.events ≡ l.events ++ fresh
    pub new : All IsNew fresh

  insert-IsProgress :
      (id : String) (c : Catalog) (l l' : Loop) (fresh : List Event)
      → c.last_attempt ≡ stamp
      → l'.catalogs ≡ insert id c l.catalogs
      → l'.events ≡ l.events ++ fresh
      → All IsNew fresh
      → IsProgress (λ j. j == id) l l'
  insert-IsProgress id c l l' fresh t catalogs events new = record {
    others = λ j other. ground (arith, catalogs, lookup-insert j id c l.catalogs);
    tried = λ j on. (c, ground (arith, catalogs, lookup-insert j id c l.catalogs), t);
    unique = λ u. subst NodupKeys (sym catalogs) (insert-NodupKeys id c l.catalogs u);
    fresh = fresh;
    events = events;
    new = new;
  }

  accept-IsProgress :
      (a : Attempt) (c : Catalog) (counts : Counts) (l : Loop) (r : Reference)
      → c.last_attempt ≡ stamp
      → IsProgress (λ j. j == a.catalog_id) l (accept sequence stamp a c counts l r)
  unfolding accept
  accept-IsProgress a c counts l r t = elim (Bool-cases (is_changed c r)) [
    | inl e ↦
        insert-IsProgress a.catalog_id (healthy_catalog a stamp r counts c) l _
          (new_event sequence stamp a c r ∷ [])
          (healthy_catalog-last_attempt stamp a r counts c ∙ t) refl (rw e) ((refl, refl), tt)
    | inr e ↦
        insert-IsProgress a.catalog_id (healthy_catalog a stamp r counts c) l _ []
          (healthy_catalog-last_attempt stamp a r counts c ∙ t) refl
          (rw e (sym (append-nil l.events))) tt
  ]

  settle-IsProgress :
      (a : Attempt) (c : Catalog) (o : Result (Bytes × Counts)) (l l' : Loop) (d d' : Disk)
      → c.last_attempt ≡ stamp
      → settle lib sequence stamp a c o l d ≡ (ok l', d')
      → IsProgress (λ j. j == a.catalog_id) l l'
  unfolding settle
  settle-IsProgress a c (err code) l l' d d' t e =
      let (value, _) = pure-eq-ok _ d e in
      insert-IsProgress a.catalog_id (failed_catalog a code c) l l' []
        (failed_catalog-last_attempt a code c ∙ t) (ap (λ m. m.catalogs) value)
        (ap (λ m. m.events) value ∙ sym (append-nil l.events)) tt
  settle-IsProgress a c (ok (raw, counts)) l l' d d' t e =
      let (r, d₁, _, e₁) = bind-eq-ok (put lib.codec raw "dat") _ d e in
      let (value, _) = pure-eq-ok _ d₁ e₁ in
      subst (IsProgress (λ j. j == a.catalog_id) l) (sym value) (accept-IsProgress a c counts l r t)

  process-IsProgress :
      (a : Attempt) (l l' : Loop) (d d' : Disk)
      → process lib sequence stamp a l d ≡ (ok l', d')
      → IsProgress (λ j. j == a.catalog_id) l l'
  unfolding process
  process-IsProgress a l l' d d' e =
      let (_, _, e₁) = lift-bind-eq-ok (refuse_if _ _) _ d e in
      settle-IsProgress a (record (entry_of a l.catalogs) { last_attempt = stamp }) (evaluate lib a)
        l l' d d' refl e₁

  IsProgress-trans :
      (p q : String → Bool) (l m n : Loop)
      → IsProgress p l m
      → IsProgress q m n
      → IsProgress (λ j. p j || q j) l n
  IsProgress-trans p q l m n g h = record {
    others = λ j other. ground (arith, g.others j, h.others j);
    tried = λ j on. elim (Bool-cases (q j)) [
      | inl later ↦ h.tried j later
      | inr not_later ↦
          let (c, held, t) = g.tried j (ground arith) in (c, h.others j not_later ∙ held, t)
    ];
    unique = λ u. h.unique (g.unique u);
    fresh = g.fresh ++ h.fresh;
    events = h.events ∙ ap (λ es. es ++ h.fresh) g.events ∙ append_assoc l.events g.fresh h.fresh;
    new = All-append IsNew g.fresh h.fresh g.new h.new;
  }

  pub process_all-IsProgress :
      (attempts : List Attempt) (l l' : Loop) (d d' : Disk)
      → process_all lib sequence stamp attempts l d ≡ (ok l', d')
      → IsProgress (λ j. attempts_on j attempts) l l'
  unfolding process_all
  process_all-IsProgress [] l l' d d' e =
      let (value, _) = pure-eq-ok l d e in
      record {
        others = λ j other. ap (λ m. lookup j m.catalogs) value;
        tried = λ j on. cc;
        unique = λ u. subst (λ m. NodupKeys m.catalogs) (sym value) u;
        fresh = [];
        events = ap (λ m. m.events) value ∙ sym (append-nil l.events);
        new = tt;
      }
  process_all-IsProgress (a ∷ rest) l l' d d' e =
      let (m, d₁, e₁, e₂) = bind-eq-ok (process lib sequence stamp a l) _ d e in
      IsProgress-trans (λ j. j == a.catalog_id) (λ j. attempts_on j rest) l m l'
        (process-IsProgress a l m d d₁ e₁) (process_all-IsProgress rest m l' d₁ d' e₂)

-- What a successful run publishes, from what was published before.
pub record IsPublished (lib : Library) (now limit : ℕ) (attempts : List Attempt) (old s : Snapshot)
    : Type 0 where
  pub sequence : s.sequence ≡ next64 old.sequence
  pub stamped : s.published_at ≡ lib.format_time now
  pub others :
      (j : String)
      → attempts_on j attempts ≡ false
      → lookup j (entries s.catalogs) ≡ lookup j (entries old.catalogs)
  pub tried :
      (j : String)
      → attempts_on j attempts ≡ true
      → (c : Catalog) × (lookup j (entries s.catalogs) ≡ some c)
        × (c.last_attempt ≡ lib.format_time now)
  pub unique : NodupKeys (entries old.catalogs) → NodupKeys (entries s.catalogs)
  pub fresh : List Event
  pub new : All (IsNew lib (next64 old.sequence) (lib.format_time now)) fresh
  pub events : s.events ≡ take limit (fresh ++ old.events)

-- A run that succeeds starts from the published snapshot, or the empty one, whose clock is not
-- ahead. It steps the sequence number once and stamps the time; every attempted catalog has
-- the new time and no other catalog changes; the events are the run's own and then the old ones,
-- cut to the limit.
pub publish-IsPublished :
    (lib : Library) (host : Host) (attempts : List Attempt) (base : String) (opt : Options)
    (s : Snapshot) (d d' : Disk)
    → publish lib host attempts base opt d ≡ (ok s, d')
    → (old : Snapshot) × (load_prior lib d ≡ ok old)
      × (clock_regressed lib (clock opt host) old ≡ false)
      × IsPublished lib (clock opt host) (limited opt.feed_limit) attempts old s
publish-IsPublished lib host attempts base opt s d d' e =
    let (ref, d₁, e₁, _) = publish-eq-ok lib host attempts base opt s d d' e in
    let (p, _, _) = prepare-IsPrepared lib host attempts base opt s ref d d₁ e₁ in
    let stamp = lib.format_time (clock opt host) in
    let g =
      process_all-IsProgress lib (next64 p.old.sequence) stamp (sort_attempts attempts) _ p.loop d
        p.after_loop p.ran in
    let catalogs : entries s.catalogs ≡ p.loop.catalogs =
      ap (λ t. entries t.catalogs) p.assembled in
    (
      p.old,
      p.prior,
      p.forward,
      record {
        sequence = ap (λ t. t.sequence) p.assembled;
        stamped = ap (λ t. t.published_at) p.assembled;
        others = λ j other.
            ap (lookup j) catalogs ∙ g.others j (attempts_on-sort_attempts j attempts ∙ other);
        tried = λ j on.
            let (c, held, t) = g.tried j (attempts_on-sort_attempts j attempts ∙ on) in
            (c, ap (lookup j) catalogs ∙ held, t);
        unique = λ u. subst NodupKeys (sym catalogs) (g.unique u);
        fresh = g.fresh;
        new = g.new;
        events =
            ap (λ t. t.events) p.assembled
            ∙ ap (λ es. take (limited opt.feed_limit) (es ++ p.old.events)) g.events;
      },
    )
