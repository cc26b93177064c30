-- ===== src/Publisher/Publish/Reload.antt =====
-- What `Publish` commits is what `LoadSnapshot` finds next.
use mathlib.Core.Path.{subst₂}
use romd_dat_catalogs.Prelude.{
  ℕ, ◌≤◌, String, ◌≡◌, sym, subst, ap, ◌∙◌, Bool, false, some, List, [], arith, length, ltb,
  string_eq, nat_eq, Result, ok, refuse_if,
}
use romd_dat_catalogs.Prelude.Dict.{lookup, insert, lookup-insert, lookup-insert_self}
use romd_dat_catalogs.Prelude.Words.{next64, below_one64}
use romd_dat_catalogs.Publisher.{
  Bytes, Reference, Attempt, Snapshot, Current, format_name, trust_name, max_metadata,
}
use romd_dat_catalogs.Publisher.Disk.{Disk, pure, atomic_write, read_file, loaded}
use romd_dat_catalogs.Publisher.Disk.Keeps.{
  bind-eq-ok, lift-bind-eq-ok, inspect-bind-eq-ok, atomic_write-eq-ok,
}
use romd_dat_catalogs.Publisher.Objects.{
  put, verified_read, verify_snapshot, load_snapshot, entries, is_nil,
}
use romd_dat_catalogs.Publisher.Objects.Laws.{
  put-eq-ok, pure-eq-ok, verified_read_sound, Agrees, verified_read-Agrees, verify_snapshot-Agrees,
}
use romd_dat_catalogs.Publisher.Feed.{feed_bytes}
use romd_dat_catalogs.Publisher.Arguments.{
  Library, Options, Host, limited, check_arguments, sort_attempts,
}
use romd_dat_catalogs.Publisher.Publish.{
  Loop, process_all, load_prior, clock, clock_regressed, assemble, store_index, store_snapshot,
  commit, prepare, publish, hook,
}
use romd_dat_catalogs.Publisher.Publish.Commit.{prepare-Keeps}

module _ (lib : Library) where
  -- A round trip through encoding/json.
  pub record IsFaithful : Type 0 where
    pub snapshot : (s : Snapshot) → lib.codec.decode_snapshot (lib.codec.encode_snapshot s) ≡ ok s
    pub current : (c : Current) → lib.codec.decode_current (lib.codec.encode_current c) ≡ ok c

  abbrev pub current_of : Snapshot → Reference → Current
  current_of s ref = record {
    format = format_name;
    trust = trust_name;
    sequence = s.sequence;
    snapshot = ref;
  }

  -- What is known of a snapshot that is about to be committed.
  pub record IsStored (s : Snapshot) (ref : Reference) (d : Disk) : Type 0 where
    pub held : lookup ref.path d.files ≡ some (lib.codec.encode_snapshot s)
    pub fits : length (lib.codec.encode_snapshot s) ≤ max_metadata
    pub checked : (b : Bytes) × (verified_read lib.codec ref d ≡ ok b)
    pub verified : (u : Unit {0}) × (verify_snapshot lib.codec s d ≡ ok u)

  not_refused : (b : Bool) (m : String) {u : Unit {0}} → refuse_if b m ≡ ok u → b ≡ false
  unfolding refuse_if
  not_refused b m h = ground arith

  refused :
      (n : ℕ) (m : String) {u : Unit {0}}
      → refuse_if (ltb max_metadata n) m ≡ ok u
      → n ≤ max_metadata
  unfolding refuse_if
  refused n m h = ground arith

  store_index-IsStored :
      (opt : Options) (s s' : Snapshot) (ref : Reference) (d d' : Disk)
      → store_index lib opt s d ≡ (ok (s', ref), d')
      → (s' ≡ s) × IsStored s' ref d'
  unfolding store_index
  store_index-IsStored opt s s' ref d d' e =
      let (_, small, e₁) = lift-bind-eq-ok (refuse_if _ _) _ d e in
      let (r, d₁, stored, e₂) = bind-eq-ok (put lib.codec _ "json") _ d e₁ in
      let (b, checked, e₃) = inspect-bind-eq-ok (verified_read lib.codec r) _ d₁ e₂ in
      let (u, verified, e₄) = inspect-bind-eq-ok (verify_snapshot lib.codec s) _ d₁ e₃ in
      let (_, _, e₅) = lift-bind-eq-ok (hook opt.before_commit) _ d₁ e₄ in
      let (value, same) = pure-eq-ok (s, r) d₁ e₅ in
      let (_, held) = put-eq-ok lib.codec (lib.codec.encode_snapshot s) "json" d d₁ stored in
      (
        ap (λ (p : Snapshot × Reference). p.0) value,
        subst₂ (λ (p : Snapshot × Reference) q. IsStored p.0 p.1 q) (sym value) same
            (record {
              held = held;
              fits = refused _ _ small;
              checked = (b, checked);
              verified = (u, verified);
            }),
      )

  store_snapshot-IsStored :
      (base : String) (opt : Options) (assembled s : Snapshot) (ref : Reference) (d d' : Disk)
      → store_snapshot lib base opt assembled d ≡ (ok (s, ref), d')
      → (feed : Reference) × (s ≡ record assembled { feed = feed }) × IsStored s ref d'
  unfolding store_snapshot
  store_snapshot-IsStored base opt assembled s ref d d' e =
      let (feed, _, e₁) = lift-bind-eq-ok (feed_bytes lib.feed_text assembled.events base) _ d e in
      let (feed_ref, d₁, _, e₂) = bind-eq-ok (put lib.codec feed "xml") _ d e₁ in
      let (same, stored) = store_index-IsStored opt _ s ref d₁ d' e₂ in (feed_ref, same, stored)

  -- A run that is ready to commit, from the directory `d`.
  pub record IsPrepared (host : Host) (attempts : List Attempt) (opt : Options) (s : Snapshot)
      (d : Disk) : Type 0 where
    pub old : Snapshot
    pub prior : load_prior lib d ≡ ok old
    pub forward : clock_regressed lib (clock opt host) old ≡ false
    pub loop : Loop
    pub after_loop : Disk
    pub ran :
        process_all lib
          (next64 old.sequence)
          (lib.format_time (clock opt host))
          (sort_attempts attempts)
          (record { catalogs = entries old.catalogs; events = [] })
          d
        ≡ (ok loop, after_loop)
    pub feed : Reference
    pub assembled :
        s ≡ record (assemble old (lib.format_time (clock opt host)) (limited opt.feed_limit) loop) {
          feed = feed;
        }

  pub prepare-IsPrepared :
      (host : Host) (attempts : List Attempt) (base : String) (opt : Options) (s : Snapshot)
      (ref : Reference) (d d' : Disk)
      → prepare lib host attempts base opt d ≡ (ok (s, ref), d')
      → IsPrepared host attempts opt s d
        × IsStored s ref d'
        × (check_arguments lib attempts base opt ≡ ok tt)
  unfolding prepare
  prepare-IsPrepared host attempts base opt s ref d d' e =
      let (_, args, e₁) = lift-bind-eq-ok (check_arguments lib attempts base opt) _ d e in
      let (_, _, e₂) = lift-bind-eq-ok host.opened _ d e₁ in
      let (old, prior, e₃) = inspect-bind-eq-ok (load_prior lib) _ d e₂ in
      let (_, forward, e₄) = lift-bind-eq-ok (refuse_if _ _) _ d e₃ in
      let (loop, d₁, ran, e₅) = bind-eq-ok (process_all lib _ _ _ _) _ d e₄ in
      let (feed, same, stored) = store_snapshot-IsStored _ opt _ s ref d₁ d' e₅ in
      (
        record {
          old = old;
          prior = prior;
          forward = not_refused _ _ forward;
          loop = loop;
          after_loop = d₁;
          ran = ran;
          feed = feed;
          assembled = same;
        },
        stored,
        args,
      )

  commit-eq-ok :
      (s s' : Snapshot) (ref : Reference) (d d' : Disk)
      → commit lib (s, ref) d ≡ (ok s', d')
      → (s' ≡ s)
        × (d'.files ≡ insert "current.json" (lib.codec.encode_current (current_of s ref)) d.files)
        × (d'.unreadable ≡ d.unreadable)
  unfolding commit
  commit-eq-ok s s' ref d d' e =
      let (_, d₁, w, e₁) = bind-eq-ok (atomic_write "current.json" _) (λ _. pure s) d e in
      let (files, readable) = atomic_write-eq-ok "current.json" _ d d₁ w in
      let (value, same) = pure-eq-ok s d₁ e₁ in
      (value, ap (λ q. q.files) (sym same) ∙ files, ap (λ q. q.unreadable) (sym same) ∙ readable)

  commit-Agrees :
      (s s' : Snapshot) (ref : Reference) (d d' : Disk)
      → commit lib (s, ref) d ≡ (ok s', d')
      → Agrees d d'
  commit-Agrees s s' ref d d' e =
      let (_, files, readable) = commit-eq-ok s s' ref d d' e in
      record {
        others = λ p other. ground (
          arith,
          files,
          lookup-insert p "current.json" (lib.codec.encode_current (current_of s ref)) d.files,
        );
        readable = readable;
      }

  pub read_current :
      (d : Disk) (b : Bytes)
      → lookup "current.json" d.files ≡ some b
      → d.unreadable "current.json" ≡ false
      → length b ≤ max_metadata
      → read_file d "current.json" max_metadata ≡ loaded b
  unfolding read_file
  read_current d b held readable fits = ground arith

  pub load_committed :
      (s : Snapshot) (ref : Reference) (d : Disk)
      → lib.codec.decode_snapshot (lib.codec.encode_snapshot s) ≡ ok s
      → lib.codec.decode_current (lib.codec.encode_current (current_of s ref))
        ≡ ok (current_of s ref)
      → read_file d "current.json" max_metadata
        ≡ loaded (lib.codec.encode_current (current_of s ref))
      → verified_read lib.codec ref d ≡ ok (lib.codec.encode_snapshot s)
      → length (lib.codec.encode_snapshot s) ≤ max_metadata
      → verify_snapshot lib.codec s d ≡ ok tt
      → s.format ≡ format_name
      → is_nil s.catalogs ≡ false
      → below_one64 s.sequence ≡ false
      → load_snapshot lib.codec d ≡ ok s
  unfolding load_snapshot refuse_if
  load_committed s ref d snapshot pointer current index fits verified format nil positive =
      rw current (rw pointer (ground (arith, index, snapshot, verified)))

  stored_index :
      (s : Snapshot) (ref : Reference) (d : Disk)
      → IsStored s ref d
      → verified_read lib.codec ref d ≡ ok (lib.codec.encode_snapshot s)
  stored_index s ref d stored =
      let (b, read) = stored.checked in
      let (_, held, _, _, _) = verified_read_sound lib.codec ref d b read in
      let same : some b ≡ some (lib.codec.encode_snapshot s) = sym held ∙ stored.held in
      read ∙ ap ok (cc)

  -- The run as a whole, from its two halves.
  pub publish-eq-ok :
      (host : Host) (attempts : List Attempt) (base : String) (opt : Options) (s : Snapshot)
      (d d' : Disk)
      → publish lib host attempts base opt d ≡ (ok s, d')
      → (ref : Reference) × (d₁ : Disk) × (prepare lib host attempts base opt d ≡ (ok (s, ref), d₁))
        × (commit lib (s, ref) d₁ ≡ (ok s, d'))
  unfolding publish
  publish-eq-ok host attempts base opt s d d' e =
      let ((t, ref), d₁, e₁, e₂) =
        bind-eq-ok (prepare lib host attempts base opt) (commit lib) d e in
      let (same, _, _) = commit-eq-ok t s ref d₁ d' e₂ in
      (
        ref,
        d₁,
        subst (λ u. prepare lib host attempts base opt d ≡ (ok (u, ref), d₁)) (sym same) e₁,
        subst (λ u. commit lib (u, ref) d₁ ≡ (ok s, d')) (sym same) e₂,
      )

  assembled_fields :
      (host : Host) (attempts : List Attempt) (opt : Options) (s : Snapshot) (d : Disk)
      → IsPrepared host attempts opt s d
      → (s.format ≡ format_name) × (is_nil s.catalogs ≡ false)
  assembled_fields host attempts opt s d p =
      (ap (λ t. t.format) p.assembled, ap (λ t. is_nil t.catalogs) p.assembled)

  -- A run that succeeds leaves a directory from which `LoadSnapshot` gives exactly the snapshot
  -- that the run returned, provided that encoding/json round-trips, the new `current.json` can be
  -- read and is within its limit, and the sequence number has not passed 2 ^ 63 - 1.
  pub load_snapshot-publish :
      (host : Host) (attempts : List Attempt) (base : String) (opt : Options) (s : Snapshot)
      (d d' : Disk)
      → IsFaithful
      → d.unreadable "current.json" ≡ false
      → ((ref : Reference) → length (lib.codec.encode_current (current_of s ref)) ≤ max_metadata)
      → below_one64 s.sequence ≡ false
      → publish lib host attempts base opt d ≡ (ok s, d')
      → load_snapshot lib.codec d' ≡ ok s
  load_snapshot-publish host attempts base opt s d d' faithful readable fits positive e =
      let (ref, d₁, e₁, e₂) = publish-eq-ok host attempts base opt s d d' e in
      let (prepared, stored, _) = prepare-IsPrepared host attempts base opt s ref d d₁ e₁ in
      let (_, files, unreadable) = commit-eq-ok s s ref d₁ d' e₂ in
      let same = commit-Agrees s s ref d₁ d' e₂ in
      let grown = (prepare-Keeps lib host attempts base opt).at d in
      let kept : d'.unreadable ≡ d.unreadable =
        unreadable
        ∙ sym (ap (λ (p : Result (Snapshot × Reference) × Disk). p.1.unreadable) e₁)
        ∙ grown.readable in
      let (format, nil) = assembled_fields host attempts opt s d prepared in
      load_committed s ref d' (faithful.snapshot s) (faithful.current (current_of s ref))
        (read_current d' _ (rw files (lookup-insert_self "current.json" _ d₁.files))
          (ap (λ (f : String → Bool). f "current.json") kept ∙ readable) (fits ref))
        (verified_read-Agrees lib.codec same ref ∙ stored_index s ref d₁ stored) stored.fits
        (verify_snapshot-Agrees lib.codec same s ∙ stored.verified.1) format nil positive
