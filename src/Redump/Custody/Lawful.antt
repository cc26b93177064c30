-- ===== src/Redump/Custody/Lawful.antt =====
-- Both kinds of custody do what the scheduler relies on.
use romd_dat_catalogs.Prelude.{
  String, Bool, true, false, Option, none, some, ltb, ◌==◌, string_eq, Result, ok, err, ◌>>=◌,
  refuse_if, length, ◌≡◌, ◌≢◌, refl, sym, ◌∙◌, ap, subst, ◌⊎◌, inl, inr, arith, Bool-cases,
  refuse_if-passed, >>=-eq-ok,
}
use romd_dat_catalogs.Publisher.{Bytes}
use romd_dat_catalogs.Redump.State.{SourceState, max_state_bytes, check_state, decode_state}
use romd_dat_catalogs.Redump.State.Valid.{IsValid, check_state_sound, check_state_complete}
use romd_dat_catalogs.Redump.Custody.{
  IsLawful, Json, Fault, no_fault, before_rename, after_rename, Directory, CheckpointStore, local,
  remote, refuse_commit, write_state, next_write, read_state, with_version, receipt,
  read_checkpoint,
}

-- The decoder reads back what the encoder writes.
pub record IsInverse (json : Json) : Type 0 where
  pub inverse : (s : SourceState) → json.decode (json.encode s) ≡ ok s

-- What is relied on of a checkpoint store: an acknowledged write is the one read, and whatever a
-- write answers, it happened or did not.
pub record IsStore {S : Type 0} (store : CheckpointStore S) : Type 0 where
  pub swapped :
      (v v' : String) (raw : Bytes) (st st' : S)
      → store.compare_and_swap v raw st ≡ (ok v', st')
      → v' ≢ ""
      → store.load st' ≡ ok (raw, v')
  pub whole :
      (v : String) (raw : Bytes) (st st' : S) (r : Result String)
      → store.compare_and_swap v raw st ≡ (r, st')
      → (store.load st' ≡ store.load st)
        ⊎ ((u : String) × (u ≢ "") × (store.load st' ≡ ok (raw, u)))

module _ (json : Json) (inv : IsInverse json) where
  -- A valid state that is not too long is read back.
  decode_state-encode :
      (s : SourceState)
      → IsValid s
      → ltb max_state_bytes (length (json.encode s)) ≡ false
      → decode_state json.decode (json.encode s) ≡ ok s
  unfolding decode_state refuse_if
  decode_state-encode s v small = rw (small, inv.inverse s) (check_state_complete s v)

  decode_state-IsValid :
      (raw : Bytes) (s : SourceState) → decode_state json.decode raw ≡ ok s → IsValid s
  unfolding decode_state
  decode_state-IsValid raw s e =
      let (_, e₁) = refuse_if-passed _ _ _ e in
      let (t, _, e₂) = >>=-eq-ok (json.decode raw) check_state e₁ in (check_state_sound t s e₂).1

  versioned :
      (raw : Bytes) (w : String) (s : SourceState) (v : String)
      → (decode_state json.decode raw >>= with_version w) ≡ ok (s, v)
      → IsValid s
  versioned raw w s v e =
      let (t, e₁, e₂) = >>=-eq-ok (decode_state json.decode raw) (with_version w) e in
      let same : t ≡ s = cc in subst IsValid same (decode_state-IsValid raw t e₁)

  read_state-IsValid :
      (o : Option Bytes) (s : SourceState) (v : String) → read_state json o ≡ ok (s, v) → IsValid s
  read_state-IsValid none s v e = absurd cc
  read_state-IsValid (some raw) s v e = versioned raw "" s v e

  local_committed :
      (f : Fault) (v v' : String) (s : SourceState) (d d' : Directory)
      → decode_state json.decode (json.encode s) ≡ ok s
      → write_state f (json.encode s) v d ≡ (ok v', d')
      → (u : String) × (read_state json d'.state_file ≡ ok (s, u))
  local_committed no_fault v v' s d d' back e =
      ("", subst (λ o. read_state json o ≡ ok (s, "")) (ap (λ p. p.1.state_file) e) (rw back refl))
  local_committed before_rename v v' s d d' back e = absurd cc
  local_committed after_rename v v' s d d' back e = absurd cc

  local_failed :
      (f : Fault) (v m : String) (s : SourceState) (d d' : Directory)
      → decode_state json.decode (json.encode s) ≡ ok s
      → write_state f (json.encode s) v d ≡ (err m, d')
      → (read_state json d'.state_file ≡ read_state json d.state_file)
        ⊎ ((u : String) × (read_state json d'.state_file ≡ ok (s, u)))
  local_failed no_fault v m s d d' back e = absurd cc
  local_failed before_rename v m s d d' back e =
      inl (ap (λ p. read_state json p.1.state_file) (sym e))
  local_failed after_rename v m s d d' back e =
      inr (
        "",
        subst (λ o. read_state json o ≡ ok (s, "")) (ap (λ p. p.1.state_file) e) (rw back refl),
      )

  module _ {S : Type 0} where
    -- A refused commit changes nothing; any other is decided by what follows.
    pub refuse_commit-eq-ok :
        (b : Bool) (m v : String) (st st' : S) (k : Result String × S)
        → refuse_commit b m st k ≡ (ok v, st')
        → (b ≡ false) × (k ≡ (ok v, st'))
    unfolding refuse_commit
    refuse_commit-eq-ok true m v st st' k e = absurd cc
    refuse_commit-eq-ok false m v st st' k e = (refl, e)

    pub refuse_commit-eq-err :
        (b : Bool) (m e : String) (st st' : S) (k : Result String × S)
        → refuse_commit b m st k ≡ (err e, st')
        → (st' ≡ st) ⊎ ((b ≡ false) × (k ≡ (err e, st')))
    unfolding refuse_commit
    refuse_commit-eq-err true m e st st' k h = inl (ap (λ p. p.1) (sym h))
    refuse_commit-eq-err false m e st st' k h = inr (refl, h)

  pub local-IsLawful : IsLawful (local json)
  unfolding local
  local-IsLawful = record {
    loaded = λ s v d e. read_state-IsValid d.state_file s v e;
    committed = λ v v' s d d' valid e.
        let (small, e₁) = refuse_commit-eq-ok _ _ _ _ _ _ e in
        local_committed (d.fault d.writes) v v' s (next_write d) d'
          (decode_state-encode s valid small) e₁;
    failed = λ v m s d d' valid e.
        elim (refuse_commit-eq-err (ltb max_state_bytes (length (json.encode s))) _ _ _ _
          (write_state (d.fault d.writes) (json.encode s) v (next_write d)) e) [
            | inl same ↦ inl (rw same refl)
            | inr (small, e₁) ↦
                local_failed (d.fault d.writes) v m s (next_write d) d'
                  (decode_state-encode s valid small) e₁
          ];
  }

  module _ {S : Type 0} (store : CheckpointStore S) (laws : IsStore store) where
    read_checkpoint-IsValid :
        (raw : Bytes) (w : String) (s : SourceState) (v : String)
        → read_checkpoint json (raw, w) ≡ ok (s, v)
        → IsValid s
    unfolding string_eq
    read_checkpoint-IsValid raw w s v e = elim (Bool-cases (w == "")) [
      | inl blank ↦ absurd (ground (arith, blank, e))
      | inr named ↦ versioned raw w s v (ground (arith, named, e))
    ]

    read_back :
        (s : SourceState) (u : String)
        → decode_state json.decode (json.encode s) ≡ ok s
        → u ≢ ""
        → read_checkpoint json (json.encode s, u) ≡ ok (s, u)
    read_back s u back named = rw back (ground arith)

    receipt-eq-ok :
        (p : Result String × S) (v : String) (st : S)
        → receipt p ≡ (ok v, st)
        → (v ≢ "") × (p ≡ (ok v, st))
    receipt-eq-ok (ok next, st₁) v st e = (ground arith, ground arith)
    receipt-eq-ok (err m, st₁) v st e = absurd cc

    receipt-state : (p : Result String × S) → (receipt p).1 ≡ p.1
    receipt-state (ok next, st) = refl
    receipt-state (err m, st) = refl

    loads :
        (st : S) (s : SourceState) (u : String)
        → decode_state json.decode (json.encode s) ≡ ok s
        → u ≢ ""
        → store.load st ≡ ok (json.encode s, u)
        → (store.load st >>= read_checkpoint json) ≡ ok (s, u)
    loads st s u back named e = rw e (read_back s u back named)

    pub remote-IsLawful : IsLawful (remote json store)
    unfolding remote
    remote-IsLawful = record {
      loaded = λ s v st e.
          let ((raw, w), _, e₁) = >>=-eq-ok (store.load st) (read_checkpoint json) e in
          read_checkpoint-IsValid raw w s v e₁;
      committed = λ v v' s st st' valid e.
          let (small, e₁) = refuse_commit-eq-ok _ _ _ _ _ _ e in
          let (named, e₂) = receipt-eq-ok _ _ _ e₁ in
          (
            v',
            loads st' s v' (decode_state-encode s valid small) named
                (laws.swapped _ _ _ _ _ e₂ named),
          );
      failed = λ v m s st st' valid e.
          elim (refuse_commit-eq-err (ltb max_state_bytes (length (json.encode s))) _ _ _ _
            (receipt (store.compare_and_swap v (json.encode s) st)) e) [
              | inl same ↦ inl (rw same refl)
              | inr (small, e₁) ↦
                  elim (laws.whole v (json.encode s) st st' _ (λ i. (
                    (store.compare_and_swap v (json.encode s) st).0,
                    (sym (receipt-state (store.compare_and_swap v (json.encode s) st))
                          ∙ ap (λ p. p.1) e₁)
                        i,
                  ))) [
                    | inl same ↦ inl (rw same refl)
                    | inr (u, named, e₂) ↦
                        inr (u, loads st' s u (decode_state-encode s valid small) named e₂)
                  ]
            ];
    }
