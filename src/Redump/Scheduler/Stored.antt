-- ===== src/Redump/Scheduler/Stored.antt =====
-- What the custody holds behind each commit, and that every state the scheduler writes is valid.
use romd_dat_catalogs.Prelude.{
  ℕ, ◌+◌, ◌≤◌, ◌≡◌, ◌≢◌, refl, subst, ◌∙◌, ap, inl, inr, String, false, arith, Option, none, some,
  string_eq, nat_eq, Result, ok, err,
}
use romd_dat_catalogs.Redump.{registry_eq}
use romd_dat_catalogs.Redump.State.{SourceState, poll_interval, bad_source}
use romd_dat_catalogs.Redump.State.Valid.{IsValid, IsRecovered}
use romd_dat_catalogs.Redump.Custody.{Custody, IsLawful}
use romd_dat_catalogs.Redump.Scheduler.{Watch, admitted, landed, committed, commit_watch}

-- A state that admits a run at the given time.
pub record IsFree (now : ℕ) (s : SourceState) : Type 0 where
  pub clear : s.in_flight ≡ false
  pub due : s.next_attempt ≤ now
  pub forward : s.last_attempt ≤ now
  pub dated : now ≢ 0

-- The mark a run leaves: its time, and no other run within a day.
pub record IsMarked (now : ℕ) (s : SourceState) : Type 0 where
  pub last : s.last_attempt ≡ now
  pub next : now + poll_interval ≤ s.next_attempt

pub admitted-IsValid :
    (now : ℕ) (s : SourceState) → IsFree now s → IsValid s → IsValid (admitted now s)
unfolding bad_source
admitted-IsValid now s f v = record {
  scheduled = record {
    started = (λ h. absurd (f.dated h), λ h. absurd (omega arith));
    spaced = λ h. omega arith;
    flown = λ h. f.dated;
  };
  recovered = admitted-IsRecovered now s f s.recovery v.recovered;
  source = v.source;
}
  where
    admitted-IsRecovered :
        (now : ℕ) (s : SourceState)
        → IsFree now s
        → (o : Option _) → IsRecovered s o
        → IsRecovered (admitted now s) o
    admitted-IsRecovered now s f none h = h
    admitted-IsRecovered now s f (some r) (h₁, h₂, h₃, h₄, h₅, h₆, h₇, h₈) =
        let due = f.due in
        let forward = f.forward in (h₁, h₂, h₃, h₄, h₅, omega arith, h₇, omega arith)

-- A later deadline is valid too, behind a first attempt.
pub later-IsValid :
    (n : ℕ) (s : SourceState)
    → s.last_attempt ≢ 0
    → s.next_attempt ≤ n
    → IsValid s
    → IsValid (record s { next_attempt = n })
unfolding bad_source
later-IsValid n s flown le v =
    let spaced = v.scheduled.spaced flown in
    record {
      scheduled = record {
        started = (λ h. absurd (flown h), λ h. absurd (omega arith));
        spaced = λ h. omega arith;
        flown = v.scheduled.flown;
      };
      recovered = later-IsRecovered n s le s.recovery v.recovered;
      source = v.source;
    }
  where
    later-IsRecovered :
        (n : ℕ) (s : SourceState)
        → s.next_attempt ≤ n
        → (o : Option _) → IsRecovered s o
        → IsRecovered (record s { next_attempt = n }) o
    later-IsRecovered n s le none h = h
    later-IsRecovered n s le (some r) (h₁, h₂, h₃, h₄, h₅, h₆, h₇, h₈) =
        (h₁, h₂, h₃, h₄, h₅, h₆, h₇, omega arith)

landed-IsRecovered : (s : SourceState) (o : Option _) → IsRecovered s o → IsRecovered (landed s) o
landed-IsRecovered s none h = h
landed-IsRecovered s (some r) h = h

pub landed-IsValid : (s : SourceState) → IsValid s → IsValid (landed s)
unfolding bad_source
landed-IsValid s v = record {
  scheduled = record {
    started = v.scheduled.started;
    spaced = v.scheduled.spaced;
    flown = λ h. absurd cc;
  };
  recovered = landed-IsRecovered s s.recovery v.recovered;
  source = v.source;
}

module _ {S : Type 0} (c : Custody S) where
  -- The custody holds a state of which the predicate holds.
  abbrev pub Stored : (SourceState → Type 0) → S → Type 0
  Stored P st = (s : SourceState) × (v : String) × (c.load st ≡ ok (s, v)) × P s

  committed-state : (w : Watch S) (p : Result String × S) → (committed w p).1.state ≡ w.state
  committed-state w (ok v, st) = refl
  committed-state w (err m, st) = refl

  pub commit_watch-state : (w : Watch S) → (commit_watch c w).1.state ≡ w.state
  unfolding commit_watch
  commit_watch-state w = committed-state w (c.commit w.version w.state w.store)

module _ {S : Type 0} (c : Custody S) (lawful : IsLawful c) where
  committed-Stored :
      (P : SourceState → Type 0) (w : Watch S) (p : Result String × S)
      → c.commit w.version w.state w.store ≡ p
      → IsValid w.state
      → P w.state
      → Stored c P w.store
      → Stored c P (committed w p).1.store
  committed-Stored P w (ok v, st) e valid h (s, u, e₁, k) =
      let (u', e₂) = lawful.committed _ v w.state w.store st valid e in (w.state, u', e₂, h)
  committed-Stored P w (err m, st) e valid h (s, u, e₁, k) =
      elim (lawful.failed _ m w.state w.store st valid e) [
        | inl same ↦ (s, u, same ∙ e₁, k)
        | inr (u', e₂) ↦ (w.state, u', e₂, h)
      ]

  -- A commit, done or failed, leaves the state that was stored or the new one.
  pub commit_watch-Stored :
      (P : SourceState → Type 0) (w : Watch S)
      → IsValid w.state
      → P w.state
      → Stored c P w.store
      → Stored c P (commit_watch c w).1.store
  unfolding commit_watch
  commit_watch-Stored P w valid h k =
      committed-Stored P w (c.commit w.version w.state w.store) refl valid h k

  committed-eq-ok :
      (w w' : Watch S) (p : Result String × S)
      → c.commit w.version w.state w.store ≡ p
      → IsValid w.state
      → committed w p ≡ (ok tt, w')
      → (u : String) × (c.load w'.store ≡ ok (w.state, u))
  committed-eq-ok w w' (ok v, st) e valid h =
      let (u, e₁) = lawful.committed _ v w.state w.store st valid e in
      (u, subst (λ st. c.load st ≡ ok (w.state, u)) (ap (λ p. p.1.store) h) e₁)
  committed-eq-ok w w' (err m, st) e valid h = absurd cc

  -- One that is done leaves the new one.
  pub commit_watch-eq-ok :
      (w w' : Watch S)
      → IsValid w.state
      → commit_watch c w ≡ (ok tt, w')
      → (u : String) × (c.load w'.store ≡ ok (w.state, u))
  unfolding commit_watch
  commit_watch-eq-ok w w' valid h =
      committed-eq-ok w w' (c.commit w.version w.state w.store) refl valid h
