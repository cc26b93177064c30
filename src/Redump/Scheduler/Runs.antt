-- ===== src/Redump/Scheduler/Runs.antt =====
-- Two runs in a row, and what a run that succeeds leaves.
use romd_dat_catalogs.Prelude.{
  ℕ, ◌+◌, ◌≤◌, ◌≡◌, ◌≢◌, refl, sym, subst, ◌∙◌, ap, inl, inr, String, true, false, List, [], arith,
  ltb, if-cases, Result, ok, err, All, Result-cases,
}
use romd_dat_catalogs.Redump.{Catalog, canonical}
use romd_dat_catalogs.Redump.State.{SourceState, poll_interval}
use romd_dat_catalogs.Redump.Custody.{Custody, IsLawful}
use romd_dat_catalogs.Redump.Adapter.{Outcome, Batch, acquire}
use romd_dat_catalogs.Redump.Scheduler.{
  Host, Watch, admit, landed, commit_watch, observe, finished, complete, fly, launch, run,
}
use romd_dat_catalogs.Redump.Scheduler.Observed.{IsStable, acquire-IsKept, acquire-IsStable}
use romd_dat_catalogs.Redump.Scheduler.Stored.{
  IsFree, IsMarked, landed-IsValid, Stored, commit_watch-state, commit_watch-eq-ok,
}
use romd_dat_catalogs.Redump.Scheduler.Spaced.{
  admit-IsFree, Flies, fly-Stored, fly-refused, admission, admission-Flies, Flies-kept,
}

module _ {S : Type 0} (c : Custody S) (lawful : IsLawful c) where
  run-admitted :
      (host : Host) (catalogs : List Catalog) (st : S) (s : SourceState) (v : String)
      → admit c host catalogs st ≡ ok (s, v)
      → run c host catalogs st
        ≡ fly c host catalogs (commit_watch c (admission c lawful host catalogs s v st))
  unfolding run launch
  run-admitted host catalogs st s v e = ap (launch c host catalogs st) e

  run-turned_away :
      (host : Host) (catalogs : List Catalog) (st : S) (e : String)
      → admit c host catalogs st ≡ err e
      → run c host catalogs st ≡ (err e, [], st)
  unfolding run launch
  run-turned_away host catalogs st e h = ap (launch c host catalogs st) h

  -- A run that asked was admitted, and its admission was written.
  run-asked :
      (host : Host) (catalogs : List Catalog) (st : S)
      → (run c host catalogs st).1 ≢ []
      → (s : SourceState) × (v : String) × (c.load st ≡ ok (s, v))
        × IsFree host.now s
        × Stored c (IsMarked host.now) (run c host catalogs st).2
  run-asked host catalogs st asked = elim (Result-cases (admit c host catalogs st)) [
    | inl (e, e₁) ↦ absurd (asked (ap (λ p. p.1) (run-turned_away host catalogs st e e₁)))
    | inr ((s, v), e₁) ↦
        let (e₂, free) = admit-IsFree c lawful host catalogs st s v e₁ in
        let w = admission c lawful host catalogs s v st in
        let same = run-admitted host catalogs st s v e₁ in
        elim (Result-cases (commit_watch c w).0) [
          | inl (e, e₃) ↦ absurd (
              asked
                (ap (λ p. p.1) same ∙ fly-refused c lawful host catalogs (commit_watch c w) e e₃))
          | inr (u, e₃) ↦
              let w' : Watch S = (commit_watch c w).1 in
              let f = admission-Flies c lawful host catalogs st s v w' e₂ free (λ i. (e₃ i, w')) in
              (
                s,
                v,
                e₂,
                free,
                subst (λ p. Stored c (IsMarked host.now) p.2) (sym same)
                    (fly-Stored c lawful host catalogs (commit_watch c w) f),
              )
        ]
  ]

  -- Two runs in a row that both ask the provider anything start a day apart at least, whatever
  -- failed in between: the first one may have ended at any of its commits.
  pub run-spaced :
      (first second : Host) (catalogs later : List Catalog) (st : S)
      → (run c first catalogs st).1 ≢ []
      → (run c second later (run c first catalogs st).2).1 ≢ []
      → first.now + poll_interval ≤ second.now
  run-spaced first second catalogs later st asked₁ asked₂ =
      let (_, _, _, _, (s₁, v₁, e₁, marked)) = run-asked first catalogs st asked₁ in
      let (s₂, v₂, e₂, free, _) = run-asked second later (run c first catalogs st).2 asked₂ in
      let same : s₁ ≡ s₂ = cc in
      let next = (subst (IsMarked first.now) same marked).next in let due = free.due in omega arith

  -- A run at a custody that holds a state in flight asks for nothing, and changes nothing.
  pub run-in_flight :
      (host : Host) (catalogs : List Catalog) (st : S) (s : SourceState) (v : String)
      → c.load st ≡ ok (s, v)
      → s.in_flight ≡ true
      → (e : String) × (run c host catalogs st ≡ (err e, [], st))
  run-in_flight host catalogs st s v loaded flying =
      elim (Result-cases (admit c host catalogs st)) [
        | inl (e, e₁) ↦ (e, run-turned_away host catalogs st e e₁)
        | inr ((s₁, v₁), e₁) ↦
            let (e₂, free) = admit-IsFree c lawful host catalogs st s₁ v₁ e₁ in
            let clear = free.clear in let same : s₁ ≡ s = cc in absurd (ground arith)
      ]

  -- The deadline of a state has reached a retry time.
  abbrev Waits : ℕ → Watch S → Type 0
  Waits n w = n ≤ w.state.next_attempt

  observe-next :
      (r : Outcome) (w : Watch S)
      → (r.retry_at ≤ (observe c r w).1.state.next_attempt)
        × (w.state.next_attempt ≤ (observe c r w).1.state.next_attempt)
  unfolding observe
  observe-next r w =
      if-cases {A = Result (Unit {0}) × Watch S}
        (λ p.
          (r.retry_at ≤ p.1.state.next_attempt) × (w.state.next_attempt ≤ p.1.state.next_attempt))
        (ltb w.state.next_attempt r.retry_at) _ _
        (λ later.
          let w' : Watch S = record w { state = record w.state { next_attempt = r.retry_at } } in
          let le : w.state.next_attempt ≤ r.retry_at = ground arith in
          subst (λ s. (r.retry_at ≤ s.next_attempt) × (w.state.next_attempt ≤ s.next_attempt))
            (sym (commit_watch-state c w')) (omega arith, le))
        (λ h. (ground arith, omega arith))

  Waits-IsStable : (host : Host) → IsStable host.world host.origin (observe c) Waits
  Waits-IsStable host = record {
    seen = λ r w w' e. subst (λ p. r.retry_at ≤ p.1.state.next_attempt) e (observe-next r w).0;
    stable = λ n. record { kept = λ r w h. let (_, le) = observe-next r w in omega arith };
  }

  -- What a run that succeeds leaves: it has landed, and its deadline covers every result.
  pub record IsLanded (now : ℕ) (results : List Outcome) (s : SourceState) : Type 0 where
    pub clear : s.in_flight ≡ false
    pub marked : IsMarked now s
    pub waits : All (λ r. r.retry_at ≤ s.next_attempt) results

  finished-eq-ok :
      (l results : List Outcome) (asked asked' : List String) (q : Result (Unit {0}) × Watch S)
      (st : S)
      → finished l asked q ≡ (ok results, asked', st)
      → (q.0 ≡ ok tt) × (l ≡ results) × (q.1.store ≡ st)
  finished-eq-ok l results asked asked' (ok _, w) st h = (refl, cc, cc)
  finished-eq-ok l results asked asked' (err e, w) st h = absurd cc

  complete-IsLanded :
      (host : Host) (catalogs : List Catalog) (p : Result (List Outcome) × Batch (Watch S))
      (results : List Outcome) (asked : List String) (st : S)
      → Flies c lawful host.now p.1.watcher
      → ((l : List Outcome) → p.0 ≡ ok l → All (λ r. r.retry_at ≤ p.1.watcher.state.next_attempt) l)
      → complete c p ≡ (ok results, asked, st)
      → Stored c (IsLanded host.now results) st
  unfolding complete
  complete-IsLanded host catalogs (err e, b) results asked st f k h = absurd cc
  complete-IsLanded host catalogs (ok l, b) results asked st f k h =
      let w : Watch S = record b.watcher { state = landed b.watcher.state } in
      let (e₁, same, e₂) = finished-eq-ok l results b.requests asked (commit_watch c w) st h in
      let (u, e₃) =
        commit_watch-eq-ok c lawful w (commit_watch c w).1 (landed-IsValid b.watcher.state f.valid)
          (λ i. (e₁ i, (commit_watch c w).1)) in
      (
        w.state,
        u,
        subst (λ st. c.load st ≡ ok (w.state, u)) e₂ e₃,
        record {
          clear = refl;
          marked = record { last = f.marked.last; next = f.marked.next };
          waits = subst (All (λ r. r.retry_at ≤ b.watcher.state.next_attempt)) same (k l refl);
        },
      )

  fly-IsLanded :
      (host : Host) (catalogs : List Catalog) (p : Result (Unit {0}) × Watch S)
      (results : List Outcome) (asked : List String) (st : S)
      → ((u : Unit {0}) → p.0 ≡ ok u → Flies c lawful host.now p.1)
      → fly c host catalogs p ≡ (ok results, asked, st)
      → Stored c (IsLanded host.now results) st
  unfolding fly
  fly-IsLanded host catalogs (err e, w) results asked st f h = absurd cc
  fly-IsLanded host catalogs (ok u, w) results asked st f h =
      let b : Result (List Outcome) × Batch (Watch S) =
        acquire host.world host.origin (observe c) host.started host.cooldown (canonical catalogs)
          w in
      complete-IsLanded host catalogs b results asked st
        (acquire-IsKept host.world host.origin (observe c) (Flies c lawful host.now)
          (Flies-kept c lawful host catalogs) host.started host.cooldown (canonical catalogs) w
          (f u refl))
        (λ l e.
          acquire-IsStable host.world host.origin (observe c) Waits (Waits-IsStable host)
            host.started host.cooldown (canonical catalogs) w b.1 l (λ i. (e i, b.1)))
        h

  -- A run that succeeds has landed: what it leaves is not in flight, carries its time, and waits
  -- for a day and for every retry time among the results.
  pub run-IsLanded :
      (host : Host) (catalogs : List Catalog) (st st' : S) (results : List Outcome)
      (asked : List String)
      → run c host catalogs st ≡ (ok results, asked, st')
      → Stored c (IsLanded host.now results) st'
  run-IsLanded host catalogs st st' results asked h =
      elim (Result-cases (admit c host catalogs st)) [
        | inl (e, e₁) ↦ let same = run-turned_away host catalogs st e e₁ in absurd cc
        | inr ((s, v), e₁) ↦
            let (e₂, free) = admit-IsFree c lawful host catalogs st s v e₁ in
            let p : Result (Unit {0}) × Watch S =
              commit_watch c (admission c lawful host catalogs s v st) in
            fly-IsLanded host catalogs p results asked st'
              (λ u e. admission-Flies c lawful host catalogs st s v p.1 e₂ free (λ i. (e i, p.1)))
              (sym (run-admitted host catalogs st s v e₁) ∙ h)
      ]
