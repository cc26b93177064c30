-- ===== src/Redump/Scheduler/Spaced.antt =====
-- A run asks its provider only behind a written admission, and the next one keeps its distance.
use romd_dat_catalogs.Prelude.{
  ℕ, ◌≤◌, ◌≡◌, ◌≢◌, refl, sym, subst, ◌∙◌, ap, String, List, [], arith, ltb, if-cases, string_eq,
  nat_eq, Result, ok, err, refuse_if-passed, >>=-eq-ok,
}
use romd_dat_catalogs.Redump.{Catalog, registry_eq, validate_catalogs, canonical}
use romd_dat_catalogs.Redump.State.{SourceState}
use romd_dat_catalogs.Redump.State.Valid.{IsValid}
use romd_dat_catalogs.Redump.Custody.{Custody, IsLawful}
use romd_dat_catalogs.Redump.Adapter.{Outcome, Batch}
use romd_dat_catalogs.Redump.Scheduler.{
  Host, Watch, admit, admitted, landed, commit_watch, observe, finished, complete, fly,
}
use romd_dat_catalogs.Redump.Scheduler.Observed.{IsKept, acquire-IsKept}
use romd_dat_catalogs.Redump.Scheduler.Stored.{
  IsFree, IsMarked, admitted-IsValid, later-IsValid, landed-IsValid, Stored, commit_watch-Stored,
  commit_watch-state, commit_watch-eq-ok,
}

module _ {S : Type 0} (c : Custody S) (lawful : IsLawful c) where
  -- What an admission has shown.
  pub admit-IsFree :
      (host : Host) (catalogs : List Catalog) (st : S) (s : SourceState) (v : String)
      → admit c host catalogs st ≡ ok (s, v)
      → (c.load st ≡ ok (s, v)) × IsFree host.now s
  unfolding admit
  admit-IsFree host catalogs st s v e =
      let (_, e₁) = refuse_if-passed _ _ _ e in
      let (_, _, e₂) = >>=-eq-ok (validate_catalogs catalogs) _ e₁ in
      let (_, _, e₃) = >>=-eq-ok host.make_root _ e₂ in
      let (_, _, e₄) = >>=-eq-ok host.lock _ e₃ in
      let ((s₁, v₁), e₅, e₆) = >>=-eq-ok (c.load st) _ e₄ in
      let (_, e₇) = refuse_if-passed _ _ _ e₆ in
      let (clear, e₈) = refuse_if-passed _ _ _ e₇ in
      let (dated, e₉) = refuse_if-passed _ _ _ e₈ in
      let (due, e₁₀) = refuse_if-passed _ _ _ e₉ in
      let (_, e₁₁) = refuse_if-passed _ _ _ e₁₀ in
      let same : s₁ ≡ s = cc in
      (
        e₅ ∙ e₁₁,
        subst (IsFree host.now) same (record {
          clear = clear;
          due = ground (arith, due);
          forward = ground (arith, dated);
          dated = ground (arith, dated);
        }),
      )

  -- In flight, and marked both in memory and in the custody.
  pub record Flies (now : ℕ) (w : Watch S) : Type 0 where
    pub valid : IsValid w.state
    pub begun : w.state.last_attempt ≢ 0
    pub marked : IsMarked now w.state
    pub stored : Stored c (IsMarked now) w.store

  observe-Flies : (now : ℕ) (r : Outcome) (w : Watch S) → Flies now w → Flies now (observe c r w).1
  unfolding observe
  observe-Flies now r w f =
      if-cases {A = Result (Unit {0}) × Watch S} (λ p. Flies now p.1)
        (ltb w.state.next_attempt r.retry_at) _ _
        (λ later.
          let w' : Watch S = record w { state = record w.state { next_attempt = r.retry_at } } in
          let le : w.state.next_attempt ≤ r.retry_at = ground arith in
          let valid' = later-IsValid r.retry_at w.state f.begun le f.valid in
          let next = f.marked.next in
          let marked' : IsMarked now w'.state = record {
            last = f.marked.last;
            next = omega arith;
          } in
          let same = commit_watch-state c w' in
          record {
            valid = subst IsValid (sym same) valid';
            begun = subst (λ s. s.last_attempt ≢ 0) (sym same) f.begun;
            marked = subst (IsMarked now) (sym same) marked';
            stored = commit_watch-Stored c lawful (IsMarked now) w' valid' marked' f.stored;
          })
        (λ _. f)

  module _ (host : Host) (catalogs : List Catalog) where
    pub finished-store :
        (results : List Outcome) (asked : List String) (q : Result (Unit {0}) × Watch S)
        → (finished results asked q).2 ≡ q.1.store
    finished-store results asked (ok _, w) = refl
    finished-store results asked (err e, w) = refl

    complete-Stored :
        (p : Result (List Outcome) × Batch (Watch S))
        → Flies host.now p.1.watcher
        → Stored c (IsMarked host.now) (complete c p).2
    unfolding complete
    complete-Stored (err e, b) f = f.stored
    complete-Stored (ok results, b) f =
        let w : Watch S = record b.watcher { state = landed b.watcher.state } in
        let m : IsMarked host.now w.state = record { last = f.marked.last; next = f.marked.next } in
        subst (Stored c (IsMarked host.now))
          (sym (finished-store results b.requests (commit_watch c w)))
          (commit_watch-Stored c lawful (IsMarked host.now) w
            (landed-IsValid b.watcher.state f.valid) m f.stored)

    pub Flies-kept : IsKept host.world host.origin (observe c) (Flies host.now)
    Flies-kept = record { kept = observe-Flies host.now }

    -- Behind its admission a run flies to the end.
    pub fly-Stored :
        (p : Result (Unit {0}) × Watch S)
        → Flies host.now p.1
        → Stored c (IsMarked host.now) (fly c host catalogs p).2
    unfolding fly
    fly-Stored (err e, w) f = f.stored
    fly-Stored (ok _, w) f = complete-Stored _ (
        acquire-IsKept host.world host.origin (observe c) (Flies host.now) Flies-kept host.started
          host.cooldown (canonical catalogs) w f)

    pub fly-refused :
        (p : Result (Unit {0}) × Watch S) (e : String)
        → p.0 ≡ err e
        → (fly c host catalogs p).1 ≡ []
    unfolding fly
    fly-refused (err e, w) m h = refl
    fly-refused (ok _, w) m h = absurd cc

    abbrev pub admission : SourceState → String → S → Watch S
    admission s v st = record { state = admitted host.now s; version = v; store = st }

    pub admission-Flies :
        (st : S) (s : SourceState) (v : String) (w : Watch S)
        → c.load st ≡ ok (s, v)
        → IsFree host.now s
        → commit_watch c (admission s v st) ≡ (ok tt, w)
        → Flies host.now w
    admission-Flies st s v w e f h =
        let valid = admitted-IsValid host.now s f (lawful.loaded s v st e) in
        let (u, e₁) = commit_watch-eq-ok c lawful (admission s v st) w valid h in
        let same : w.state ≡ admitted host.now s =
          ap (λ p. p.1.state) (sym h) ∙ commit_watch-state c (admission s v st) in
        let m : IsMarked host.now (admitted host.now s) = record {
          last = refl;
          next = omega arith;
        } in
        record {
          valid = subst IsValid (sym same) valid;
          begun = subst (λ s. s.last_attempt ≢ 0) (sym same) f.dated;
          marked = subst (IsMarked host.now) (sym same) m;
          stored = (admitted host.now s, u, e₁, m);
        }
