-- ===== src/Redump/Scheduler/Recovered.antt =====
-- What `Recover` and `Initialize` write.
use romd_dat_catalogs.Prelude.{
  ℕ, ◌+◌, ◌-◌, ◌^◌, ◌≤◌, ◌<◌, ◌≡◌, ◌≢◌, refl, sym, subst, ◌∙◌, ap, String, true, false, arith, some,
  string_eq, nat_eq, Result, ok, err, refuse_if-passed, >>=-eq-ok,
}
use romd_dat_catalogs.Redump.{registry_eq}
use romd_dat_catalogs.Redump.State.{SourceState, RecoveryRecord, bad_source}
use romd_dat_catalogs.Redump.State.Valid.{IsValid}
use romd_dat_catalogs.Redump.Custody.{Custody, IsLawful}
use romd_dat_catalogs.Redump.Scheduler.{
  Host, RecoveryOptions, review, reviewed, recovered, resume, recover, done_with,
}
use romd_dat_catalogs.Redump.Scheduler.Stored.{Stored}

-- What a recovery makes of the state that was reviewed.
pub record IsRecovery (now not_before : ℕ) (s s' : SourceState) : Type 0 where
  pub was_flying : s.in_flight ≡ true
  pub clear : s'.in_flight ≡ false
  pub counted : s'.recovery_count ≡ s.recovery_count + 1
  pub deadline : s'.next_attempt ≡ not_before
  pub not_shortened : s.next_attempt ≤ not_before
  pub not_past : now ≤ not_before
  pub attempt_kept : s'.last_attempt ≡ s.last_attempt
  pub registry_kept : (s'.registry ≡ s.registry) × (s'.origin ≡ s.origin)
  pub recorded :
      (r : RecoveryRecord) × (s'.recovery ≡ some r)
      × (r.interrupted_attempt ≡ s.last_attempt)
      × (r.at ≡ now)

-- The facts that a review has established.
record IsReviewed (now not_before : ℕ) (s : SourceState) : Type 0 where
  flying : s.in_flight ≡ true
  forward : s.last_attempt ≤ now
  dated : now ≢ 0
  ahead : now ≤ not_before
  kept : s.next_attempt ≤ not_before
  room : s.recovery_count ≢ 2 ^ 64 - 1

module _ {S : Type 0} (digest : SourceState → String) (c : Custody S) where
  reviewed-IsReviewed :
      (host : Host) (opt : RecoveryOptions) (st : S) (s : SourceState) (v : String)
      → reviewed digest c host opt st ≡ ok (s, v)
      → (c.load st ≡ ok (s, v))
        × IsReviewed host.now opt.not_before s
        × (digest s ≡ opt.expected_digest)
  unfolding reviewed review
  reviewed-IsReviewed host opt st s v e =
      let (_, e₁) = refuse_if-passed _ _ _ e in
      let (_, e₂) = refuse_if-passed _ _ _ e₁ in
      let (_, _, e₃) = >>=-eq-ok host.make_root _ e₂ in
      let (_, _, e₄) = >>=-eq-ok host.lock _ e₃ in
      let ((s₁, v₁), e₅, e₆) = >>=-eq-ok (c.load st) _ e₄ in
      let (flying, e₇) = refuse_if-passed _ _ _ e₆ in
      let (fresh, e₈) = refuse_if-passed _ _ _ e₇ in
      let (timely, e₉) = refuse_if-passed _ _ _ e₈ in
      let (room, e₁₀) = refuse_if-passed _ _ _ e₉ in
      let same : s₁ ≡ s = cc in
      (
        e₅ ∙ e₁₀,
        subst (IsReviewed host.now opt.not_before) same (record {
          flying = ground (arith, flying);
          forward = ground (arith, timely);
          dated = ground (arith, timely);
          ahead = ground (arith, timely);
          kept = ground (arith, timely);
          room = ground (arith, room);
        }),
        ap digest (sym same) ∙ ground (arith, fresh),
      )

recovered-count :
    (now not_before : ℕ) (s : SourceState)
    → s.recovery_count < 2 ^ 64 - 1
    → (recovered now not_before s).recovery_count ≡ s.recovery_count + 1
unfolding recovered
recovered-count now not_before s h = omega arith

-- The written state is valid: a recovery's record fits the schedule that it sets.
recovered-IsValid :
    (now not_before : ℕ) (s : SourceState)
    → s.recovery_count < 2 ^ 64
    → IsReviewed now not_before s
    → IsValid s
    → IsValid (recovered now not_before s)
unfolding recovered bad_source
recovered-IsValid now not_before s bound f v =
    let begun = v.scheduled.flown f.flying in
    let spaced = v.scheduled.spaced begun in
    let forward = f.forward in
    let ahead = f.ahead in
    let kept = f.kept in
    let room = f.room in
    record {
      scheduled = record {
        started = (λ h. absurd (begun h), λ h. absurd (omega arith));
        spaced = λ h. omega arith;
        flown = λ h. begun;
      };
      recovered = (
        (λ h. absurd (omega arith)),
        refl,
        forward,
        ahead,
        begun,
        omega arith,
        omega arith,
        omega arith,
      );
      source = v.source;
    }

recovered-IsRecovery :
    (now not_before : ℕ) (s : SourceState)
    → s.recovery_count < 2 ^ 64
    → IsReviewed now not_before s
    → IsRecovery now not_before s (recovered now not_before s)
unfolding recovered
recovered-IsRecovery now not_before s bound f =
    let room = f.room in
    record {
      was_flying = f.flying;
      clear = refl;
      counted = omega arith;
      deadline = refl;
      not_shortened = f.kept;
      not_past = f.ahead;
      attempt_kept = refl;
      registry_kept = (refl, refl);
      recorded = (_, refl, refl, refl);
    }

module _ {S : Type 0} (digest : SourceState → String) (c : Custody S) (lawful : IsLawful c) where
  done_with-eq-ok :
      (p : Result String × S) (st : S) → done_with p ≡ (ok tt, st) → (v : String) × (p ≡ (ok v, st))
  done_with-eq-ok (ok v, st₁) st h = (v, cc)
  done_with-eq-ok (err e, st₁) st h = absurd cc

  resume-eq-ok :
      (now not_before : ℕ) (st st' : S) (r : Result (SourceState × String))
      → resume c now not_before st r ≡ (ok tt, st')
      → (s : SourceState) × (v v' : String) × (r ≡ ok (s, v))
        × (c.commit v (recovered now not_before s) st ≡ (ok v', st'))
  unfolding resume
  resume-eq-ok now not_before st st' (err e) h = absurd cc
  resume-eq-ok now not_before st st' (ok (s, v)) h =
      let (v', e) = done_with-eq-ok (c.commit v (recovered now not_before s) st) st' h in
      (s, v, v', refl, e)

  -- A recovery that succeeds was asked for the state that the custody held, in flight and by its
  -- digest. What it leaves is that state at rest: counted once more, its deadline moved to the time
  -- asked for and never nearer, the interrupted attempt on record. A state's counter is a uint64.
  pub recover-IsRecovery :
      (host : Host) (opt : RecoveryOptions) (st st' : S)
      → ((s : SourceState) (v : String) → c.load st ≡ ok (s, v) → s.recovery_count < 2 ^ 64)
      → recover digest c host opt st ≡ (ok tt, st')
      → (s : SourceState) × (v : String) × (c.load st ≡ ok (s, v))
        × (digest s ≡ opt.expected_digest)
        × Stored c (IsRecovery host.now opt.not_before s) st'
  unfolding recover
  recover-IsRecovery host opt st st' bound h =
      let (s, v, v', e, e₁) =
        resume-eq-ok host.now opt.not_before st st' (reviewed digest c host opt st) h in
      let (loaded, f, same) = reviewed-IsReviewed digest c host opt st s v e in
      let small = bound s v loaded in
      let valid =
        recovered-IsValid host.now opt.not_before s small f (lawful.loaded s v st loaded) in
      let (u, e₂) = lawful.committed v v' _ st st' valid e₁ in
      (s, v, loaded, same, (_, u, e₂, recovered-IsRecovery host.now opt.not_before s small f))
