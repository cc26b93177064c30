-- ===== src/NoIntro/Acquire/Ends.antt =====
-- `Acquire` ends, and what holds then.
use romd_dat_catalogs.Prelude.{
  ℕ, zero, suc, ◌+◌, ◌*◌, ◌≤◌, ◌≡◌, refl, inl, inr, String, true, false, Option, some, List, [],
  All, arith, length, nat_eq, Result, ok, err, Bool-cases,
}
use romd_dat_catalogs.Definitions.{Catalog}
use romd_dat_catalogs.NoIntro.Acquire.{World, Diagnostic, Adapter}
use romd_dat_catalogs.NoIntro.Acquire.Session.{Tried, stop_with}
use romd_dat_catalogs.NoIntro.Acquire.Walk.{
  attempt_once, with_earlier, is_last, back_off, attempts, acquire, no_result, behind_stage,
}
use romd_dat_catalogs.NoIntro.Acquire.Fair.{Kept, Kept-le, Spaced, IsReviewed}
use romd_dat_catalogs.NoIntro.Acquire.Verdict.{Verdict, Fair, attempt_once-Fair}

module _ (w : World) (id : String) (c : Catalog) where
  with_earlier-Fair :
      (gap m n : ℕ) (earlier : List Diagnostic) (t : Tried)
      → Fair w c gap m t
      → Fair w c gap m (with_earlier n earlier t)
  unfolding with_earlier
  with_earlier-Fair gap m n earlier t f = record {
    kept = f.kept;
    verdict = elim f.verdict [
      | inl e ↦ inl e
      | inr (inl (quiet, s)) ↦ inr (
          inl (
            quiet,
            record {
              code = s.code;
              failure = s.failure;
              path = s.path;
              raw = s.raw;
              document = s.document;
              valid = s.valid;
              sha256 = s.sha256;
            },
          ))
      | inr (inr (quiet, s)) ↦ inr (
          inr
            (quiet, record { code = s.code; failure = s.failure; path = s.path; stamp = s.stamp }))
    ];
  }

  back_off-Kept : (gap m n : ℕ) (a : Adapter) → Kept w c gap m a → Kept w c gap m (back_off n a)
  unfolding back_off
  back_off-Kept gap m n a k = record {
    same_gap = k.same_gap;
    spaced = k.spaced;
    reviewed = k.reviewed;
    bounded = k.bounded;
  }

  Fair-le : (gap n m : ℕ) (t : Tried) → n ≤ m → Fair w c gap n t → Fair w c gap m t
  Fair-le gap n m t le f = record {
    kept = Kept-le w c gap n m t.adapter le f.kept;
    verdict = f.verdict;
  }

  -- The third attempt is the last.
  is_last-third : (t : Tried) → is_last w 3 t ≡ true
  unfolding is_last
  is_last-third t = ground arith

  before_last : (n : ℕ) (t : Tried) → n ≤ 3 → is_last w n t ≡ false → n ≤ 2
  unfolding is_last
  before_last n t low going = ground arith

  attempts-Fair :
      (gap fuel k n : ℕ) (earlier : List Diagnostic) (a : Adapter)
      → n + fuel ≡ 4
      → n ≤ 3
      → Kept w c gap k a
      → (t : Tried) × (attempts w id c fuel n earlier a ≡ some t) × Fair w c gap (k + 4 * fuel) t
  unfolding attempts stop_with
  attempts-Fair gap zero k n earlier a total low kept = absurd (omega arith)
  attempts-Fair gap (suc fuel) k n earlier a total low kept =
      let t = with_earlier n earlier (attempt_once w n id c a) in
      let fair =
        with_earlier-Fair gap (k + 4) n earlier (attempt_once w n id c a)
          (attempt_once-Fair w c gap k n id a kept) in
      let here = Fair-le gap (k + 4) (k + 4 * suc fuel) t (omega arith) fair in
      elim (Bool-cases (is_last w n t)) [
        | inl last ↦ (t, rw last refl, here)
        | inr going ↦ elim (Bool-cases (w.is_backoff_cut n)) [
          | inl cut ↦ (
            stop_with t.adapter t.acquired "context canceled",
            rw (going, cut) refl,
            record { kept = here.kept; verdict = inl ("context canceled", refl) },
          )
          | inr waited ↦
              let early : n ≤ 2 = before_last n t low going in
              let (t', e, f) =
                attempts-Fair gap fuel (k + 4) (suc n) t.acquired.diagnostics (back_off n t.adapter)
                  (omega arith) (omega arith) (back_off-Kept gap (k + 4) n t.adapter fair.kept) in
              (t', rw (going, waited) e, Fair-le gap _ _ t' (omega arith) f)
        ]
      ]

  -- The adapter has asked for nothing yet.
  abbrev pub IsFresh : Adapter → Type 0
  IsFresh a = a.requests ≡ []

  fresh-Kept : (a : Adapter) → IsFresh a → Kept w c a.gap 0 a
  fresh-Kept a fresh = record {
    same_gap = refl;
    spaced = rw fresh tt;
    reviewed = rw fresh tt;
    bounded = rw fresh (omega arith);
  }

  behind_stage-Fair :
      (gap m : ℕ) (s : Result (Unit {0})) (a : Adapter) (o : Option Tried)
      → Kept w c gap m a
      → (t : Tried) × (o ≡ some t) × Fair w c gap m t
      → (t : Tried) × (behind_stage s a no_result o ≡ some t) × Fair w c gap m t
  unfolding stop_with
  behind_stage-Fair gap m (err e) a o kept later =
      (stop_with a no_result e, refl, record { kept = kept; verdict = inl (e, refl) })
  behind_stage-Fair gap m (ok _) a o kept later = later

  acquire-Ends :
      (a : Adapter) → IsFresh a → (t : Tried) × (acquire w id c a ≡ some t) × Fair w c a.gap 12 t
  unfolding acquire
  acquire-Ends a fresh =
      let kept = fresh-Kept a fresh in
      let (t, ended, fair) = attempts-Fair a.gap 3 0 1 [] a (omega arith) (omega arith) kept in
      behind_stage-Fair a.gap 12 w.make_stage a (attempts w id c 3 1 [] a)
        (Kept-le w c a.gap 0 12 a (omega arith) kept)
        (t, ended, Fair-le a.gap _ _ t (omega arith) fair)

  -- `Acquire` always returns, three units of fuel being enough, and by then it has made at most
  -- twelve requests.
  pub acquire_terminates :
      (a : Adapter)
      → IsFresh a
      → (t : Tried) × (acquire w id c a ≡ some t) × (length t.adapter.requests ≤ 12)
  acquire_terminates a fresh = let (t, e, fair) = acquire-Ends a fresh in (t, e, fair.kept.bounded)

  -- Through all its attempts, retries and cooldowns, `Acquire` sends no request earlier than the
  -- adapter's gap after the one before, and the adapter's next time stands a gap behind the last.
  pub acquire-Spaced :
      (a : Adapter)
      → IsFresh a
      → (t : Tried) × (acquire w id c a ≡ some t) × Spaced a.gap t.adapter.next t.adapter.requests
  acquire-Spaced a fresh = let (t, e, fair) = acquire-Ends a fresh in (t, e, fair.kept.spaced)

  -- `Acquire` submits a form only when it has recognized it: each POST that it makes is of the
  -- values that `prepareForm` or `downloadForm` returned for some page, at the step of that form.
  pub acquire-IsReviewed :
      (a : Adapter)
      → IsFresh a
      → (t : Tried) × (acquire w id c a ≡ some t)
        × All (λ q. IsReviewed w c q.step q.values) t.adapter.requests
  acquire-IsReviewed a fresh = let (t, e, fair) = acquire-Ends a fresh in (t, e, fair.kept.reviewed)

  -- `Acquire` returns an error, or a document that `Validate` accepts together with its counts,
  -- its hash and the path of its file, or a failure with its code and without a path, whose retry
  -- time, if any, is the adapter's next time at a backoff of the provider.
  pub acquire-Verdict :
      (a : Adapter) → IsFresh a → (t : Tried) × (acquire w id c a ≡ some t) × Verdict w c t
  acquire-Verdict a fresh = let (t, e, fair) = acquire-Ends a fresh in (t, e, fair.verdict)
