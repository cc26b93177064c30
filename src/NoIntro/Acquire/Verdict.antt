-- ===== src/NoIntro/Acquire/Verdict.antt =====
-- What an attempt comes to, and how often and how closely it asks.
use romd_dat_catalogs.Prelude.{
  ℕ, suc, ◌+◌, ◌-◌, ◌≤◌, ◌≡◌, refl, ◌⊎◌, inl, inr, String, Bool, true, false, none, some, arith,
  ltb, ◌==◌, string_eq, nat_eq, Result, ok, err, if-cases, Result-cases,
}
use romd_dat_catalogs.Publisher.{Bytes}
use romd_dat_catalogs.Definitions.{Catalog}
use romd_dat_catalogs.NoIntro.{validate}
use romd_dat_catalogs.NoIntro.Acquire.{World, Acquired, Adapter, Page, page, refused}
use romd_dat_catalogs.NoIntro.Acquire.Session.{
  Tried, fail, with_page, or_fail, fail_if, stop_with, keep_document,
}
use romd_dat_catalogs.NoIntro.Acquire.Walk.{
  check_download, check_manager, check_prepare, check_selection, walk, attempt_once, start,
  stamp_retry, is_unreviewed,
}
use romd_dat_catalogs.NoIntro.Acquire.Fair.{
  Kept, Kept-le, IsClear, IsStamped, IsRefusal, Good, request-Good,
}

module _ (w : World) (c : Catalog) where
  -- The document was validated, and its file has a path.
  pub record IsSuccess (r : Acquired) : Type 0 where
    pub code : r.code ≡ ""
    pub failure : r.attempt.failure ≡ none
    pub path : (p : String) × (r.attempt.path ≡ some p)
    pub raw : Bytes
    pub document : Bytes
    pub valid : validate w.formats w.unmarshal raw c ≡ ok (document, r.counts)
    pub sha256 : r.sha256 ≡ w.hash document

  pub record IsFailure (a : Adapter) (r : Acquired) : Type 0 where
    pub code : (r.code == "") ≡ false
    pub failure : r.attempt.failure ≡ some r.code
    pub path : r.attempt.path ≡ none
    pub stamp : IsStamped w c r.code a r

  -- An error, a document, or a failure with its code.
  abbrev pub Verdict : Tried → Type 0
  Verdict t =
      ((e : String) × (t.error ≡ some e))
      ⊎ ((t.error ≡ none) × IsSuccess t.acquired)
      ⊎ ((t.error ≡ none) × IsFailure t.adapter t.acquired)

  pub record Fair (gap n : ℕ) (t : Tried) : Type 0 where
    pub kept : Kept w c gap n t.adapter
    pub verdict : Verdict t

  fail-Fair :
      (gap n : ℕ) (code : String) (a : Adapter) (r : Acquired)
      → Kept w c gap n a
      → IsRefusal w c code a r
      → Fair gap n (fail code a r)
  unfolding fail
  fail-Fair gap n code a r k (named, path, stamp) = record {
    kept = k;
    verdict = inr (inr (refl, record { code = named; failure = refl; path = path; stamp = stamp }));
  }

  -- A failure of a stage's own, before anything was said of the result.
  stage-fail :
      (gap n m : ℕ) (code : String) (a : Adapter) (r : Acquired)
      → n ≤ m
      → (code == "") ≡ false
      → Kept w c gap n a
      → IsClear w c r
      → Fair gap m (fail code a r)
  stage-fail gap n m code a r le named k (stamp, path, _, _) =
      fail-Fair gap m code a r (Kept-le w c gap n m a le k) (named, path, inl stamp)

  fail_if-Fair :
      (gap m : ℕ) (b : Bool) (code : String) (a : Adapter) (r : Acquired) (next : Tried)
      → Fair gap m (fail code a r)
      → Fair gap m next
      → Fair gap m (fail_if b code a r next)
  unfolding fail_if
  fail_if-Fair gap m true code a r next f g = f
  fail_if-Fair gap m false code a r next f g = g

  or_fail-Fair :
      {A : Type 0} (gap m : ℕ) (q : Result A) (code : String) (a : Adapter) (r : Acquired)
      (next : A → Tried)
      → Fair gap m (fail code a r)
      → ((v : A) → q ≡ ok v → Fair gap m (next v))
      → Fair gap m (or_fail q code a r next)
  unfolding or_fail
  or_fail-Fair gap m (err e) code a r next f g = f
  or_fail-Fair gap m (ok v) code a r next f g = g v refl

  with_page-Fair :
      (gap n m : ℕ) (t : Page × Adapter × Acquired)
      (next : ℕ → String → Bytes → Adapter → Acquired → Tried)
      → n ≤ m
      → Good w c gap n t
      → ((status : ℕ) (location : String) (body : Bytes) (a : Adapter) (r : Acquired)
          → Kept w c gap n a
          → IsClear w c r
          → Fair gap m (next status location body a r))
      → Fair gap m (with_page t next)
  unfolding with_page Good
  with_page-Fair gap n m (refused code, a, r) next le (k, h) g =
      fail-Fair gap m code a r (Kept-le w c gap n m a le k) h
  with_page-Fair gap n m (page status location body, a, r) next le (k, h) g =
      g status location body a r k h

  check_download-Fair :
      (gap n m k status : ℕ) (location : String) (raw : Bytes) (a : Adapter) (r : Acquired)
      → n ≤ m
      → Kept w c gap n a
      → IsClear w c r
      → Fair gap m (check_download w k c status location raw a r)
  unfolding check_download keep_document stop_with string_eq
  check_download-Fair gap n m k status location raw a r le kept h =
      let failed : (code : String) → (code == "") ≡ false → Fair gap m (fail code a r) =
        λ code named. stage-fail gap n m code a r (omega arith) named kept h in
      fail_if-Fair gap m _ "unexpected_redirect" a r _ (failed _ refl) (
        or_fail-Fair gap m (validate w.formats w.unmarshal raw c) "invalid_document" a r _
          (failed _ refl)
          (λ (document, counts) valid.
            let more = Kept-le w c gap n m a le kept in
            elim (Result-cases (w.write k)) [
              | inl (e, h₁) ↦ rw h₁ (record { kept = more; verdict = inl (e, refl) })
              | inr (path, h₁) ↦ rw h₁ (record {
                kept = more;
                verdict = inr (
                    inl (
                      refl,
                      record {
                        code = h.3;
                        failure = h.2;
                        path = (path, refl);
                        raw = raw;
                        document = document;
                        valid = valid;
                        sha256 = refl;
                      },
                    ));
              })
            ]))

  check_manager-Fair :
      (gap n m k : ℕ) (manager : String) (status : ℕ) (location : String) (raw : Bytes)
      (a : Adapter) (r : Acquired)
      → n + 1 ≤ m
      → Kept w c gap n a
      → IsClear w c r
      → Fair gap m (check_manager w k c manager status location raw a r)
  unfolding check_manager string_eq
  check_manager-Fair gap n m k manager status location raw a r le kept h =
      let failed : (code : String) → (code == "") ≡ false → Fair gap m (fail code a r) =
        λ code named. stage-fail gap n m code a r (omega arith) named kept h in
      fail_if-Fair gap m _ "unexpected_redirect" a r _ (failed _ refl) (
        fail_if-Fair gap m _ "upstream_pending" a r _ (failed _ refl) (
          or_fail-Fair gap m _ "form_changed" a r _ (failed _ refl) (λ v e.
            with_page-Fair gap (suc n) m _ _ (omega arith)
              (request-Good w c gap n "download" manager (some v) _ a r (inr (refl, w.text raw, e))
                kept h)
              (λ st loc b a₁ r₁.
                check_download-Fair gap (suc n) m k st loc b a₁ r₁ (omega arith)))))

  check_prepare-Fair :
      (gap n m k status : ℕ) (location : String) (raw : Bytes) (a : Adapter) (r : Acquired)
      → n + 2 ≤ m
      → Kept w c gap n a
      → IsClear w c r
      → Fair gap m (check_prepare w k c status location raw a r)
  unfolding check_prepare string_eq
  check_prepare-Fair gap n m k status location raw a r le kept h =
      let failed : (code : String) → (code == "") ≡ false → Fair gap m (fail code a r) =
        λ code named. stage-fail gap n m code a r (omega arith) named kept h in
      fail_if-Fair gap m _ "upstream_pending" a r _ (failed _ refl) (
        fail_if-Fair gap m _ "prepare_failed" a r _ (failed _ refl) (
          or_fail-Fair gap m _ "unexpected_redirect" a r _ (failed _ refl) (λ manager e.
            with_page-Fair gap (suc n) m _ _ (omega arith)
              (request-Good w c gap n "manager" manager none _ a r tt kept h)
              (λ st loc b a₁ r₁.
                check_manager-Fair gap (suc n) m k manager st loc b a₁ r₁ (omega arith)))))

  check_selection-Fair :
      (gap n m k status : ℕ) (location : String) (raw : Bytes) (a : Adapter) (r : Acquired)
      → n + 3 ≤ m
      → Kept w c gap n a
      → IsClear w c r
      → Fair gap m (check_selection w k c status location raw a r)
  unfolding check_selection string_eq
  check_selection-Fair gap n m k status location raw a r le kept h =
      let failed : (code : String) → (code == "") ≡ false → Fair gap m (fail code a r) =
        λ code named. stage-fail gap n m code a r (omega arith) named kept h in
      fail_if-Fair gap m _ "unexpected_redirect" a r _ (failed _ refl) (
        fail_if-Fair gap m _ "upstream_pending" a r _ (failed _ refl) (
          or_fail-Fair gap m _ "form_changed" a r _ (failed _ refl) (λ v e.
            with_page-Fair gap (suc n) m _ _ (omega arith)
              (request-Good w c gap n "prepare" _ (some v) _ a r (inl (refl, w.text raw, e)) kept h)
              (λ st loc b a₁ r₁. check_prepare-Fair gap (suc n) m k st loc b a₁ r₁ (omega arith)))))

  -- An attempt makes four requests at most.
  walk-Fair :
      (gap n m k : ℕ) (a : Adapter) (r : Acquired)
      → n + 4 ≤ m
      → Kept w c gap n a
      → IsClear w c r
      → Fair gap m (walk w k c a r)
  unfolding walk stamp_retry string_eq
  walk-Fair gap n m k a r le kept h =
      if-cases (Fair gap m) (ltb a.gap (a.next - a.clock)) _ _
        (λ _.
          fail-Fair gap m "provider_backoff" a _ (Kept-le w c gap n m a (omega arith) kept)
            (refl, h.1, inr (refl, refl)))
        (λ _.
          with_page-Fair gap (suc n) m _ _ (omega arith)
            (request-Good w c gap n "selection" _ none _ a r tt kept h)
            (λ st loc b a₁ r₁. check_selection-Fair gap (suc n) m k st loc b a₁ r₁ (omega arith)))

  pub attempt_once-Fair :
      (gap n k : ℕ) (id : String) (a : Adapter)
      → Kept w c gap n a
      → Fair gap (n + 4) (attempt_once w k id c a)
  unfolding attempt_once stop_with start
  attempt_once-Fair gap n k id a kept =
      let more = Kept-le w c gap n (n + 4) a (omega arith) kept in
      if-cases (Fair gap (n + 4)) (is_unreviewed id c) _ _
        (λ _. record { kept = more; verdict = inl (_, refl) })
        (λ _.
          if-cases (Fair gap (n + 4)) (w.is_busy k) (stop_with a (start id c) "context canceled")
            (walk w k c a (start id c)) (λ _. record { kept = more; verdict = inl (_, refl) })
            (λ _.
              walk-Fair gap n (n + 4) k a (start id c) (omega arith) kept (refl, refl, refl, refl)))
