-- ===== src/Redump/Scheduler/Observed.antt =====
-- What the observer of a batch keeps, whatever the batch meets.
use romd_dat_catalogs.Prelude.{
  ℕ, suc, ◌≡◌, refl, sym, subst, String, List, [], ◌∷◌, arith, Result, ok, err, All, not, ◌>>◌,
  refuse_if,
}
use romd_dat_catalogs.Redump.{Catalog, validate_catalogs}
use romd_dat_catalogs.Redump.Adapter.{
  World, Outcome, Batch, consult, conclude, finish_round, acquire_each, acquire, start_batch,
  unless_refused,
}

module _ {S : Type 0} (w : World) (origin : String)
    (observe : Outcome → S → Result (Unit {0}) × S) where
  -- A predicate that each observation keeps.
  pub record IsKept (P : S → Type 0) : Type 0 where
    pub kept : (r : Outcome) (s : S) → P s → P (observe r s).1

  consult-watcher :
      (i : ℕ) (c : Catalog) (b : Batch S) → (consult w origin i c b).1.watcher ≡ b.watcher
  unfolding consult
  consult-watcher i c b = ground arith

  finish_round-cases :
      (P : S → Type 0) (seen : Result (Unit {0})) (r : Result Outcome)
      (later : Result (List Outcome) × Batch S) (b : Batch S)
      → P b.watcher
      → P later.1.watcher
      → P (finish_round seen r later b).1.watcher
  unfolding finish_round
  finish_round-cases P (err e) r later b p q = p
  finish_round-cases P (ok _) (err e) later b p q = p
  finish_round-cases P (ok _) (ok r) (l, b') b p q = q

  pub acquire_each-IsKept :
      (P : S → Type 0)
      → IsKept P
      → (i : ℕ) (cs : List Catalog) (b : Batch S) → P b.watcher
      → P (acquire_each w origin observe i cs b).1.watcher
  unfolding acquire_each
  acquire_each-IsKept P k i [] b p = p
  acquire_each-IsKept P k i (c ∷ rest) b p =
      let (r, b₁) = consult w origin i c b in
      let (seen, s) = observe r b₁.watcher in
      let q : P s = k.kept r b₁.watcher (subst P (sym (consult-watcher i c b)) p) in
      let b₂ : Batch S = record b₁ { watcher = s } in
      finish_round-cases P seen (conclude w i r) (acquire_each w origin observe (suc i) rest b₂) b₂
        q (acquire_each-IsKept P k (suc i) rest b₂ q)

  -- What holds of a result once it was observed, and goes on to.
  pub record IsStable (Q : ℕ → S → Type 0) : Type 0 where
    pub seen : (r : Outcome) (s s' : S) → observe r s ≡ (ok tt, s') → Q r.retry_at s'
    pub stable : (n : ℕ) → IsKept (Q n)

  conclude-retry_at : (i : ℕ) (r r' : Outcome) → conclude w i r ≡ ok r' → r'.retry_at ≡ r.retry_at
  unfolding conclude
  conclude-retry_at i r r' e = ground arith

  finish_round-eq-ok :
      (seen : Result (Unit {0})) (r : Result Outcome) (later : Result (List Outcome) × Batch S)
      (b b' : Batch S) (l : List Outcome)
      → finish_round seen r later b ≡ (ok l, b')
      → (seen ≡ ok tt)
        × (o : Outcome) × (rest : List Outcome) × (r ≡ ok o)
        × (later ≡ (ok rest, b'))
        × (l ≡ o ∷ rest)
  unfolding finish_round
  finish_round-eq-ok (err e) r later b b' l h = absurd cc
  finish_round-eq-ok (ok _) (err e) later b b' l h = absurd cc
  finish_round-eq-ok (ok _) (ok r) (err e, b₁) b b' l h = absurd cc
  finish_round-eq-ok (ok _) (ok r) (ok rest, b₁) b b' l h = (refl, r, rest, refl, cc, cc)

  pub acquire_each-IsStable :
      (Q : ℕ → S → Type 0)
      → IsStable Q
      → (i : ℕ) (cs : List Catalog) (b b' : Batch S) (l : List Outcome)
      → acquire_each w origin observe i cs b ≡ (ok l, b')
      → All (λ r. Q r.retry_at b'.watcher) l
  unfolding acquire_each
  acquire_each-IsStable Q k i [] b b' l e =
      let same : l ≡ [] = cc in subst (λ l. All (λ r. Q r.retry_at b'.watcher) l) (sym same) tt
  acquire_each-IsStable Q k i (c ∷ rest) b b' l e =
      let (r, b₁) = consult w origin i c b in
      let (seen, s) = observe r b₁.watcher in
      let b₂ : Batch S = record b₁ { watcher = s } in
      let (e₁, o, l', e₂, e₃, e₄) =
        finish_round-eq-ok seen (conclude w i r) (acquire_each w origin observe (suc i) rest b₂) b₂
          b' l e in
      let q : Q r.retry_at s = k.seen r b₁.watcher s (λ i. (e₁ i, s)) in
      let q' : Q r.retry_at b'.watcher =
        subst (λ p. Q r.retry_at p.1.watcher) e₃
          (acquire_each-IsKept (Q r.retry_at) (k.stable r.retry_at) (suc i) rest b₂ q) in
      subst (λ l. All (λ r. Q r.retry_at b'.watcher) l) (sym e₄)
        (
          subst (λ n. Q n b'.watcher) (sym (conclude-retry_at i r o e₂)) q',
          acquire_each-IsStable Q k (suc i) rest b₂ b' l' e₃,
        )

  unless_refused-cases :
      (P : S → Type 0) (u : Result (Unit {0})) (b : Batch S) (k : Result (List Outcome) × Batch S)
      → P b.watcher
      → P k.1.watcher
      → P (unless_refused u b k).1.watcher
  unless_refused-cases P (err e) b k p q = p
  unless_refused-cases P (ok _) b k p q = q

  unless_refused-eq-ok :
      (u : Result (Unit {0})) (b b' : Batch S) (k : Result (List Outcome) × Batch S)
      (l : List Outcome)
      → unless_refused u b k ≡ (ok l, b')
      → k ≡ (ok l, b')
  unless_refused-eq-ok (err e) b b' k l h = absurd cc
  unless_refused-eq-ok (ok _) b b' k l h = h

  -- The same of a whole batch.
  pub acquire-IsKept :
      (P : S → Type 0)
      → IsKept P
      → (started cooldown : ℕ) (cs : List Catalog) (s : S) → P s
      → P (acquire w origin observe started cooldown cs s).1.watcher
  unfolding acquire
  acquire-IsKept P k started cooldown cs s p =
      let b : Batch S = start_batch started cooldown s in
      unless_refused-cases P
        (validate_catalogs cs >> refuse_if (not w.origin_is_valid) _ >> w.make_stage) b
        (acquire_each w origin observe 0 cs b) p (acquire_each-IsKept P k 0 cs b p)

  pub acquire-IsStable :
      (Q : ℕ → S → Type 0)
      → IsStable Q
      → (started cooldown : ℕ) (cs : List Catalog) (s : S) (b : Batch S) (l : List Outcome)
      → acquire w origin observe started cooldown cs s ≡ (ok l, b)
      → All (λ r. Q r.retry_at b.watcher) l
  unfolding acquire
  acquire-IsStable Q k started cooldown cs s b l e =
      let b₀ : Batch S = start_batch started cooldown s in
      acquire_each-IsStable Q k 0 cs b₀ b l (
        unless_refused-eq-ok
          (validate_catalogs cs >> refuse_if (not w.origin_is_valid) _ >> w.make_stage) b₀ b
          (acquire_each w origin observe 0 cs b₀) l e)
