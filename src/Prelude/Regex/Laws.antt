-- ===== src/Prelude/Regex/Laws.antt =====
-- The matcher decides the usual meaning of a pattern.
use Prim.Native.Nat.{ℕ}
use mathlib.Core.Path.{◌≡◌, refl, sym, ap, subst, ◌∙◌}
use mathlib.Core.Logic.{inl, inr}
use mathlib.Core.Bool.{true}
use mathlib.Core.List.{List, [], ◌∷◌, ◌++◌}
use native.Mathlib.Omega.{arith}
use romd_dat_catalogs.Prelude.Equality.{Bool-cases}
use romd_dat_catalogs.Prelude.Regex.{
  Regex, never, done, one_of, both, either, star, in_ranges, nullable, after, matches,
}

pub data Matches : Regex → List ℕ → Type 0 where
  m_done : {w : List ℕ} → w ≡ [] → Matches done w
  m_one :
      {rs : List (ℕ × ℕ)} {w : List ℕ} (c : ℕ)
      → in_ranges rs c ≡ true
      → w ≡ c ∷ []
      → Matches (one_of rs) w
  m_both :
      {r s : Regex} {w : List ℕ} (u v : List ℕ)
      → Matches r u
      → Matches s v
      → w ≡ u ++ v
      → Matches (both r s) w
  m_left : {r s : Regex} {w : List ℕ} → Matches r w → Matches (either r s) w
  m_right : {r s : Regex} {w : List ℕ} → Matches s w → Matches (either r s) w
  m_stop : {r : Regex} {w : List ℕ} → w ≡ [] → Matches (star r) w
  m_more :
      {r : Regex} {w : List ℕ} (u v : List ℕ)
      → Matches r u
      → Matches (star r) v
      → w ≡ u ++ v
      → Matches (star r) w

nullable-Matches : (r : Regex) → nullable r ≡ true → Matches r []
unfolding nullable
nullable-Matches never h = cc
nullable-Matches done h = m_done refl
nullable-Matches (one_of rs) h = cc
nullable-Matches (both r s) h =
    m_both [] [] (nullable-Matches r (ground arith)) (nullable-Matches s (ground arith)) refl
nullable-Matches (either r s) h = elim (Bool-cases (nullable r)) [
  | inl e ↦ m_left (nullable-Matches r e)
  | inr e ↦ m_right (nullable-Matches s (ground arith))
]
nullable-Matches (star r) h = m_stop refl

-- What follows the first code point belongs to the rest of the pattern.
after-both :
    (c : ℕ) (r s : Regex) {w : List ℕ}
    → ((u : List ℕ) → Matches (after c r) u → Matches r (c ∷ u))
    → Matches (both (after c r) s) w
    → Matches (both r s) (c ∷ w)
after-both c r s step (m_both u v m n e) = m_both (c ∷ u) v (step u m) n (ap (λ t. c ∷ t) e)

not-Matches-never : {w : List ℕ} → Matches never w → ⊥
not-Matches-never m = elim m [ ]

after_one :
    (c : ℕ) (rs : List (ℕ × ℕ)) {w : List ℕ}
    → in_ranges rs c ≡ true
    → Matches done w
    → Matches (one_of rs) (c ∷ w)
after_one c rs h (m_done e) = m_one c h (ap (λ t. c ∷ t) e)

after_either :
    (c : ℕ) (r s : Regex) {w : List ℕ}
    → nullable r ≡ true
    → ((u : List ℕ) → Matches (after c r) u → Matches r (c ∷ u))
    → (Matches (after c s) w → Matches s (c ∷ w))
    → Matches (either (both (after c r) s) (after c s)) w
    → Matches (both r s) (c ∷ w)
after_either c r s h step_r step_s (m_left m) = after-both c r s step_r m
after_either c r s h step_r step_s (m_right m) = m_both [] _ (nullable-Matches r h) (step_s m) refl

after-Matches : (c : ℕ) (r : Regex) (w : List ℕ) → Matches (after c r) w → Matches r (c ∷ w)
unfolding after
after-Matches c never w m = elim m [ ]
after-Matches c done w m = elim m [ ]
after-Matches c (one_of rs) w m = elim (Bool-cases (in_ranges rs c)) [
  | inl e ↦ after_one c rs e (rw e at m)
  | inr e ↦ elim (not-Matches-never (rw e at m)) [ ]
]
after-Matches c (both r s) w m = elim (Bool-cases (nullable r)) [
  | inl e ↦ after_either c r s e (after-Matches c r) (after-Matches c s w) (rw e at m)
  | inr e ↦ after-both c r s (after-Matches c r) (rw e at m)
]
after-Matches c (either r s) w (m_left m) = m_left (after-Matches c r w m)
after-Matches c (either r s) w (m_right m) = m_right (after-Matches c s w m)
after-Matches c (star r) w (m_both u v m n e) =
    m_more (c ∷ u) v (after-Matches c r u m) n (ap (λ t. c ∷ t) e)

-- A text that the matcher accepts is built as the pattern says.
pub matches-Matches : (r : Regex) (w : List ℕ) → matches r w ≡ true → Matches r w
unfolding matches
matches-Matches r [] h = nullable-Matches r h
matches-Matches r (c ∷ cs) h = after-Matches c r cs (matches-Matches (after c r) cs h)

append-eq-nil : (u v : List ℕ) → u ++ v ≡ [] → (u ≡ []) × (v ≡ [])
append-eq-nil [] v e = (refl, e)
append-eq-nil (x ∷ u) v e = cc

Matches-nullable : {r : Regex} {w : List ℕ} → Matches r w → w ≡ [] → nullable r ≡ true
unfolding nullable
Matches-nullable (m_done e') e = refl
Matches-nullable (m_one c h e') e = cc
Matches-nullable (m_both u v m n e') e =
    let p = append-eq-nil u v (sym e' ∙ e) in rw (Matches-nullable m p.0, Matches-nullable n p.1)
Matches-nullable (m_left m) e = rw (Matches-nullable m e)
Matches-nullable (m_right m) e = ground (arith, Matches-nullable m e)
Matches-nullable (m_stop e') e = refl
Matches-nullable (m_more u v m n e') e = refl

one_after :
    (c : ℕ) (rs : List (ℕ × ℕ)) (w : List ℕ)
    → in_ranges rs c ≡ true
    → w ≡ []
    → Matches (after c (one_of rs)) w
unfolding after
one_after c rs w h e = rw h (m_done e)

both_first :
    (c : ℕ) (r s : Regex) (u v : List ℕ)
    → Matches (after c r) u
    → Matches s v
    → Matches (after c (both r s)) (u ++ v)
unfolding after
both_first c r s u v m n = elim (Bool-cases (nullable r)) [
  | inl e ↦ rw e (m_left (m_both u v m n refl))
  | inr e ↦ rw e (m_both u v m n refl)
]

both_second :
    (c : ℕ) (r s : Regex) (w : List ℕ)
    → nullable r ≡ true
    → Matches (after c s) w
    → Matches (after c (both r s)) w
unfolding after
both_second c r s w h m = rw h (m_right m)

head_eq : {x c : ℕ} {u w : List ℕ} → x ∷ u ≡ c ∷ w → x ≡ c
head_eq e = cc

tail_eq : {x c : ℕ} {u w : List ℕ} → x ∷ u ≡ c ∷ w → u ≡ w
tail_eq e = cc

Matches-after :
    (c : ℕ) {r : Regex} {t : List ℕ}
    → Matches r t
    → (w : List ℕ) → t ≡ c ∷ w
    → Matches (after c r) w
unfolding after
Matches-after c (m_done e') w e = absurd (cc)
Matches-after c (m_one {rs} x h e') w e =
    one_after c rs w (subst (λ y. in_ranges rs y ≡ true) (head_eq (sym e' ∙ e)) h)
      (sym (tail_eq (sym e' ∙ e)))
Matches-after c (m_both {r} {s} [] v m n e') w e =
    both_second c r s w (Matches-nullable m refl) (Matches-after c n w (sym e' ∙ e))
Matches-after c (m_both {r} {s} (x ∷ u) v m n e') w e =
    let h = head_eq (sym e' ∙ e) in
    subst (Matches (after c (both r s))) (tail_eq (sym e' ∙ e))
      (both_first c r s u v (Matches-after c m u (ap (λ y. y ∷ u) h)) n)
Matches-after c (m_left m) w e = m_left (Matches-after c m w e)
Matches-after c (m_right m) w e = m_right (Matches-after c m w e)
Matches-after c (m_stop e') w e = absurd (cc)
Matches-after c (m_more [] v m n e') w e = Matches-after c n w (sym e' ∙ e)
Matches-after c (m_more {r} (x ∷ u) v m n e') w e =
    let h = head_eq (sym e' ∙ e) in
    subst (Matches (after c (star r))) (tail_eq (sym e' ∙ e))
      (m_both u v (Matches-after c m u (ap (λ y. y ∷ u) h)) n refl)

-- A text that is built as the pattern says is accepted.
pub Matches-matches : (r : Regex) (w : List ℕ) → Matches r w → matches r w ≡ true
unfolding matches
Matches-matches r [] m = Matches-nullable m refl
Matches-matches r (c ∷ w) m = Matches-matches (after c r) w (Matches-after c m w refl)
