-- ===== src/Prelude/Parts.antt =====
-- What the tests on the parts of a text decide: `strings.HasPrefix` and `strings.Contains`.
use Prim.Native.Nat.{ℕ}
use mathlib.Core.Path.{◌≡◌, refl, ap₂}
use mathlib.Core.Logic.{◌≢◌}
use mathlib.Core.Bool.{true, false, ◌||◌}
use mathlib.Core.List.{List, [], ◌∷◌, ◌++◌}
use native.Mathlib.Omega.{arith}
use romd_dat_catalogs.Prelude.Equality.{nat_eq}
use romd_dat_catalogs.Prelude.Text.{has_prefix, has_part}

has_prefix-append : (p ys : List ℕ) → has_prefix (p ++ ys) p ≡ true
unfolding has_prefix
has_prefix-append [] ys = refl
has_prefix-append (x ∷ p) ys = ground (arith, has_prefix-append p ys)

has_part-has_prefix : (xs p : List ℕ) → has_prefix xs p ≡ true → has_part xs p ≡ true
unfolding has_part
has_part-has_prefix [] p h = h
has_part-has_prefix (x ∷ xs) p h = rw h refl

has_part-append : (xs p ys : List ℕ) → has_part (xs ++ (p ++ ys)) p ≡ true
unfolding has_part
has_part-append [] p ys = has_part-has_prefix (p ++ ys) p (has_prefix-append p ys)
has_part-append (x ∷ xs) p ys =
    let later = has_part-append xs p ys in
    elim (has_prefix (x ∷ (xs ++ (p ++ ys))) p)
      as (λ b. (b || has_part (xs ++ (p ++ ys)) p) ≡ true) [ true ↦ refl | false ↦ later ]

-- A text without a part cannot be cut around it.
pub has_part-false :
    (text p : List ℕ) → has_part text p ≡ false → (xs ys : List ℕ) → text ≢ xs ++ (p ++ ys)
has_part-false text p h xs ys e =
    let found = has_part-append xs p ys in let h' = rw e at h in absurd cc

-- A text with a prefix is that prefix and a rest.
pub has_prefix-true :
    (text p : List ℕ) → has_prefix text p ≡ true → (rest : List ℕ) × (text ≡ p ++ rest)
unfolding has_prefix
has_prefix-true text [] h = (text, refl)
has_prefix-true [] (y ∷ p) h = absurd cc
has_prefix-true (x ∷ text) (y ∷ p) h =
    let head : x ≡ y = ground (arith, h) in
    let (rest, e) = has_prefix-true text p (ground (arith, h)) in (rest, ap₂ (λ a b. a ∷ b) head e)

pub has_prefix-false :
    (text p : List ℕ) → has_prefix text p ≡ false → (rest : List ℕ) → text ≢ p ++ rest
has_prefix-false text p h rest e =
    let found = has_prefix-append p rest in let h' = rw e at h in absurd cc
