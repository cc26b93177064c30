-- ===== src/Prelude/Results.antt =====
-- `(T, error)`: a value or the error's message. A formatted message stands as its format.
use Prim.Native.String.{String}
use mathlib.Core.Path.{◌≡◌, refl}
use mathlib.Core.Logic.{◌⊎◌, inl, inr}
use mathlib.Core.Bool.{Bool, true, false}
use mathlib.Core.Option.{Option, none, some}

pub data Result {ℓ} (A : Type ℓ) : Type ℓ where
  ok : A → Result A
  err : String → Result A

infixl 5 ◌>>=◌ ◌>>◌
abbrev pub ◌>>=◌ {ℓ κ} : {A : Type ℓ} {B : Type κ} → Result A → (A → Result B) → Result B
ok a >>= f = f a
err e >>= f = err e

abbrev pub ◌>>◌ {ℓ κ} : {A : Type ℓ} {B : Type κ} → Result A → Result B → Result B
m >> k = m >>= λ _. k

-- `if bad { return errors.New(message) }`
unfoldable pub refuse_if : Bool → String → Result (Unit {0})
refuse_if true message = err message
refuse_if false message = ok tt

abbrev pub or_err {ℓ} : {A : Type ℓ} → Option A → String → Result A
or_err none message = err message
or_err (some a) message = ok a

abbrev pub IsOk {ℓ} : {A : Type ℓ} → Result A → Type 0
IsOk (ok a) = Unit
IsOk (err e) = ⊥

pub Result-cases {ℓ} :
    {A : Type ℓ} (r : Result A) → ((e : String) × (r ≡ err e)) ⊎ ((a : A) × (r ≡ ok a))
Result-cases (ok a) = inr (a, refl)
Result-cases (err e) = inl (e, refl)

-- A chain that succeeds has succeeded at its first step and then at the rest.
module _ {ℓ κ} {A : Type ℓ} {B : Type κ} where
  pub >>=-eq-ok :
      (first : Result A) (next : A → Result B) {out : B}
      → (first >>= next) ≡ ok out
      → (got : A) × (first ≡ ok got) × (next got ≡ ok out)
  >>=-eq-ok (err message) next h = cc
  >>=-eq-ok (ok got) next h = (got, refl, h)

-- Behind a refusal that did not happen the rest decides.
pub refuse_if-passed {ℓ} :
    {A : Type ℓ} (b : Bool) (m : String) (k : Result A) {a : A}
    → (refuse_if b m >> k) ≡ ok a
    → (b ≡ false) × (k ≡ ok a)
unfolding refuse_if
refuse_if-passed true m k h = cc
refuse_if-passed false m k h = (refl, h)

pub ok-injective_pair {ℓ κ} :
    {A : Type ℓ} {B : Type κ} {a a' : A} {b b' : B}
    → ◌≡◌ {A = Result (A × B)} (ok (a, b)) (ok (a', b'))
    → (a ≡ a') × (b ≡ b')
ok-injective_pair h = (cc, cc)
