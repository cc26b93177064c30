-- ===== src/Publisher/Disk/Keeps.antt =====
-- Actions that only add files, one rule for each way to build an action.
use romd_dat_catalogs.Prelude.{
  String, ◌≡◌, refl, ◌≢◌, ◌∙◌, List, Bool, true, false, none, some, [], ◌∷◌, arith, Result, ok, err,
}
use romd_dat_catalogs.Prelude.Dict.{lookup, insert, lookup-insert}
use romd_dat_catalogs.Publisher.{Bytes}
use romd_dat_catalogs.Publisher.Disk.{
  Disk, Io, pure, lift, inspect, ◌>>=◌, continue, write_with, atomic_write,
}

-- Every file stays as it was, and `current.json` is neither written nor made.
pub record Extends (d d' : Disk) : Type 0 where
  pub kept : (p : String) (b : Bytes) → lookup p d.files ≡ some b → lookup p d'.files ≡ some b
  pub current : lookup "current.json" d'.files ≡ lookup "current.json" d.files
  pub readable : d'.unreadable ≡ d.unreadable

pub Extends-refl : (d : Disk) → Extends d d
Extends-refl d = record { kept = λ p b h. h; current = refl; readable = refl }

pub Extends-trans : {d d' d'' : Disk} → Extends d d' → Extends d' d'' → Extends d d''
Extends-trans g h = record {
  kept = λ p b e. h.kept p b (g.kept p b e);
  current = h.current ∙ g.current;
  readable = h.readable ∙ g.readable;
}

pub record Keeps {ℓ} {A : Type ℓ} (m : Io A) : Type ℓ where
  pub at : (d : Disk) → Extends d (m d).1

module _ {ℓ} {A : Type ℓ} where
  pub Keeps-pure : (a : A) → Keeps (pure a)
  unfolding pure
  Keeps-pure a = record { at = Extends-refl }

  pub Keeps-lift : (r : Result A) → Keeps (lift r)
  unfolding lift
  Keeps-lift r = record { at = Extends-refl }

  pub Keeps-inspect : (f : Disk → Result A) → Keeps (inspect f)
  unfolding inspect
  Keeps-inspect f = record { at = Extends-refl }

module _ {ℓ} {A B : Type ℓ} where
  continue-Extends :
      (d : Disk) (r : Result A) (d' : Disk) (f : A → Io B)
      → Extends d d'
      → ((a : A) → Keeps (f a))
      → Extends d (continue (r, d') f).1
  continue-Extends d (ok a) d' f h k = Extends-trans h ((k a).at d')
  continue-Extends d (err e) d' f h k = h

  pub Keeps-bind : (m : Io A) (f : A → Io B) → Keeps m → ((a : A) → Keeps (f a)) → Keeps (m >>= f)
  unfolding ◌>>=◌
  Keeps-bind m f h k = record {
    at = λ d. let (r, d') = m d in continue-Extends d r d' f (h.at d) k;
  }

module _ {ℓ} {A B : Type ℓ} where
  -- The same from one disk only.
  pub bind-Extends :
      (m : Io A) (f : A → Io B) (d : Disk)
      → Extends d (m d).1
      → ((a : A) → Keeps (f a))
      → Extends d ((m >>= f) d).1
  unfolding ◌>>=◌
  bind-Extends m f d h k = let (r, d') = m d in continue-Extends d r d' f h k

pub ruleset keeps_rules = (Keeps-pure, Keeps-lift, Keeps-inspect, Keeps-bind)

module _ {ℓ} {A B : Type ℓ} where
  continue-eq-ok :
      (r : Result A) (d₁ : Disk) (f : A → Io B) {b : B} {d' : Disk}
      → continue (r, d₁) f ≡ (ok b, d')
      → (a : A) × (r ≡ ok a) × (f a d₁ ≡ (ok b, d'))
  continue-eq-ok (ok a) d₁ f h = (a, refl, h)
  continue-eq-ok (err e) d₁ f h = cc

  -- Inversion of an action that succeeds.
  pub bind-eq-ok :
      (m : Io A) (f : A → Io B) (d : Disk) {b : B} {d' : Disk}
      → (m >>= f) d ≡ (ok b, d')
      → (a : A) × (d₁ : Disk) × (m d ≡ (ok a, d₁)) × (f a d₁ ≡ (ok b, d'))
  unfolding ◌>>=◌
  bind-eq-ok m f d h =
      let (a, e, h') = continue-eq-ok (m d).0 (m d).1 f h in (a, (m d).1, (λ i. (e i, (m d).1)), h')

module _ {ℓ} {A B : Type ℓ} where
  -- The same where the first action changes no file.
  pub lift-bind-eq-ok :
      (r : Result A) (f : A → Io B) (d : Disk) {b : B} {d' : Disk}
      → (lift r >>= f) d ≡ (ok b, d')
      → (a : A) × (r ≡ ok a) × (f a d ≡ (ok b, d'))
  unfolding ◌>>=◌ lift
  lift-bind-eq-ok r f d h = continue-eq-ok r d f h

  pub inspect-bind-eq-ok :
      (g : Disk → Result A) (f : A → Io B) (d : Disk) {b : B} {d' : Disk}
      → (inspect g >>= f) d ≡ (ok b, d')
      → (a : A) × (g d ≡ ok a) × (f a d ≡ (ok b, d'))
  unfolding ◌>>=◌ inspect
  inspect-bind-eq-ok g f d h = continue-eq-ok (g d) d f h

write_with-Extends :
    (faults : List Bool) (name : String) (b : Bytes) (d : Disk)
    → lookup name d.files ≡ none
    → name ≢ "current.json"
    → Extends d (write_with faults name b d).1
unfolding write_with
write_with-Extends [] name b d new other = record {
  kept = λ p c h. ground (arith, lookup-insert p name b d.files);
  current = ground (arith, lookup-insert "current.json" name b d.files);
  readable = refl;
}
write_with-Extends (true ∷ faults) name b d new other = record {
  kept = λ p c h. h;
  current = refl;
  readable = refl;
}
write_with-Extends (false ∷ faults) name b d new other = record {
  kept = λ p c h. ground (arith, lookup-insert p name b d.files);
  current = ground (arith, lookup-insert "current.json" name b d.files);
  readable = refl;
}

-- A new file of another name may be written.
pub atomic_write-Extends :
    (name : String) (b : Bytes) (d : Disk)
    → lookup name d.files ≡ none
    → name ≢ "current.json"
    → Extends d (atomic_write name b d).1
unfolding atomic_write
atomic_write-Extends name b d new other = write_with-Extends d.write_faults name b d new other

write_with-eq-ok :
    (faults : List Bool) (name : String) (b : Bytes) (d d' : Disk) {u : Unit {0}}
    → write_with faults name b d ≡ (ok u, d')
    → (d'.files ≡ insert name b d.files) × (d'.unreadable ≡ d.unreadable)
unfolding write_with
write_with-eq-ok [] name b d d' e = (ground arith, ground arith)
write_with-eq-ok (true ∷ faults) name b d d' e = absurd (ground arith)
write_with-eq-ok (false ∷ faults) name b d d' e = (ground arith, ground arith)

-- A write that succeeds puts the file there, and changes no other.
pub atomic_write-eq-ok :
    (name : String) (b : Bytes) (d d' : Disk) {u : Unit {0}}
    → atomic_write name b d ≡ (ok u, d')
    → (d'.files ≡ insert name b d.files) × (d'.unreadable ≡ d.unreadable)
unfolding atomic_write
atomic_write-eq-ok name b d d' e = write_with-eq-ok d.write_faults name b d d' e

write_with-eq-err :
    (faults : List Bool) (name : String) (b : Bytes) (d d' : Disk) {m : String}
    → write_with faults name b d ≡ (err m, d')
    → d'.files ≡ d.files
unfolding write_with
write_with-eq-err [] name b d d' e = absurd (ground arith)
write_with-eq-err (true ∷ faults) name b d d' e = ground arith
write_with-eq-err (false ∷ faults) name b d d' e = absurd (ground arith)

-- A write that fails changes no file.
pub atomic_write-eq-err :
    (name : String) (b : Bytes) (d d' : Disk) {m : String}
    → atomic_write name b d ≡ (err m, d')
    → d'.files ≡ d.files
unfolding atomic_write
atomic_write-eq-err name b d d' e = write_with-eq-err d.write_faults name b d d' e
