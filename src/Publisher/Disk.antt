-- ===== src/Publisher/Disk.antt =====
-- The publication directory: its files, and the errors that reading and writing may meet. A write
-- is a temporary file renamed into place, so it happens whole or not at all.
pub mod Keeps
use romd_dat_catalogs.Prelude.{
  ℕ, String, Bool, true, false, Option, none, some, List, [], ◌∷◌, length, ltb, if◌then◌else◌,
  Result, ok, err, ◌≡◌, refl,
}
use romd_dat_catalogs.Prelude.Dict.{Dict, lookup, insert}
use romd_dat_catalogs.Publisher.{Bytes}

-- `write_faults` tells of each coming write whether it fails; behind its end none does.
pub record Disk : Type 0 where
  pub files : Dict Bytes
  pub unreadable : String → Bool
  pub write_faults : List Bool

pub data Load : Type 0 where
  missing : Load
  failed : String → Load
  loaded : Bytes → Load

-- `readFile`
unfoldable pub read_file : Disk → String → ℕ → Load
read_file d name limit = elim (lookup name d.files) [
  | none ↦ missing
  | some b ↦
      if d.unreadable name
      then failed "io failure"
      else if ltb limit (length b)
      then failed "size_limit"
      else loaded b
]

abbrev pub Io {ℓ} : Type ℓ → Type ℓ
Io A = Disk → Result A × Disk

module _ {ℓ} {A : Type ℓ} where
  unfoldable pub pure : A → Io A
  pure a d = (ok a, d)

  unfoldable pub lift : Result A → Io A
  lift r d = (r, d)

  -- A result that depends on the files and changes none.
  unfoldable pub inspect : (Disk → Result A) → Io A
  inspect f d = (f d, d)

module _ {ℓ κ} {A : Type ℓ} {B : Type κ} where
  abbrev pub continue : Result A × Disk → (A → Disk → Result B × Disk) → Result B × Disk
  continue (ok a, d) f = f a d
  continue (err e, d) f = (err e, d)

module _ {ℓ} {A B : Type ℓ} where
  infixl 5 ◌>>=◌
  unfoldable pub ◌>>=◌ : Io A → (A → Io B) → Io B
  ◌>>=◌ m f d = continue (m d) f

module _ {ℓ} {A : Type ℓ} where
  -- `return a, m()`
  abbrev pub returning : Io (Unit {ℓ}) → A → Io A
  returning m a = m >>= λ _. pure a

write_with : List Bool → String → Bytes → Io (Unit {0})
write_with [] name b d = (ok tt, record d { files = insert name b d.files })
write_with (true ∷ faults) name b d = (err "io failure", record d { write_faults = faults })
write_with (false ∷ faults) name b d =
    (ok tt, record d { files = insert name b d.files; write_faults = faults })

-- `atomicWrite`
unfoldable pub atomic_write : String → Bytes → Io (Unit {0})
unfolding write_with
atomic_write name b d = write_with d.write_faults name b d
