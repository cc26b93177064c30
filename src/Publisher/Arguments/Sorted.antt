-- ===== src/Publisher/Arguments/Sorted.antt =====
-- Sorting keeps the attempts.
use romd_dat_catalogs.Prelude.{
  String, ◌≡◌, refl, Bool, ◌||◌, List, [], ◌∷◌, arith, ◌==◌, string_eq, any,
}
use romd_dat_catalogs.Publisher.{Attempt}
use romd_dat_catalogs.Publisher.Arguments.{insert_attempt, sort_attempts}

-- Some attempt is of the catalog.
abbrev pub attempts_on : String → List Attempt → Bool
attempts_on j = any (λ a. j == a.catalog_id)

attempts_on-insert_attempt :
    (j : String) (a : Attempt) (attempts : List Attempt)
    → attempts_on j (insert_attempt a attempts) ≡ (j == a.catalog_id || attempts_on j attempts)
unfolding insert_attempt
attempts_on-insert_attempt j a [] = refl
attempts_on-insert_attempt j a (b ∷ rest) = ground (arith, attempts_on-insert_attempt j a rest)

-- Sorting the attempts neither loses a catalog nor adds one.
pub attempts_on-sort_attempts :
    (j : String) (attempts : List Attempt)
    → attempts_on j (sort_attempts attempts) ≡ attempts_on j attempts
unfolding sort_attempts
attempts_on-sort_attempts j [] = refl
attempts_on-sort_attempts j (a ∷ rest) =
    ground
      (arith, attempts_on-insert_attempt j a (sort_attempts rest), attempts_on-sort_attempts j rest)
