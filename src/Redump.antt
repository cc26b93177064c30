-- ===== src/Redump.antt =====
-- internal/redump/adapter.go: the reviewed catalogs, their check, and the provider's retry time.
-- A time is its nanoseconds from the start of year 1, which is Go's zero time.
pub mod Retry
pub mod Adapter
pub mod State
pub mod Custody
pub mod Scheduler
use romd_dat_catalogs.Prelude.{
  ℕ, zero, suc, ◌+◌, String, Bool, true, false, not, ◌||◌, List, [], ◌∷◌, length, ltb,
  if◌then◌else◌, ◌==◌, contains, string_eq, nat_eq, Eq, Result, ok, err,
}
use romd_dat_catalogs.Prelude.Text.{codes, is_blank, text_lt}
use romd_dat_catalogs.Prelude.Regex.{Regex, both, one_of, plus, star, word, exactly, match_string}

pub record Catalog : Type 0 where
  pub id : String
  pub system : String
  pub expected_name : String
  pub platform : String
  pub representation : String
  pub policy_version : String
  pub min_games : ℕ
  pub min_roms : ℕ

unfoldable pub Catalog-discrete : Discrete Catalog
Catalog-discrete = hlevel (string_eq.dec, nat_eq.dec)

unfoldable pub Registry-discrete : Discrete (List Catalog)
Registry-discrete = hlevel (Catalog-discrete)

instance abbrev pub registry_eq : Eq (List Catalog)
registry_eq = record { dec = Registry-discrete }

abbrev pub max_catalogs : ℕ
max_catalogs = 25

abbrev alnum : Regex
alnum = one_of ((b'a', b'z') ∷ (b'0', b'9') ∷ [])

-- `^[a-z0-9]+(?:-[a-z0-9]+)*$`
unfoldable pub system_id : Regex
system_id = both (plus alnum) (star (both (exactly b'-') (plus alnum)))

-- `^redump/[a-z0-9]+(?:[/-][a-z0-9]+)*$`
unfoldable pub catalog_id : Regex
catalog_id =
    both (word (codes "redump/"))
      (both (plus alnum) (star (both (one_of ((b'/', b'/') ∷ (b'-', b'-') ∷ [])) (plus alnum))))

unfoldable pub bad_catalog : Catalog → Bool
bad_catalog c =
    not (match_string catalog_id c.id)
    || not (match_string system_id c.system)
    || is_blank c.expected_name
    || is_blank c.platform
    || is_blank c.representation
    || is_blank c.policy_version
    || ltb c.min_games 1
    || ltb c.min_roms 1

-- The loop of `validateCatalogs`.
unfoldable pub check_each : List String → List String → List Catalog → Result (Unit {0})
unfolding bad_catalog
check_each seen systems [] = ok tt
check_each seen systems (c ∷ rest) =
    let later = check_each (c.id ∷ seen) (c.system ∷ systems) rest in
    if bad_catalog c || contains seen c.id || contains systems c.system
    then err "invalid or duplicate reviewed catalog identity"
    else later

-- `validateCatalogs`
unfoldable pub validate_catalogs : List Catalog → Result (Unit {0})
unfolding check_each
validate_catalogs catalogs =
    if length catalogs == 0 || ltb max_catalogs (length catalogs)
    then err "catalog count must be 1..25"
    else check_each [] [] catalogs

unfoldable pub insert_catalog : Catalog → List Catalog → List Catalog
insert_catalog c [] = c ∷ []
insert_catalog c (b ∷ rest) = if text_lt b.id c.id then b ∷ insert_catalog c rest else c ∷ b ∷ rest

-- `canonical`: sorted by identifier.
unfoldable pub canonical : List Catalog → List Catalog
unfolding insert_catalog
canonical [] = []
canonical (c ∷ rest) = insert_catalog c (canonical rest)
