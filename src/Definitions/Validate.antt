-- ===== src/Definitions/Validate.antt =====
-- internal/definitions/definitions.go: `Validate` and `Compatible`.
pub mod Sound
use romd_dat_catalogs.Prelude.{
  ℕ, String, ◌<>◌, Bool, true, false, not, ◌&&◌, ◌||◌, Option, none, some, List, [], ◌∷◌, all,
  length, ltb, if◌then◌else◌, ◌==◌, contains, string_eq, nat_eq, option_eq, Result, ok, err, ◌>>=◌,
  ◌>>◌, refuse_if,
}
use romd_dat_catalogs.Prelude.Dict.{Dict, lookup}
use romd_dat_catalogs.Prelude.Text.{text_lt}
use romd_dat_catalogs.Definitions.{
  System, Catalog, Registry, entries, is_nil, items, has_key, validate_catalogs,
}
use romd_dat_catalogs.Definitions.Seeds.{validate_seed_data, check_companies, check_systems}

abbrev out_of {ℓ} : {A : Type ℓ} → ℕ → List A → Bool
out_of limit l = length l == 0 || ltb limit (length l)

-- A registry of the third schema holds catalogs only.
unfoldable pub validate_published : Registry → Result (Unit {0})
validate_published r = do
  refuse_if
      (out_of 1000 r.catalogs
        || not (length r.systems == 0)
        || not (length r.companies == 0)
        || not (length (entries r.regions) == 0)
        || not (length (entries r.languages) == 0))
      "invalid catalog registry"
  validate_catalogs r

unfoldable pub validate_seeded : (String → String) → Registry → Result (Unit {0})
validate_seeded to_lower r = do
  refuse_if
      ((not (r.schema_version == 1) && not (r.schema_version == 2))
        || out_of 10000 r.companies
        || out_of 1000 r.systems
        || out_of 1000 r.catalogs)
      "unsupported or empty definitions"
  validate_seed_data to_lower r
  check_companies to_lower r.companies []
  check_systems r.companies r.systems
  validate_catalogs r

-- `Validate`, of a registry that is not nil.
unfoldable pub validate : (String → String) → Registry → Result (Unit {0})
validate to_lower r =
    if r.schema_version == 3 then validate_published r else validate_seeded to_lower r

unfoldable pub check_kept : {V W : Type 0} → String → Dict V → Dict W → Result (Unit {0})
check_kept message [] now = ok tt
check_kept message ((id, v) ∷ rest) now = do
  refuse_if (not (has_key id now)) message
  check_kept message rest now

-- `m[provider] != value`: a missing key reads as "".
abbrev reads : String → Dict String → String
reads k d = elim (lookup k d) [ none ↦ "" | some v ↦ v ]

unfoldable pub same_mappings : Dict String → Dict String → Bool
same_mappings [] now = true
same_mappings ((provider, value) ∷ rest) now = reads provider now == value && same_mappings rest now

unfoldable pub insert_text : String → List String → List String
insert_text a [] = a ∷ []
insert_text a (b ∷ rest) = if text_lt b a then b ∷ insert_text a rest else a ∷ b ∷ rest

-- `slices.Sort`
unfoldable pub sort_texts : List String → List String
unfolding insert_text
sort_texts [] = []
sort_texts (a ∷ rest) = insert_text a (sort_texts rest)

-- `slices.Equal`
unfoldable pub same_texts : List String → List String → Bool
same_texts [] [] = true
same_texts [] (y ∷ ys) = false
same_texts (x ∷ xs) [] = false
same_texts (x ∷ xs) (y ∷ ys) = x == y && same_texts xs ys

abbrev found : Option System → System
found none = record { name = ""; manufacturer_ids = none; aliases = none; provider_mappings = none }
found (some s) = s

unfoldable pub check_systems_kept : Dict System → Dict System → Result (Unit {0})
check_systems_kept [] now = ok tt
check_systems_kept ((id, old) ∷ rest) now = do
  let s = found (lookup id now)
  refuse_if (not (has_key id now)) "system %q removed; explicit migration required"
  refuse_if (not (same_mappings (entries old.provider_mappings) (entries s.provider_mappings)))
      "system %q provider mapping changed; explicit migration required"
  refuse_if
      (not (
        same_texts (sort_texts (items old.manufacturer_ids))
          (sort_texts (items s.manufacturer_ids))))
      "system %q manufacturer relationship changed; explicit migration required"
  check_systems_kept rest now

-- The identity of a catalog, of which nothing may change.
unfoldable pub same_identity : Option Catalog → Catalog → Bool
same_identity none old = false
same_identity (some c) old =
    c.system_id == old.system_id
    && c.provider == old.provider
    && c.provider_system_id == old.provider_system_id
    && c.representation == old.representation
    && c.expected_name == old.expected_name

unfoldable pub check_catalogs_kept : Dict Catalog → Dict Catalog → Result (Unit {0})
check_catalogs_kept [] now = ok tt
check_catalogs_kept ((id, old) ∷ rest) now = do
  refuse_if (not (same_identity (lookup id now) old))
      "catalog %q identity changed; explicit migration required"
  check_catalogs_kept rest now

unfoldable pub check_seeds_kept : Registry → Registry → Result (Unit {0})
check_seeds_kept r previous = if r.schema_version == 3 then ok tt else (do
  check_kept "region %q removed; explicit migration required" (entries previous.regions)
      (entries r.regions)
  check_kept "language %q removed; explicit migration required" (entries previous.languages)
      (entries r.languages)
  check_kept "company %q removed; explicit migration required" previous.companies r.companies
  check_systems_kept previous.systems r.systems)

unfoldable pub check_previous : Registry → Registry → Result (Unit {0})
check_previous r previous = do
  refuse_if (ltb r.schema_version previous.schema_version) "reference schema downgrade"
  check_seeds_kept r previous
  check_catalogs_kept previous.catalogs r.catalogs

-- `Compatible`
unfoldable pub compatible : (String → String) → Registry → Option Registry → Result (Unit {0})
unfolding check_previous
compatible to_lower r none = validate to_lower r
compatible to_lower r (some previous) = validate to_lower r >> check_previous r previous
