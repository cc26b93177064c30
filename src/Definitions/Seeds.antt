-- ===== src/Definitions/Seeds.antt =====
-- internal/definitions/seed_data.go, and the loops of `Validate` on companies and systems.
use romd_dat_catalogs.Prelude.{
  ℕ, String, ◌<>◌, Bool, true, false, not, ◌&&◌, ◌||◌, Option, none, some, List, [], ◌∷◌, ◌++◌,
  length, ltb, leb, if◌then◌else◌, ◌==◌, contains, string_eq, nat_eq, Result, ok, ◌>>=◌, ◌>>◌,
  refuse_if,
}
use romd_dat_catalogs.Prelude.Dict.{Dict, lookup, insert}
use romd_dat_catalogs.Prelude.Text.{bytes}
use romd_dat_catalogs.Prelude.Regex.{match_string}
use romd_dat_catalogs.Definitions.{
  ℤ, pos, negsuc, System, Region, Language, Company, Registry, id_pattern, label, entries, is_nil,
  items, has_key,
}

-- `validID`
unfoldable pub valid_id : String → Bool
valid_id id = leb (bytes id) 64 && match_string id_pattern id

module _ (to_lower : String → String) where
  -- The aliases of one entry: labels, no two alike.
  unfoldable pub check_aliases : List String → List String → Result (Unit {0})
  check_aliases own [] = ok tt
  check_aliases own (alias ∷ rest) = do
    refuse_if (not (label alias) || contains own (to_lower alias))
        "invalid or duplicate alias for %q"
    check_aliases (to_lower alias ∷ own) rest

  abbrev taken_by : String → Option String → Bool
  taken_by id none = false
  taken_by id (some prior) = not (prior == id)

  -- The tokens of one entry, none of them another entry's.
  unfoldable pub claim : String → List String → Dict String → Result (Dict String)
  claim id [] seen = ok seen
  claim id (token ∷ rest) seen = do
    refuse_if (taken_by id (lookup (to_lower token) seen)) "ambiguous name/alias %q for %q and %q"
    claim id rest (insert (to_lower token) id seen)

  -- `addNames`
  unfoldable pub add_names :
      Dict String → String → String → Option (List String) → List String → Result (Dict String)
  unfolding claim
  add_names seen id name aliases tokens = do
    refuse_if
        (not (valid_id id)
          || not (label name)
          || is_nil aliases
          || ltb 100 (length (items aliases)))
        "invalid names for %q"
    check_aliases [] (items aliases)
    claim id ((name ∷ items aliases) ++ tokens) seen

  -- The provider mappings of one system.
  unfoldable pub check_mappings : String → Dict String → Dict String → Result (Dict String)
  check_mappings id [] mappings = ok mappings
  check_mappings id ((provider, value) ∷ rest) mappings = do
    refuse_if (not (valid_id provider) || not (label value)) "invalid provider mapping for %q"
    refuse_if (has_key (provider <> ("/" <> to_lower value)) mappings)
        "ambiguous provider mapping for %q and %q"
    check_mappings id rest (insert (provider <> ("/" <> to_lower value)) id mappings)

  unfoldable pub check_system_names : Dict System → Dict String → Dict String → Result (Unit {0})
  check_system_names [] seen mappings = ok tt
  check_system_names ((id, s) ∷ rest) seen mappings = do
    seen' ← add_names seen id s.name s.aliases (id ∷ [])
    refuse_if (is_nil s.provider_mappings || ltb 100 (length (entries s.provider_mappings)))
        "invalid provider mappings for %q"
    mappings' ← check_mappings id (entries s.provider_mappings) mappings
    check_system_names rest seen' mappings'

  abbrev bad_order : ℤ → Bool
  bad_order (pos n) = ltb 100000 n
  bad_order (negsuc n) = true

  unfoldable pub check_regions : Dict Region → Dict String → Result (Unit {0})
  check_regions [] seen = ok tt
  check_regions ((id, region) ∷ rest) seen = do
    refuse_if (bad_order region.sort_order) "invalid region sort order for %q"
    seen' ← add_names seen id region.name region.aliases []
    check_regions rest seen'

  unfoldable pub check_languages : Dict Language → Dict String → Result (Unit {0})
  check_languages [] seen = ok tt
  check_languages ((id, language) ∷ rest) seen = do
    refuse_if (not (language.code == id) || bad_order language.sort_order)
        "invalid language code/sort order for %q"
    seen' ← add_names seen id language.name language.aliases (language.code ∷ [])
    check_languages rest seen'

  abbrev is_plain : Dict System → Bool
  is_plain [] = true
  is_plain ((id, s) ∷ rest) = is_nil s.aliases && is_nil s.provider_mappings && is_plain rest

  abbrev bad_size {ℓ} : {V : Type ℓ} → ℕ → Dict V → Bool
  bad_size limit d = length d == 0 || ltb limit (length d)

  -- `validateSeedData`
  unfoldable pub validate_seed_data : Registry → Result (Unit {0})
  unfolding check_system_names check_regions check_languages
  validate_seed_data r =
      if r.schema_version == 1
      then (do
        refuse_if (not (is_nil r.regions) || not (is_nil r.languages))
            "schema 1 cannot contain taxonomy data"
        refuse_if (not (is_plain r.systems)) "schema 1 cannot contain system seed extensions")
      else (do
        refuse_if (bad_size 1000 (entries r.regions) || bad_size 1000 (entries r.languages))
            "missing or oversized taxonomy definitions"
        check_system_names r.systems [] []
        check_regions (entries r.regions) []
        check_languages (entries r.languages) [])

  -- The names of one company, none of them met before.
  unfoldable pub check_company_names : String → List String → Dict String → Result (Dict String)
  check_company_names id [] seen = ok seen
  check_company_names id (name ∷ rest) seen = do
    refuse_if (not (label name)) "invalid company name/alias for %q"
    refuse_if (has_key (to_lower name) seen)
        "duplicate or ambiguous company name/alias for %q and %q"
    check_company_names id rest (insert (to_lower name) id seen)

  unfoldable pub check_companies : Dict Company → Dict String → Result (Unit {0})
  check_companies [] seen = ok tt
  check_companies ((id, c) ∷ rest) seen = do
    refuse_if
        (not (match_string id_pattern id)
          || ltb 64 (bytes id)
          || not (label c.name)
          || is_nil c.aliases
          || ltb 100 (length (items c.aliases)))
        "invalid company %q"
    seen' ← check_company_names id (c.name ∷ items c.aliases) seen
    check_companies rest seen'

-- The manufacturers of one system: known companies, each named once.
unfoldable pub check_manufacturers : Dict Company → List String → List String → Result (Unit {0})
check_manufacturers companies seen [] = ok tt
check_manufacturers companies seen (id ∷ rest) = do
  refuse_if (not (has_key id companies)) "unknown manufacturer %q for system %q"
  refuse_if (contains seen id) "duplicate manufacturer %q for system %q"
  check_manufacturers companies (id ∷ seen) rest

unfoldable pub check_systems : Dict Company → Dict System → Result (Unit {0})
check_systems companies [] = ok tt
check_systems companies ((id, s) ∷ rest) = do
  refuse_if
      (not (match_string id_pattern id)
        || ltb 64 (bytes id)
        || not (label s.name)
        || is_nil s.manufacturer_ids)
      "invalid system %q"
  check_manufacturers companies [] (items s.manufacturer_ids)
  check_systems companies rest
