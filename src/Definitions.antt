-- ===== src/Definitions.antt =====
-- internal/definitions/definitions.go: the reviewed registry of catalogs. A map is its entries, in
-- the order in which the loop meets them; a nil slice or map that a check tells from an empty one
-- is `none`. The lower case of a text is a parameter, `strings.ToLower`.
pub mod Seeds
pub mod Unique
pub mod Parse
pub mod Source
pub mod Validate
use romd_dat_catalogs.Prelude.{
  ℕ, String, ◌<>◌, Bool, true, false, not, ◌&&◌, ◌||◌, Option, none, some, List, [], ◌∷◌, any,
  length, ltb, leb, if◌then◌else◌, ◌==◌, contains, string_eq, nat_eq, Result, ok, err, ◌>>=◌, ◌>>◌,
  refuse_if,
}
use romd_dat_catalogs.Prelude.Dict.{Dict, lookup, insert}
use romd_dat_catalogs.Prelude.Text.{codes, bytes, is_trimmed, is_control}
use romd_dat_catalogs.Prelude.Regex.{Regex, both, one_of, plus, star, up_to, exactly, match_string}

pub data ℤ : Type 0 where
  pos : ℕ → ℤ
  negsuc : ℕ → ℤ

pub record System : Type 0 where
  pub name : String
  pub manufacturer_ids : Option (List String)
  pub aliases : Option (List String)
  pub provider_mappings : Option (Dict String)

pub record Region : Type 0 where
  pub name : String
  pub sort_order : ℤ
  pub aliases : Option (List String)

pub record Language : Type 0 where
  pub name : String
  pub code : String
  pub sort_order : ℤ
  pub aliases : Option (List String)

pub record Company : Type 0 where
  pub name : String
  pub aliases : Option (List String)

-- A count below 0 is refused as 0 is.
pub record Catalog : Type 0 where
  pub system_id : String
  pub provider : String
  pub provider_system_id : String
  pub representation : String
  pub expected_name : String
  pub minimum_games : ℕ
  pub minimum_roms : ℕ

pub record Registry : Type 0 where
  pub regions : Option (Dict Region)
  pub languages : Option (Dict Language)
  pub companies : Dict Company
  pub schema_version : ℕ
  pub systems : Dict System
  pub catalogs : Dict Catalog

abbrev word_re : Regex
word_re = one_of ((b'a', b'z') ∷ (b'0', b'9') ∷ [])

-- `^[1-9][0-9]{0,5}$`
unfoldable pub no_intro_system_id : Regex
no_intro_system_id = both (one_of ((b'1', b'9') ∷ [])) (up_to 5 (one_of ((b'0', b'9') ∷ [])))

-- `^[a-z0-9]+(-[a-z0-9]+)*$`
unfoldable pub id_pattern : Regex
id_pattern = both (plus word_re) (star (both (exactly b'-') (plus word_re)))

-- `label`
unfoldable pub label : String → Bool
label s = ltb 0 (bytes s) && leb (bytes s) 200 && is_trimmed s && not (any is_control (codes s))

abbrev pub entries {ℓ} : {V : Type ℓ} → Option (Dict V) → Dict V
entries none = []
entries (some d) = d

abbrev pub is_nil {ℓ} : {A : Type ℓ} → Option A → Bool
is_nil none = true
is_nil (some a) = false

abbrev pub items : Option (List String) → List String
items none = []
items (some l) = l

abbrev pub has_key {ℓ} : {V : Type ℓ} → String → Dict V → Bool
has_key k d = not (is_nil (lookup k d))

abbrev pub catalog_key : Catalog → String
catalog_key c = c.provider <> ("/" <> (c.system_id <> ("/" <> c.representation)))

abbrev pub mapping_key : Catalog → String
mapping_key c = c.provider <> ("/" <> (c.provider_system_id <> ("/" <> c.representation)))

unfoldable pub valid_provider : Catalog → Bool
valid_provider c =
    (c.provider == "redump" && c.representation == "discs")
    || (c.provider == "no-intro"
        && c.representation == "standard"
        && match_string no_intro_system_id c.provider_system_id)

unfoldable pub bad_catalog : Catalog → Bool
bad_catalog c =
    not (valid_provider c)
    || not (match_string id_pattern c.provider_system_id)
    || ltb 64 (bytes c.provider_system_id)
    || not (label c.expected_name)
    || ltb c.minimum_games 1
    || ltb c.minimum_roms 1

-- The loop of `validateCatalogs`; `seen` holds the provider mappings so far.
unfoldable pub check_catalogs : Registry → List String → Dict Catalog → Result (Unit {0})
check_catalogs r seen [] = ok tt
check_catalogs r seen ((id, c) ∷ rest) = do
  refuse_if (not (r.schema_version == 3) && not (has_key c.system_id r.systems))
      "unknown system for catalog %q"
  refuse_if (not (match_string id_pattern c.system_id)) "invalid system key"
  refuse_if (bad_catalog c) "invalid catalog %q"
  refuse_if (not (id == catalog_key c)) "catalog ID must match provider/system/representation: %q"
  refuse_if (contains seen (mapping_key c)) "conflicting provider mapping %q"
  check_catalogs r (mapping_key c ∷ seen) rest

unfoldable pub validate_catalogs : Registry → Result (Unit {0})
unfolding check_catalogs
validate_catalogs r = check_catalogs r [] r.catalogs
