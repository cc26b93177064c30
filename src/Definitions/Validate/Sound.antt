-- ===== src/Definitions/Validate/Sound.antt =====
-- What an accepted registry says of each catalog, and what a compatible one keeps.
use romd_dat_catalogs.Prelude.{
  length, ◌≢◌, ◌≤◌, ◌≡◌, refl, ◌∙◌, ap, subst, String, true, false, Option, none, some, List, [],
  ◌∷◌, arith, ◌==◌, contains, string_eq, nat_eq, ok, refuse_if-passed, >>=-eq-ok, if-cases, All,
}
use romd_dat_catalogs.Prelude.Dict.{Dict, lookup}
use romd_dat_catalogs.Prelude.Regex.{match_string}
use romd_dat_catalogs.Definitions.{
  Catalog, Registry, label, id_pattern, valid_provider, bad_catalog, catalog_key, mapping_key,
  check_catalogs, validate_catalogs, has_key,
}
use romd_dat_catalogs.Definitions.Seeds.{validate_seed_data, check_companies, check_systems}
use romd_dat_catalogs.Definitions.Validate.{
  validate, validate_published, validate_seeded, compatible, check_previous, check_seeds_kept,
  check_catalogs_kept, same_identity,
}

-- What the check asks of one entry.
pub record IsReviewed (r : Registry) (id : String) (c : Catalog) : Type 0 where
  pub named : id ≡ catalog_key c
  pub system : match_string id_pattern c.system_id ≡ true
  pub known : (r.schema_version ≢ 3) → has_key c.system_id r.systems ≡ true
  pub provider : valid_provider c ≡ true
  pub labelled : label c.expected_name ≡ true
  pub floors : (1 ≤ c.minimum_games) × (1 ≤ c.minimum_roms)

-- No two entries have the same mapping, and none has one of `seen`.
abbrev pub Unmapped : List String → Dict Catalog → Type 0
Unmapped seen [] = Unit
Unmapped seen ((id, c) ∷ rest) =
    (contains seen (mapping_key c) ≡ false) × Unmapped (mapping_key c ∷ seen) rest

check_catalogs-IsReviewed :
    (r : Registry) (seen : List String) (d : Dict Catalog)
    → check_catalogs r seen d ≡ ok tt
    → All (λ (id, c). IsReviewed r id c) d × Unmapped seen d
unfolding check_catalogs bad_catalog string_eq nat_eq
check_catalogs-IsReviewed r seen [] e = (tt, tt)
check_catalogs-IsReviewed r seen ((id, c) ∷ rest) e =
    let (known, e₁) = refuse_if-passed _ _ _ e in
    let (system, e₂) = refuse_if-passed _ _ _ e₁ in
    let (good, e₃) = refuse_if-passed _ _ _ e₂ in
    let (named, e₄) = refuse_if-passed _ _ _ e₃ in
    let (fresh, e₅) = refuse_if-passed _ _ _ e₄ in
    let (later, unmapped) = check_catalogs-IsReviewed r (mapping_key c ∷ seen) rest e₅ in
    (
      (
        record {
          named = ground (arith, named);
          system = ground (arith, system);
          known = λ seeded. ground (arith, known, seeded);
          provider = ground (arith, good);
          labelled = ground (arith, good);
          floors = (ground (arith, good), ground (arith, good));
        },
        later,
      ),
      (fresh, unmapped),
    )

validate_published-catalogs :
    (r : Registry) → validate_published r ≡ ok tt → validate_catalogs r ≡ ok tt
unfolding validate_published
validate_published-catalogs r e = let (_, e₁) = refuse_if-passed _ _ _ e in e₁

validate_seeded-catalogs :
    (to_lower : String → String) (r : Registry)
    → validate_seeded to_lower r ≡ ok tt
    → validate_catalogs r ≡ ok tt
unfolding validate_seeded
validate_seeded-catalogs to_lower r e =
    let (_, e₁) = refuse_if-passed _ _ _ e in
    let (_, _, e₂) = >>=-eq-ok (validate_seed_data to_lower r) _ e₁ in
    let (_, _, e₃) = >>=-eq-ok (check_companies to_lower r.companies []) _ e₂ in
    let (_, _, e₄) = >>=-eq-ok (check_systems r.companies r.systems) _ e₃ in e₄

validate-catalogs :
    (to_lower : String → String) (r : Registry)
    → validate to_lower r ≡ ok tt
    → validate_catalogs r ≡ ok tt
unfolding validate
validate-catalogs to_lower r =
    if-cases (λ m. m ≡ ok tt → validate_catalogs r ≡ ok tt) (r.schema_version == 3) _ _
      (λ _. validate_published-catalogs r) (λ _. validate_seeded-catalogs to_lower r)

no_entries : {V : Type 0} (d : Dict V) → (length d == 0) ≡ true → d ≡ []
no_entries [] h = refl
no_entries (x ∷ d) h = absurd (ground (arith, h))

published_systems :
    (to_lower : String → String) (r : Registry)
    → r.schema_version ≡ 3
    → validate to_lower r ≡ ok tt
    → r.systems ≡ []
unfolding validate validate_published
published_systems to_lower r third e =
    let is_third : (r.schema_version == 3) ≡ true = ground (arith, third) in
    let (small, _) = refuse_if-passed _ _ _ (rw is_third at e) in
    no_entries r.systems (ground (arith, small))

-- In a registry that passes the check, every catalog stands under the identifier of its provider,
-- system and representation, names a system in the form of an id, a known provider and positive
-- counts, and no two catalogs share a provider's mapping. In the seed schemas 1 and 2 the system
-- is one that the registry lists; a published registry, of schema 3, lists no systems.
pub validate-IsReviewed :
    (to_lower : String → String) (r : Registry)
    → validate to_lower r ≡ ok tt
    → All (λ (id, c). IsReviewed r id c) r.catalogs
      × Unmapped [] r.catalogs
      × (r.schema_version ≡ 3 → r.systems ≡ [])
unfolding validate_catalogs
validate-IsReviewed to_lower r e =
    let (reviewed, unmapped) =
      check_catalogs-IsReviewed r [] r.catalogs (validate-catalogs to_lower r e) in
    (reviewed, unmapped, λ third. published_systems to_lower r third e)

-- Two catalogs of one identity.
pub record IsSame (old c : Catalog) : Type 0 where
  pub system_id : c.system_id ≡ old.system_id
  pub provider : c.provider ≡ old.provider
  pub provider_system_id : c.provider_system_id ≡ old.provider_system_id
  pub representation : c.representation ≡ old.representation
  pub expected_name : c.expected_name ≡ old.expected_name

same_identity-IsSame :
    (o : Option Catalog) (old : Catalog)
    → same_identity o old ≡ true
    → (c : Catalog) × (o ≡ some c) × IsSame old c
unfolding same_identity string_eq
same_identity-IsSame none old e = absurd cc
same_identity-IsSame (some c) old e = (
  c,
  refl,
  record {
    system_id = ground (arith, e);
    provider = ground (arith, e);
    provider_system_id = ground (arith, e);
    representation = ground (arith, e);
    expected_name = ground (arith, e);
  },
)

check_catalogs_kept-lookup :
    (d now : Dict Catalog)
    → check_catalogs_kept d now ≡ ok tt
    → (id : String) (old : Catalog) → lookup id d ≡ some old
    → (c : Catalog) × (lookup id now ≡ some c) × IsSame old c
unfolding check_catalogs_kept lookup
check_catalogs_kept-lookup [] now e id old h = absurd cc
check_catalogs_kept-lookup ((j, v) ∷ d) now e id old h =
    let (same, e₁) = refuse_if-passed _ _ _ e in
    let (c, e₂, s) = same_identity-IsSame (lookup j now) v (ground (arith, same)) in
    elim (string_eq.dec id j) [
      | yes p ↦
          let here : v ≡ old = ground (arith, h, p) in
          (c, ap (λ k. lookup k now) p ∙ e₂, subst (λ v. IsSame v c) here s)
      | no n ↦ check_catalogs_kept-lookup d now e₁ id old (ground (arith, h, n))
    ]

-- A registry that is compatible with the previous one is accepted itself, is not of an older
-- schema, and has every catalog of the previous one, under its identifier and of the same
-- identity.
pub compatible-IsSame :
    (to_lower : String → String) (r previous : Registry)
    → compatible to_lower r (some previous) ≡ ok tt
    → (validate to_lower r ≡ ok tt)
      × (previous.schema_version ≤ r.schema_version)
      × ((id : String) (old : Catalog)
          → lookup id previous.catalogs ≡ some old
          → (c : Catalog) × (lookup id r.catalogs ≡ some c) × IsSame old c)
unfolding compatible check_previous
compatible-IsSame to_lower r previous e =
    let (_, valid, e₁) = >>=-eq-ok (validate to_lower r) _ e in
    let (schema, e₂) = refuse_if-passed _ _ _ e₁ in
    let (_, _, e₃) = >>=-eq-ok (check_seeds_kept r previous) _ e₂ in
    (valid, ground (arith, schema), check_catalogs_kept-lookup previous.catalogs r.catalogs e₃)
