-- ===== src/Definitions/Source/Known.antt =====
-- What the publisher's definitions have come to be when they are loaded.
use romd_dat_catalogs.Prelude.{
  ◌≤◌, ◌≡◌, refl, sym, ◌∙◌, ap, inl, inr, String, true, List, [], ◌∷◌, All, arith, length, contains,
  string_eq, nat_eq, ◌||◌, ok, refuse_if-passed, >>=-eq-ok,
}
use romd_dat_catalogs.Prelude.Dict.{Dict}
use romd_dat_catalogs.Prelude.Regex.{match_string}
use romd_dat_catalogs.Publisher.{Bytes}
use romd_dat_catalogs.Definitions.{Registry, Catalog, id_pattern}
use romd_dat_catalogs.Definitions.Unique.{unique_value}
use romd_dat_catalogs.Definitions.Unique.Json.{Json as Tree, tokens, is_distinct, is_unique}
use romd_dat_catalogs.Definitions.Unique.Decides.{Decides, unique_value-Decides}
use romd_dat_catalogs.Definitions.Validate.{validate}
use romd_dat_catalogs.Definitions.Parse.{
  Json, Folder, max_bytes, read_file, parse, check_tokens, check_shape,
}
use romd_dat_catalogs.Definitions.Source.{
  check_names, check_keys, known_keys, assembled, check_known, parse_known, load_source,
}

check_known-All :
    (known : List String) (d : Dict Catalog)
    → check_known known d ≡ ok tt
    → All (λ e. contains known e.1.system_id ≡ true) d
unfolding check_known
check_known-All known [] h = tt
check_known-All known ((_, c) ∷ rest) h =
    let (good, e) = refuse_if-passed _ _ _ h in
    let here : contains known c.system_id ≡ true = ground (arith, good) in
    (here, check_known-All known rest e)

-- Keys of systems, none twice.
pub record IsKeys (known : List String) : Type 0 where
  pub matched : All (λ k. match_string id_pattern k ≡ true) known
  pub distinct : is_distinct known ≡ true

check_keys-IsKeys :
    (keys known out : List String) → IsKeys known → check_keys known keys ≡ ok out → IsKeys out
unfolding check_keys
check_keys-IsKeys [] known out k h = let same : known ≡ out = cc in rw⁻¹ same k
check_keys-IsKeys (key ∷ keys) known out k h =
    let (good, e) = refuse_if-passed _ _ _ h in
    check_keys-IsKeys keys (key ∷ known) out
      (record {
        matched = (ground (arith, good), k.matched);
        distinct = let d = k.distinct in ground (arith, good, d);
      })
      e

-- What is kept are the given keys beside those known before.
check_keys-contains :
    (keys known out : List String)
    → check_keys known keys ≡ ok out
    → (k : String) → contains out k ≡ (contains keys k || contains known k)
unfolding check_keys
check_keys-contains [] known out h k =
    let same : known ≡ out = cc in ap (λ l. contains l k) (sym same)
check_keys-contains (key ∷ keys) known out h k =
    let (_, e) = refuse_if-passed _ _ _ h in
    let later = check_keys-contains keys (key ∷ known) out e k in ground (arith, later)

-- The keys are those of the exported document, version 1.
pub record IsExported (json : Json) (raw : Bytes) (known : List String) : Type 0 where
  pub keys : List String
  pub exported : json.system_keys raw ≡ ok (1, keys)
  pub members : (k : String) → contains known k ≡ contains keys k
  pub formed : IsKeys known

known_keys-IsExported :
    (json : Json) (raw : Bytes) (known : List String)
    → known_keys json raw ≡ ok known
    → IsExported json raw known
unfolding known_keys
known_keys-IsExported json raw known h =
    let (_, _, e₁) = >>=-eq-ok (unique_value (json.tokens raw)) _ h in
    let ((version, keys), e₅, e₂) = >>=-eq-ok (json.system_keys raw) _ e₁ in
    let (_, e₃) = refuse_if-passed _ _ _ e₂ in
    let (first, e₄) = refuse_if-passed _ _ _ e₃ in
    let one : version ≡ 1 = ground (arith, first) in
    record {
      keys = keys;
      exported = e₅ ∙ ap (λ v. ok (v, keys)) one;
      members = λ k. let m = check_keys-contains keys [] known e₄ k in ground (arith, m);
      formed = check_keys-IsKeys keys [] known (record { matched = tt; distinct = refl }) e₄;
    }

parse-valid :
    (json : Json) (b : Bytes) (r : Registry)
    → parse json b ≡ ok r
    → validate json.to_lower r ≡ ok tt
unfolding parse
parse-valid json b r h =
    let (_, _, e₁) = >>=-eq-ok (check_tokens json b) _ h in
    let (_, _, e₂) = >>=-eq-ok (check_shape json b) _ e₁ in
    let (q, _, e₃) = >>=-eq-ok (json.registry b) _ e₂ in
    let (_, e₄, e₅) = >>=-eq-ok (validate json.to_lower q) _ e₃ in
    let same : q ≡ r = cc in ap (validate json.to_lower) (sym same) ∙ e₄

-- A document that `Parse` accepts is bounded, its registry is one that `Validate` accepts, and when
-- its tokens are those of a JSON value, every object in that value names each key once and none
-- lies deeper than 32.
pub parse-IsUnique :
    (json : Json) (b : Bytes) (r : Registry) (v : Tree)
    → parse json b ≡ ok r
    → json.tokens b ≡ tokens v []
    → (length b ≤ max_bytes) × (validate json.to_lower r ≡ ok tt) × (is_unique 0 v ≡ true)
unfolding parse check_tokens Decides
parse-IsUnique json b r v h t =
    let (_, e₁, e₂) = >>=-eq-ok (check_tokens json b) _ h in
    let (small, e₃) = refuse_if-passed _ _ _ e₁ in
    let (left, e₄, _) = >>=-eq-ok (unique_value (json.tokens b)) _ e₃ in
    (
      ground (arith, small),
      parse-valid json b r h,
      elim (unique_value-Decides v []) [
        | inl (u, _) ↦ u
        | inr (_, m, refused) ↦ absurd (let again = ap unique_value t in cc)
      ],
    )

-- When `LoadSource` returns a registry, `Validate` accepts it, and every catalog in it is of a
-- system among the keys that system-keys.json exports in version 1, which have the form of an id
-- and are all distinct.
pub load_source-IsKnown :
    (json : Json) (folder : Folder) (r : Registry)
    → load_source json folder ≡ ok r
    → (validate json.to_lower r ≡ ok tt)
      × (raw : Bytes) × (known : List String) × (read_file json folder "system-keys.json" ≡ ok raw)
      × IsExported json raw known
      × All (λ e. contains known e.1.system_id ≡ true) r.catalogs
unfolding load_source parse_known parse
load_source-IsKnown json folder r h =
    let (entries, _, e₁) = >>=-eq-ok folder.entries _ h in
    let (_, _, e₂) = >>=-eq-ok (check_names entries) _ e₁ in
    let (raw, found, e₃) = >>=-eq-ok (read_file json folder "system-keys.json") _ e₂ in
    let (known, e₄, e₅) = >>=-eq-ok (known_keys json raw) _ e₃ in
    let (catalogs, _, e₆) = >>=-eq-ok (read_file json folder "catalogs.json") _ e₅ in
    let (q, e₇, e₈) = >>=-eq-ok (parse json (assembled catalogs)) _ e₆ in
    let (_, e₉, e₁₀) = >>=-eq-ok (check_known known q.catalogs) _ e₈ in
    let same : q ≡ r = cc in
    let valid = parse-valid json (assembled catalogs) q e₇ in
    rw⁻¹ same (
      valid,
      raw,
      known,
      found,
      known_keys-IsExported json raw known e₄,
      check_known-All known q.catalogs e₉,
    )
