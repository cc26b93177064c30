-- ===== src/NoIntro/Forms.antt =====
-- internal/nointro/forms.go: the form that selects an export, and the form that downloads it. Each
pub mod Prepare
pub mod Download
-- entry of a `url.Values` here has one value.
use romd_dat_catalogs.Prelude.{
  ℕ, suc, ◌+◌, String, Bool, true, false, not, ◌&&◌, ◌||◌, Option, none, some, List, [], ◌∷◌, any,
  all, length, if◌then◌else◌, ◌==◌, contains, string_eq, nat_eq, Result, ok, err, ◌>>=◌, ◌>>◌,
  refuse_if,
}
use Prim.Native.Char.{code}
use romd_dat_catalogs.Prelude.Dict.{Dict, lookup, insert, remove}
use romd_dat_catalogs.Prelude.Text.{codes, has_prefix, is_space}
use romd_dat_catalogs.Prelude.Regex.{Regex, one_of, both, times, word, exactly, match_string}
use romd_dat_catalogs.Definitions.{Catalog}
use romd_dat_catalogs.NoIntro.Scan.{forms, inputs, selects, options, drop_until}
use romd_dat_catalogs.NoIntro.Attributes.{Html, attrs, attr, has_attr}

abbrev decimal_digit : Regex
decimal_digit = one_of ((b'0', b'9') ∷ [])

-- `^download_dat_[0-9]{4}-[0-9]{2}-[0-9]{2}$`
unfoldable pub prepare_name : Regex
prepare_name = both (word (codes "download_dat_")) (
    both (times 4 decimal_digit) (
      both (exactly b'-')
        (both (times 2 decimal_digit) (both (exactly b'-') (times 2 decimal_digit)))))

-- `^[0-9a-f]{32}$`
unfoldable pub download_name : Regex
download_name = times 32 (one_of ((b'0', b'9') ∷ (b'a', b'f') ∷ []))

abbrev pub prepare_error : String
prepare_error = "unrecognized standard DAT form"

abbrev pub download_error : String
download_error = "unrecognized download form"

-- `if err != nil { return nil, bad }`
abbrev pub or_bad {ℓ} : {A : Type ℓ} → String → Result A → Result A
or_bad bad (ok a) = ok a
or_bad bad (err e) = err bad

unfoldable pub complete_selection : Dict String
complete_selection =
    ("format", "0")
    ∷ ("collection", "0")
    ∷ ("naming", "0")
    ∷ ("inc_bios", "1")
    ∷ ("release_1", "1")
    ∷ ("release_2", "1")
    ∷ ("license_1", "1")
    ∷ ("license_2", "1")
    ∷ ("license_0", "1")
    ∷ ("lifespan_1", "1")
    ∷ ("lifespan_2", "0")
    ∷ ("inc_adult", "1")
    ∷ ("storage_1", "1")
    ∷ ("storage_2", "1")
    ∷ ("inc_nodump", "1")
    ∷ ("special1_filter", "all_specials1")
    ∷ ("special2_filter", "all_specials2")
    ∷ ("language_filter", "all_languages")
    ∷ ("region_filter", "all_regions")
    ∷ []

unfoldable pub when : Bool → (Dict String → Dict String) → Dict String → Dict String
when b change values = if b then change values else values

abbrev remove_each : List String → Dict String → Dict String
remove_each [] values = values
remove_each (name ∷ rest) values = remove_each rest (remove name values)

-- The reviewed controls of the systems, in the order of the source's statements.
unfoldable pub early_systems : String → Dict String → Dict String
early_systems id values =
    let v₁ =
      when (id == "47" || id == "45" || id == "32" || id == "24") (remove "collection") values in
    let v₂ =
      when (id == "23")
        (λ v.
          insert "inc_zroms" "1"
            (insert "inc_xroms" "1" (insert "numbered" "0" (remove "inc_adult" v))))
        v₁ in
    let v₃ = when (id == "45") (insert "header_plugin" "0") v₂ in
    when (id == "24") (remove "inc_adult") v₃

unfoldable pub batch_three : String → Dict String → Dict String
batch_three id values =
    when (id == "26" || id == "25" || id == "17" || id == "12")
      (λ v.
        let v₁ = remove "inc_adult" (remove "collection" v) in
        let v₂ = when (not (id == "26")) (remove "inc_nodump") v₁ in
        let v₃ = when (id == "26" || id == "25") (insert "inc_xroms" "1") v₂ in
        when (id == "26") (insert "inc_zroms" "1") v₃)
      values

unfoldable pub decrypted_systems : String → Dict String → Dict String
decrypted_systems id values =
    when (id == "28" || id == "64")
      (λ v.
        let v₁ = remove "inc_adult" (remove "collection" v) in
        let v₂ = insert "inc_zroms" "1" (insert "inc_xroms" "1" (insert "numbered" "0" v₁)) in
        when (id == "64")
          (remove_each ("license_0" ∷ "license_1" ∷ "license_2" ∷ "lifespan_1" ∷ "lifespan_2" ∷ []))
          v₂)
      values

-- What is asked for of a system, before the controls are read.
unfoldable pub base_values : String → Dict String
unfolding complete_selection early_systems batch_three decrypted_systems when remove insert
    string_eq
base_values id =
    when (id == "24") (remove "inc_nodump")
      (decrypted_systems id (batch_three id (early_systems id complete_selection)))

-- `strings.TrimSpace`
abbrev is_empty : String → Bool
is_empty String.[] = true
is_empty (String.◌∷◌ c s) = false

trim_right : String → String
trim_right String.[] = ""
trim_right (String.◌∷◌ c s) =
    let rest = trim_right s in if is_space (code c) && is_empty rest then "" else String.◌∷◌ c rest

unfoldable pub trim_space : String → String
unfolding trim_right is_space drop_until
trim_space s = trim_right (drop_until (λ c. not (is_space c)) s)

-- `strings.TrimSuffix`
unfoldable pub trim_suffix : String → String → String
trim_suffix suffix String.[] = ""
trim_suffix suffix (String.◌∷◌ c s) =
    let rest = trim_suffix suffix s in if String.◌∷◌ c s == suffix then "" else String.◌∷◌ c rest

unfoldable pub selector_name : Catalog → String
unfolding trim_suffix string_eq
selector_name c =
    let id = c.provider_system_id in
    let name = c.expected_name in
    if (id == "28" && name == "Nintendo - Nintendo DS (Decrypted)")
      || (id == "64" && name == "Nintendo - Nintendo 3DS (Decrypted)")
    then trim_suffix " (Decrypted)" name
    else if id == "45" && name == "Nintendo - Nintendo Entertainment System (Headered)"
    then "Nintendo - Nintendo Entertainment System"
    else if id == "24" && name == "Nintendo - Nintendo 64 (BigEndian)"
    then "Nintendo - Nintendo 64"
    else name
