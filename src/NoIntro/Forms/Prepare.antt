-- ===== src/NoIntro/Forms/Prepare.antt =====
-- internal/nointro/forms.go: `prepareForm`, loop by loop.
pub mod Base
pub mod Asked
pub mod Counted
pub mod Exact
use romd_dat_catalogs.Prelude.{
  ℕ, suc, String, Bool, true, false, not, ◌&&◌, ◌||◌, Option, none, some, List, [], ◌∷◌, any,
  if◌then◌else◌, ◌==◌, string_eq, nat_eq, Result, ok, err, ◌>>=◌, ◌>>◌, refuse_if,
}
use romd_dat_catalogs.Prelude.Dict.{Dict, lookup, insert}
use romd_dat_catalogs.Prelude.Text.{codes, has_prefix}
use romd_dat_catalogs.Prelude.Regex.{match_string}
use romd_dat_catalogs.Definitions.{Catalog}
use romd_dat_catalogs.NoIntro.Scan.{forms, inputs, selects, options}
use romd_dat_catalogs.NoIntro.Attributes.{Html, attrs, attr, has_attr}
use romd_dat_catalogs.NoIntro.Forms.{
  prepare_name, prepare_error, or_bad, base_values, trim_space, selector_name,
}

abbrev bad : String
bad = prepare_error

abbrev posts_here : Dict String → Bool
posts_here a = attr "method" a == "post" && attr "action" a == ""

abbrev main_form_step : String → Dict String → String × ℕ → Result (String × ℕ)
main_form_step body a (content, count) =
    if attr "name" a == "main_form"
    then (if posts_here a then ok (body, suc count) else err bad)
    else ok (content, count)

-- The loop over the forms, with `content` and `count`.
unfoldable pub main_form : Html → List (String × String) → String × ℕ → Result (String × ℕ)
unfolding string_eq
main_form html [] found = ok found
main_form html ((raw, body) ∷ rest) found =
    or_bad bad (attrs html raw) >>= (λ a. main_form_step body a found) >>= main_form html rest

unfoldable pub check_selects : Html → List String → Result (Unit {0})
unfolding string_eq
check_selects html [] = ok tt
check_selects html (raw ∷ rest) = do
  a ← or_bad bad (attrs html raw)
  refuse_if (not (attr "name" a == "system_selection") && not (attr "name" a == "sys_list_order"))
      bad
  check_selects html rest

unfoldable pub is_chosen_system : Html → Catalog → Dict String → String → Bool
unfolding selector_name trim_space string_eq
is_chosen_system html c a label =
    has_attr "selected" a
    && attr "value" a == c.provider_system_id
    && trim_space (html.unescape label) == selector_name c

-- The loop over the options, with `identity`.
unfoldable pub identify : Html → Catalog → List (String × String) → Bool → Result Bool
identify html c [] identity = ok identity
identify html c ((raw, label) ∷ rest) identity = do
  a ← or_bad bad (attrs html raw)
  identify html c rest (identity || is_chosen_system html c a label)

-- The variables of the loop over the inputs. A name that `found` lacks reads as 0.
pub record Controls : Type 0 where
  pub values : Dict String
  pub found : Dict ℕ
  pub submit : String

abbrev pub or_zero : Option ℕ → ℕ
or_zero none = 0
or_zero (some n) = n

unfoldable pub times_found : String → Dict ℕ → ℕ
times_found name found = or_zero (lookup name found)

-- A control that some forms offer, and that is asked for where it is.
unfoldable pub is_optional : String → String → Bool
unfolding string_eq
is_optional id name = name == "inc_mia" || (id == "24" && name == "inc_nodump")

unfoldable pub is_prepare : Dict String → Bool
unfolding prepare_name match_string string_eq
is_prepare a =
    match_string prepare_name (attr "name" a)
    && attr "type" a == "submit"
    && attr "value" a == "Prepare"

abbrev custom_prefixes : List String
custom_prefixes = "specials1[" ∷ "specials2[" ∷ "languages[" ∷ "regions[" ∷ []

unfoldable pub is_custom : Dict String → Bool
unfolding string_eq has_prefix
is_custom a =
    attr "type" a == "checkbox"
    && any (λ p. has_prefix (codes (attr "name" a)) (codes p)) custom_prefixes

unfoldable pub take_wanted : Option String → Dict String → Controls → Result Controls
unfolding string_eq
take_wanted none a st = if is_custom a then ok st else err bad
take_wanted (some want) a st =
    if not (attr "type" a == "radio") && not (attr "type" a == "checkbox")
    then err bad
    else if attr "value" a == want
    then ok (record st {
      found = insert (attr "name" a) (suc (times_found (attr "name" a) st.found)) st.found;
    })
    else ok st

unfoldable pub take_submit : Dict String → Controls → Result Controls
unfolding string_eq
take_submit a st =
    if not (st.submit == "") then err bad else ok (record st { submit = attr "name" a })

unfoldable pub offer : String → Dict String → Controls → Controls
offer id a st =
    if is_optional id (attr "name" a)
    then record st { values = insert (attr "name" a) "1" st.values }
    else st

unfoldable pub take_enabled : Dict String → Controls → Result Controls
take_enabled a st =
    if is_prepare a then take_submit a st else take_wanted (lookup (attr "name" a) st.values) a st

-- One round of the loop over the inputs.
unfoldable pub take_control : Html → String → String → Controls → Result Controls
take_control html id raw st = do
  a ← or_bad bad (attrs html raw)
  refuse_if (has_attr "disabled" a) bad
  refuse_if (has_attr "hidden" a) bad
  take_enabled a (offer id a st)

unfoldable pub take_controls : Html → String → List String → Controls → Result Controls
unfolding take_control
take_controls html id [] st = ok st
take_controls html id (raw ∷ rest) st = take_control html id raw st >>= take_controls html id rest

unfoldable pub each_found_once : Dict ℕ → Dict String → Bool
each_found_once found [] = true
each_found_once found ((name, _) ∷ rest) = times_found name found == 1 && each_found_once found rest

abbrev start_controls : String → Controls
start_controls id = record { values = base_values id; found = []; submit = "" }

-- The inputs of the recognized form, and what comes behind their loop.
unfoldable pub submit_controls : Html → Catalog → String → Result (Dict String)
unfolding inputs take_controls
submit_controls html c content = do
  st ←
      take_controls html c.provider_system_id (inputs content) (start_controls c.provider_system_id)
  refuse_if (st.submit == "" || not (each_found_once st.found st.values)) bad
  ok (insert st.submit "Prepare" st.values)

-- `prepareForm` on the text of a page.
unfoldable pub prepare_form : Html → String → Catalog → Result (Dict String)
unfolding main_form check_selects identify submit_controls
prepare_form html page c = do
  (content, count) ← main_form html (forms page) ("", 0)
  refuse_if (not (count == 1)) bad
  check_selects html (selects content)
  identity ← identify html c (options content) false
  refuse_if (not identity) bad
  submit_controls html c content
