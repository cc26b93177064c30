-- ===== src/NoIntro/Forms/Download.antt =====
-- internal/nointro/forms.go: `downloadForm`.
pub mod Single
use romd_dat_catalogs.Prelude.{
  String, Bool, not, ◌&&◌, ◌||◌, List, [], ◌∷◌, length, if◌then◌else◌, ◌==◌, string_eq, nat_eq,
  Result, ok, ◌>>=◌, ◌>>◌, refuse_if,
}
use romd_dat_catalogs.Prelude.Dict.{Dict}
use romd_dat_catalogs.Prelude.Regex.{match_string}
use romd_dat_catalogs.NoIntro.Scan.{forms, inputs}
use romd_dat_catalogs.NoIntro.Attributes.{Html, attrs, attr, has_attr}
use romd_dat_catalogs.NoIntro.Forms.{download_name, download_error, or_bad}

abbrev bad : String
bad = download_error

-- A control that the loop passes over.
unfoldable pub is_other : Dict String → Bool
unfolding string_eq
is_other control =
    not (attr "value" control == "Download!!") || attr "style" control == "display:none;"

unfoldable pub is_button : Dict String → Dict String → List String → Bool
unfolding string_eq nat_eq match_string download_name
is_button form control tags =
    attr "style" control == ""
    && attr "type" control == "submit"
    && match_string download_name (attr "name" control)
    && attr "method" form == "post"
    && attr "action" form == ""
    && length tags == 1

-- The one download control, if no other was selected before.
unfoldable pub select : Dict String → Dict String → List String → String → Result String
unfolding string_eq
select form control tags selected = do
  refuse_if (has_attr "disabled" control) bad
  refuse_if (has_attr "hidden" control) bad
  refuse_if (not (is_button form control tags) || not (selected == "")) bad
  ok (attr "name" control)

-- The inner loop; `tags` are all the inputs of the form.
unfoldable pub scan_inputs : Html → Dict String → List String → List String → String → Result String
unfolding is_other
scan_inputs html form tags [] selected = ok selected
scan_inputs html form tags (raw ∷ rest) selected = do
  control ← or_bad bad (attrs html raw)
  selected' ← if is_other control then ok selected else select form control tags selected
  scan_inputs html form tags rest selected'

unfoldable pub scan_forms : Html → List (String × String) → String → Result String
unfolding scan_inputs
scan_forms html [] selected = ok selected
scan_forms html ((raw, body) ∷ rest) selected = do
  form ← or_bad bad (attrs html raw)
  selected' ← scan_inputs html form (inputs body) (inputs body) selected
  scan_forms html rest selected'

unfoldable pub download_form : Html → String → Result (Dict String)
unfolding scan_forms
download_form html page = do
  selected ← scan_forms html (forms page) ""
  refuse_if (selected == "") bad
  ok ((selected, "Download!!") ∷ [])
