-- ===== src/NoIntro/Attributes.antt =====
-- internal/nointro/forms.go: the attributes of a tag. `strings.ToLower` and `html.UnescapeString`
-- are parameters.
use romd_dat_catalogs.Prelude.{
  ℕ, String, Bool, true, false, not, ◌||◌, Option, none, some, List, [], ◌∷◌, if◌then◌else◌, ◌==◌,
  ◌>>=◌, string_eq, nat_eq, Result, ok, err,
}
use romd_dat_catalogs.Prelude.Dict.{Dict, lookup, insert}
use romd_dat_catalogs.NoIntro.Scan.{is_gap, take_until, drop_until, matches_in}
use Prim.Native.Char.{code}

pub record Html : Type 0 where
  pub to_lower : String → String
  pub unescape : String → String

-- The four groups of `attributes`; a group that took no part is "".
pub record Groups : Type 0 where
  pub key : String
  pub double_quoted : String
  pub single_quoted : String
  pub bare : String

unfoldable pub ends_key : ℕ → Bool
unfolding is_gap nat_eq
ends_key c = is_gap c || c == b'=' || c == b'/' || c == b'>'

unfoldable pub ends_bare : ℕ → Bool
unfolding is_gap nat_eq
ends_bare c = is_gap c || c == b'>'

abbrev skip_gaps : String → String
skip_gaps = drop_until (λ c. not (is_gap c))

abbrev only_key : String → Groups
only_key key = record { key = key; double_quoted = ""; single_quoted = ""; bare = "" }

abbrev bare_value : String → String → String → Option (Groups × String)
bare_value key value rest =
    if value == "" then none else some (record (only_key key) { bare = value }, rest)

-- `[^"]*"` behind the quote, or the same with the other quote; else the text is taken bare.
abbrev quoted_or : Groups → String → Option (Groups × String) → Option (Groups × String)
quoted_or g String.[] otherwise = otherwise
quoted_or g (String.◌∷◌ c rest) otherwise = some (g, rest)

abbrev exactly : ℕ → ℕ → Bool
exactly a c = c == a

abbrev value_at : String → String → Option (Groups × String)
value_at key String.[] = none
value_at key (String.◌∷◌ c s) =
    let plain =
      bare_value key (take_until ends_bare (String.◌∷◌ c s))
        (drop_until ends_bare (String.◌∷◌ c s)) in
    if code c == b'"'
    then quoted_or (record (only_key key) { double_quoted = take_until (exactly b'"') s })
        (drop_until (exactly b'"') s) plain
    else if code c == b'\''
    then quoted_or (record (only_key key) { single_quoted = take_until (exactly b'\'') s })
        (drop_until (exactly b'\'') s) plain
    else plain

abbrev or_only_key : Groups → String → Option (Groups × String) → Option (Groups × String)
or_only_key g rest none = some (g, rest)
or_only_key g rest (some found) = some found

-- The optional `=` and value.
abbrev assigned : String → String → Option (Groups × String)
assigned key String.[] = none
assigned key (String.◌∷◌ c s) = if code c == b'=' then value_at key (skip_gaps s) else none

-- `attributes` from here.
unfoldable pub attribute_at : String → Option (Groups × String)
unfolding take_until drop_until ends_key ends_bare is_gap string_eq nat_eq
attribute_at s =
    let key = take_until ends_key s in
    let rest = drop_until ends_key s in
    if key == "" then none else or_only_key (only_key key) rest (assigned key (skip_gaps rest))

abbrev value_of : Groups → String
value_of g =
    if not (g.bare == "")
    then g.bare
    else if not (g.single_quoted == "")
    then g.single_quoted
    else g.double_quoted

unfoldable pub add_attribute : Option String → String → String → Dict String → Result (Dict String)
add_attribute (some old) key value a = err "duplicate attribute"
add_attribute none key value a = ok (insert key value a)

unfoldable pub collect : Html → List Groups → Dict String → Result (Dict String)
unfolding string_eq
collect html [] a = ok a
collect html (g ∷ rest) a =
    add_attribute (lookup (html.to_lower g.key) a) (html.to_lower g.key)
      (html.unescape (value_of g)) a
    >>= collect html rest

-- `attrs`
unfoldable pub attrs : Html → String → Result (Dict String)
unfolding matches_in attribute_at collect
attrs html raw = collect html (matches_in attribute_at raw) []

-- `a[key]`, where a missing key reads as "".
unfoldable pub attr : String → Dict String → String
attr key a = elim (lookup key a) [ none ↦ "" | some value ↦ value ]

unfoldable pub has_attr : String → Dict String → Bool
has_attr key a = elim (lookup key a) [ none ↦ false | some value ↦ true ]
