-- ===== src/NoIntro/Forms/Prepare/Asked.antt =====
-- `prepareForm`: what is asked for of a name, and the controls that answer it.
use romd_dat_catalogs.Prelude.{
  ℕ, ◌+◌, String, Bool, true, false, not, ◌&&◌, Option, none, some, List, [], ◌∷◌, if◌then◌else◌,
  ◌==◌, string_eq, nat_eq, Result, ok, err, ◌≡◌, refl, sym, ◌∙◌, ◌⊎◌, inl, inr, arith, Bool-cases,
}
use romd_dat_catalogs.Prelude.Dict.{Dict, lookup, lookup-insert}
use romd_dat_catalogs.NoIntro.Attributes.{Html, attrs, attr}
use romd_dat_catalogs.NoIntro.Forms.{base_values}
use romd_dat_catalogs.NoIntro.Forms.Prepare.{Controls, is_optional, is_prepare, offer}
use romd_dat_catalogs.NoIntro.Forms.Prepare.Base.{base_values-is_optional}

-- A control, other than the one that submits, of this name and value.
unfoldable pub is_choice : String → String → Dict String → Bool
is_choice name value a = not (is_prepare a) && attr "name" a == name && attr "value" a == value

abbrev pub choice_of : String → String → Result (Dict String) → Bool
choice_of name value (ok a) = is_choice name value a
choice_of name value (err e) = false

abbrev pub tally : Bool → ℕ
tally true = 1
tally false = 0

-- How many of the tags are such a control.
unfoldable pub choices : Html → String → String → List String → ℕ
choices html name value [] = 0
choices html name value (raw ∷ rest) =
    tally (choice_of name value (attrs html raw)) + choices html name value rest

-- What is asked for of a name if a control has it.
unfoldable pub asked : String → String → Option String
asked id name = if is_optional id name then some "1" else lookup name (base_values id)

-- What is asked for so far.
pub Agrees : String → Dict String → Type 0
Agrees id values =
    (name : String)
    → (lookup name values ≡ asked id name)
      ⊎ ((is_optional id name ≡ true) × (lookup name values ≡ none))

pub start-Agrees : (id : String) → Agrees id (base_values id)
unfolding Agrees asked
start-Agrees id name = elim (Bool-cases (is_optional id name)) [
  | inl o ↦ inr (o, base_values-is_optional id name o)
  | inr o ↦ inl (rw o refl)
]

offer-lookup :
    (id name : String) (a : Dict String) (st : Controls)
    → lookup name (offer id a st).values ≡ (
        if is_optional id (attr "name" a) && name == attr "name" a
        then some "1"
        else lookup name st.values)
unfolding offer
offer-lookup id name a st = elim (Bool-cases (is_optional id (attr "name" a))) [
  | inl o ↦ rw o (lookup-insert name (attr "name" a) "1" st.values)
  | inr o ↦ rw o refl
]

pub offer-found : (id : String) (a : Dict String) (st : Controls) → (offer id a st).found ≡ st.found
unfolding offer
offer-found id a st = ground arith

pub offer-Agrees :
    (id : String) (a : Dict String) (st : Controls)
    → Agrees id st.values
    → Agrees id (offer id a st).values
unfolding Agrees asked
offer-Agrees id a st h name =
    let g = h name in let e = offer-lookup id name a st in ground (arith, g, e)

-- The control's own name stands at what is asked for.
pub offer-asked :
    (id : String) (a : Dict String) (st : Controls)
    → Agrees id st.values
    → lookup (attr "name" a) (offer id a st).values ≡ asked id (attr "name" a)
unfolding Agrees asked
offer-asked id a st h =
    let g = h (attr "name" a) in
    let e = offer-lookup id (attr "name" a) a st in ground (arith, g, e)

-- What is asked for so far is what is asked for at all, and an entry of the base stands there.
pub agreed :
    (id : String) (values : Dict String) (name w : String)
    → Agrees id values
    → lookup name values ≡ some w
    → asked id name ≡ some w
unfolding Agrees
agreed id values name w h e = elim (h name) [
  | inl same ↦ sym same ∙ e
  | inr (_, missing) ↦ absurd cc
]

pub agreed_base :
    (id : String) (values : Dict String) (name w : String)
    → Agrees id values
    → lookup name (base_values id) ≡ some w
    → lookup name values ≡ some w
unfolding Agrees asked
agreed_base id values name w h e = elim (Bool-cases (is_optional id name)) [
  | inl o ↦ absurd (let missing = base_values-is_optional id name o in cc)
  | inr o ↦ elim (h name) [ inl same ↦ same ∙ rw o e | inr (p, _) ↦ absurd cc ]
]
