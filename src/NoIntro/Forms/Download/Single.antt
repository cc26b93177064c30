-- ===== src/NoIntro/Forms/Download/Single.antt =====
-- `downloadForm` selects the one button that a page has.
use romd_dat_catalogs.Prelude.{
  String, ◌&&◌, ◌++◌, ap₂, true, false, not, List, [], ◌∷◌, if◌then◌else◌, ◌==◌, string_eq, nat_eq,
  Result, ok, err, ◌≡◌, refl, sym, ◌∙◌, ap, ◌⊎◌, inl, inr, arith, Bool-cases, refuse_if-passed,
  >>=-eq-ok,
}
use romd_dat_catalogs.Prelude.Dict.{Dict}
use romd_dat_catalogs.Prelude.Regex.{match_string, matches, nullable, after}
use romd_dat_catalogs.NoIntro.Scan.{forms, inputs}
use romd_dat_catalogs.NoIntro.Attributes.{Html, attrs, attr}
use romd_dat_catalogs.NoIntro.Forms.{download_name, or_bad}
use romd_dat_catalogs.NoIntro.Forms.Download.{
  is_other, is_button, select, scan_inputs, scan_forms, download_form,
}

-- The name of a control that offers a download and is displayed.
abbrev pub offer : Result (Dict String) → List String
offer (ok control) =
    if attr "value" control == "Download!!" && not (attr "style" control == "display:none;")
    then attr "name" control ∷ []
    else []
offer (err e) = []

-- The names of the controls of a form, and of all forms, that offer a download.
unfoldable pub offers_in : Html → List String → List String
offers_in html [] = []
offers_in html (raw ∷ rest) = offer (attrs html raw) ++ offers_in html rest

unfoldable pub offers : Html → List (String × String) → List String
offers html [] = []
offers html ((raw, body) ∷ rest) = offers_in html (inputs body) ++ offers html rest

-- What some controls make of the selection: they offer nothing and leave it, or they offer once.
Selected : List String → String → String → Type 0
Selected n before after =
    ((n ≡ []) × (after ≡ before))
    ⊎ ((n ≡ after ∷ []) × (before ≡ "") × (match_string download_name after ≡ true))

download_name-empty : match_string download_name "" ≡ false
unfolding match_string matches nullable download_name
download_name-empty = refl

Selected-trans :
    (n m : List String) (a b c : String) → Selected n a b → Selected m b c → Selected (n ++ m) a c
unfolding Selected
Selected-trans n m a b c (inl (e, f)) (inl (g, h)) = inl (ap₂ (λ x y. x ++ y) e g, h ∙ f)
Selected-trans n m a b c (inl (e, f)) (inr (g, h, k)) = inr (ap₂ (λ x y. x ++ y) e g, sym f ∙ h, k)
Selected-trans n m a b c (inr (e, f, k)) (inl (g, h)) =
    inr (ap₂ (λ x y. x ++ y) e g ∙ ap (λ x. x ∷ []) (sym h), f, rw h k)
Selected-trans n m a b c (inr (e, f, k)) (inr (g, h, l)) =
    absurd (let empty = download_name-empty in let l' = rw h at k in cc)

or_bad-eq-ok : {A : Type 0} (bad : String) (r : Result A) (a : A) → or_bad bad r ≡ ok a → r ≡ ok a
or_bad-eq-ok bad (ok b) a e = e
or_bad-eq-ok bad (err m) a e = absurd cc

select-Selected :
    (form control : Dict String) (tags : List String) (before after : String)
    → select form control tags before ≡ ok after
    → Selected (attr "name" control ∷ []) before after
unfolding select Selected is_button
select-Selected form control tags before after e =
    let (_, e₁) = refuse_if-passed _ _ _ e in
    let (_, e₂) = refuse_if-passed _ _ _ e₁ in
    let (passed, e₃) = refuse_if-passed _ _ _ e₂ in
    let same : attr "name" control ≡ after = cc in
    inr (ap (λ x. x ∷ []) same, ground (arith, passed), rw (sym same) (ground (arith, passed)))

offer-none : (control : Dict String) → is_other control ≡ true → offer (ok control) ≡ []
unfolding is_other
offer-none control h = ground (arith, h)

offer-one :
    (control : Dict String)
    → is_other control ≡ false
    → offer (ok control) ≡ attr "name" control ∷ []
unfolding is_other
offer-one control h = ground (arith, h)

scan_inputs-Selected :
    (html : Html) (form : Dict String) (tags raws : List String) (before after : String)
    → scan_inputs html form tags raws before ≡ ok after
    → Selected (offers_in html raws) before after
unfolding scan_inputs offers_in Selected
scan_inputs-Selected html form tags [] before after e = inl (refl, cc)
scan_inputs-Selected html form tags (raw ∷ rest) before after e =
    let (control, e₁, e₂) = >>=-eq-ok (or_bad _ (attrs html raw)) _ e in
    let (mid, e₃, e₄) =
      >>=-eq-ok (if is_other control then ok before else select form control tags before) _ e₂ in
    let known = or_bad-eq-ok _ (attrs html raw) control e₁ in
    let later = scan_inputs-Selected html form tags rest mid after e₄ in
    rw known (
      Selected-trans _ _ before mid after
        (elim (Bool-cases (is_other control)) [
          | inl o ↦ inl (offer-none control o, ground (arith, o, e₃))
          | inr o ↦
              rw (offer-one control o) (select-Selected form control tags before mid (rw o at e₃))
        ])
        later)

scan_forms-Selected :
    (html : Html) (pages : List (String × String)) (before after : String)
    → scan_forms html pages before ≡ ok after
    → Selected (offers html pages) before after
unfolding scan_forms offers Selected
scan_forms-Selected html [] before after e = inl (refl, cc)
scan_forms-Selected html ((raw, body) ∷ rest) before after e =
    let (form, _, e₁) = >>=-eq-ok (or_bad _ (attrs html raw)) _ e in
    let (mid, e₂, e₃) = >>=-eq-ok (scan_inputs html form (inputs body) (inputs body) before) _ e₁ in
    Selected-trans _ _ before mid after
      (scan_inputs-Selected html form (inputs body) (inputs body) before mid e₂)
      (scan_forms-Selected html rest mid after e₃)

not_blank : (s : String) → (s == "") ≡ false → s ≡ "" → ⊥
not_blank s h e = ground arith

-- When `downloadForm` recognizes a page, exactly one displayed control among all its forms offers a
-- download, and what is submitted is that control alone, under its own name, which is 32 small
-- hexadecimal digits.
pub download_form-single :
    (html : Html) (page : String) (v : Dict String)
    → download_form html page ≡ ok v
    → (name : String) × (offers html (forms page) ≡ name ∷ [])
      × (v ≡ (name, "Download!!") ∷ [])
      × (match_string download_name name ≡ true)
unfolding download_form Selected
download_form-single html page v e =
    let (name, e₁, e₂) = >>=-eq-ok (scan_forms html (forms page) "") _ e in
    let (given, e₃) = refuse_if-passed _ _ _ e₂ in
    elim (scan_forms-Selected html (forms page) "" name e₁) [
      | inl (_, blank) ↦ absurd (not_blank name given blank)
      | inr (one, _, named) ↦ (name, one, cc, named)
    ]
