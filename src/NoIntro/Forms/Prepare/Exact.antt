-- ===== src/NoIntro/Forms/Prepare/Exact.antt =====
-- `prepareForm` submits what each control of the form offers, once.
use romd_dat_catalogs.Prelude.{
  ℕ, String, true, false, some, [], ◌∷◌, ◌==◌, string_eq, nat_eq, ok, ◌≡◌, ◌∙◌, ap, ◌⊎◌, inl, inr,
  arith, Bool-cases, refuse_if-passed, >>=-eq-ok,
}
use romd_dat_catalogs.Prelude.Dict.{Dict, lookup, insert, lookup-insert}
use romd_dat_catalogs.Prelude.Regex.{match_string}
use romd_dat_catalogs.Definitions.{Catalog}
use romd_dat_catalogs.NoIntro.Scan.{forms, inputs, selects, options}
use romd_dat_catalogs.NoIntro.Attributes.{Html}
use romd_dat_catalogs.NoIntro.Forms.{prepare_name, base_values}
use romd_dat_catalogs.NoIntro.Forms.Prepare.{
  times_found, check_selects, identify, main_form, prepare_form, submit_controls, take_controls,
  each_found_once, start_controls,
}
use romd_dat_catalogs.NoIntro.Forms.Prepare.Asked.{
  choices, asked, Agrees, start-Agrees, agreed, agreed_base,
}
use romd_dat_catalogs.NoIntro.Forms.Prepare.Counted.{take_controls-Taken}

each_found_once-lookup :
    (found : Dict ℕ) (values : Dict String) (name w : String)
    → each_found_once found values ≡ true
    → lookup name values ≡ some w
    → times_found name found ≡ 1
unfolding each_found_once lookup
each_found_once-lookup found [] name w h e = absurd cc
each_found_once-lookup found ((k, v) ∷ rest) name w h e =
    let later = each_found_once-lookup found rest name w in
    elim (Bool-cases (name == k)) [
      | inl same ↦
          let s : name ≡ k = ground (arith, same) in
          let t : times_found k found ≡ 1 = ground (arith, h) in rw s t
      | inr other ↦ later (ground (arith, h)) (ground (arith, e, other))
    ]

-- What `prepareForm` has made sure of when it returns values.
record Prepared (html : Html) (page id : String) (v : Dict String) : Type 0 where
  content : String
  submit : String
  values : Dict String
  form : main_form html (forms page) ("", 0) ≡ ok (content, 1)
  sent : v ≡ insert submit "Prepare" values
  named : match_string prepare_name submit ≡ true
  agrees : Agrees id values
  once : (name w : String) → lookup name values ≡ some w → choices html name w (inputs content) ≡ 1

submit_controls-Prepared :
    (html : Html) (page content : String) (c : Catalog) (v : Dict String)
    → main_form html (forms page) ("", 0) ≡ ok (content, 1)
    → submit_controls html c content ≡ ok v
    → Prepared html page c.provider_system_id v
unfolding submit_controls times_found lookup
submit_controls-Prepared html page content c v form e =
    let id = c.provider_system_id in
    let (st, e₁, e₂) = >>=-eq-ok (take_controls html id (inputs content) (start_controls id)) _ e in
    let (good, e₃) = refuse_if-passed _ _ _ e₂ in
    let taken =
      take_controls-Taken html id (inputs content) (start_controls id) st (start-Agrees id) e₁ in
    let each : each_found_once st.found st.values ≡ true = ground (arith, good) in
    let given : (st.submit == "") ≡ false = ground (arith, good) in
    record {
      content = content;
      submit = st.submit;
      values = st.values;
      form = form;
      sent = cc;
      named = elim taken.submit [ inl s ↦ absurd (ground (arith, s, given)) | inr m ↦ m ];
      agrees = taken.agrees;
      once = λ name w g.
          let one = each_found_once-lookup st.found st.values name w each g in
          let total = taken.found name w (agreed id st.values name w taken.agrees g) in
          omega (arith, one, total);
    }

prepare_form-Prepared :
    (html : Html) (page : String) (c : Catalog) (v : Dict String)
    → prepare_form html page c ≡ ok v
    → Prepared html page c.provider_system_id v
unfolding prepare_form
prepare_form-Prepared html page c v e =
    let ((content, count), e₁, e₂) = >>=-eq-ok (main_form html (forms page) ("", 0)) _ e in
    let (single, e₃) = refuse_if-passed _ _ _ e₂ in
    let (_, _, e₄) = >>=-eq-ok (check_selects html (selects content)) _ e₃ in
    let (identity, _, e₅) = >>=-eq-ok (identify html c (options content) false) _ e₄ in
    let (_, e₆) = refuse_if-passed _ _ _ e₅ in
    let one : count ≡ 1 = ground (arith, single) in
    submit_controls-Prepared html page content c v (e₁ ∙ ap (λ n. ok (content, n)) one) e₆

-- When `prepareForm` recognizes a page, then whatever it submits for a name is the Prepare button,
-- or else exactly one control of the page's single main form has that name and value, and the value
-- is what the complete selection of the system has, or "1" at a control that only some forms offer.
pub prepare_form-exact :
    (html : Html) (page : String) (c : Catalog) (v : Dict String) (name w : String)
    → prepare_form html page c ≡ ok v
    → lookup name v ≡ some w
    → (content : String) × (main_form html (forms page) ("", 0) ≡ ok (content, 1))
      × (((match_string prepare_name name ≡ true) × (w ≡ "Prepare"))
          ⊎ ((choices html name w (inputs content) ≡ 1)
              × (asked c.provider_system_id name ≡ some w)))
prepare_form-exact html page c v name w e h =
    let p = prepare_form-Prepared html page c v e in
    let put = lookup-insert name p.submit "Prepare" p.values in
    let k = rw p.sent at h in
    (
      p.content,
      p.form,
      elim (Bool-cases (name == p.submit)) [
        | inl same ↦
            let s : name ≡ p.submit = ground (arith, same) in
            inl (rw s p.named, ground (arith, put, k, same))
        | inr other ↦
            let g : lookup name p.values ≡ some w = ground (arith, put, k, other) in
            inr (p.once name w g, agreed c.provider_system_id p.values name w p.agrees g)
      ],
    )

-- What `prepareForm` submits holds every entry of the system's complete selection.
pub prepare_form_complete :
    (html : Html) (page : String) (c : Catalog) (v : Dict String) (name w : String)
    → prepare_form html page c ≡ ok v
    → lookup name (base_values c.provider_system_id) ≡ some w
    → match_string prepare_name name ≡ false
    → lookup name v ≡ some w
prepare_form_complete html page c v name w e h plain =
    let p = prepare_form-Prepared html page c v e in
    let put = lookup-insert name p.submit "Prepare" p.values in
    let kept = agreed_base c.provider_system_id p.values name w p.agrees h in
    let differ : (name == p.submit) ≡ false = ground (arith, plain, p.named) in
    rw p.sent (put ∙ rw differ kept)
