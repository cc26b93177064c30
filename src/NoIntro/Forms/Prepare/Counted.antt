-- ===== src/NoIntro/Forms/Prepare/Counted.antt =====
-- `prepareForm`: its loop over the inputs counts each control that is asked for.
use romd_dat_catalogs.Prelude.{
  ℕ, suc, ◌+◌, String, true, false, Option, none, some, List, [], ◌∷◌, if◌then◌else◌, ◌==◌,
  string_eq, nat_eq, Result, ok, err, ◌≡◌, refl, sym, ◌∙◌, ap, subst, ◌⊎◌, inl, inr, arith,
  Bool-cases, refuse_if-passed, >>=-eq-ok,
}
use romd_dat_catalogs.Prelude.Dict.{Dict, lookup, insert, lookup-insert}
use romd_dat_catalogs.Prelude.Regex.{match_string}
use romd_dat_catalogs.NoIntro.Attributes.{Html, attrs, attr}
use romd_dat_catalogs.NoIntro.Forms.{prepare_name, or_bad}
use romd_dat_catalogs.NoIntro.Forms.Prepare.{
  Controls, times_found, is_prepare, take_wanted, take_submit, offer, take_enabled, or_zero,
  take_control, take_controls,
}
use romd_dat_catalogs.NoIntro.Forms.Prepare.Asked.{
  is_choice, choice_of, tally, choices, asked, Agrees, offer-Agrees, offer-asked, offer-found,
}

times_found-insert :
    (j k : String) (n : ℕ) (d : Dict ℕ)
    → times_found j (insert k n d) ≡ (if j == k then n else times_found j d)
unfolding times_found
times_found-insert j k n d = elim (Bool-cases (j == k)) [
  | inl e ↦ rw e (ap or_zero {y = some n} (lookup-insert j k n d ∙ rw e refl))
  | inr e ↦ rw e (ap or_zero {y = lookup j d} (lookup-insert j k n d ∙ rw e refl))
]

-- One more control has been counted.
record Counted (id : String) (a : Dict String) (st st' : Controls) : Type 0 where
  values : st'.values ≡ st.values
  submit : (st'.submit ≡ st.submit) ⊎ (match_string prepare_name st'.submit ≡ true)
  found :
      (name w : String)
      → asked id name ≡ some w
      → times_found name st'.found ≡ tally (is_choice name w a) + times_found name st.found

take_wanted-none :
    (id : String) (a : Dict String) (st st' : Controls)
    → asked id (attr "name" a) ≡ none
    → take_wanted none a st ≡ ok st'
    → Counted id a st st'
unfolding take_wanted is_choice
take_wanted-none id a st st' fresh e =
    let same : st' ≡ st = ground (arith, e) in
    record {
      values = rw same refl;
      submit = inl (rw same refl);
      found = λ name w h. rw same (ground (arith, h, fresh));
    }

take_wanted-some :
    (id want : String) (a : Dict String) (st st' : Controls)
    → is_prepare a ≡ false
    → asked id (attr "name" a) ≡ some want
    → take_wanted (some want) a st ≡ ok st'
    → Counted id a st st'
unfolding take_wanted is_choice
take_wanted-some id want a st st' plain known e =
    let name = attr "name" a in
    elim (Bool-cases (attr "value" a == want)) [
      | inl hit ↦
          let after = insert name (suc (times_found name st.found)) st.found in
          let same : st' ≡ record st { found = after } = ground (arith, e, hit) in
          record {
            values = rw same refl;
            submit = inl (rw same refl);
            found = λ k w h.
                let step = times_found-insert k name (suc (times_found name st.found)) st.found in
                rw same (ground (arith, step, h, known, hit, plain));
          }
      | inr miss ↦
          let same : st' ≡ st = ground (arith, e, miss) in
          record {
            values = rw same refl;
            submit = inl (rw same refl);
            found = λ k w h. rw same (ground (arith, h, known, miss, plain));
          }
    ]

is_prepare-name :
    (a : Dict String) → is_prepare a ≡ true → match_string prepare_name (attr "name" a) ≡ true
unfolding is_prepare
is_prepare-name a h = ground arith

take_submit-Counted :
    (id : String) (a : Dict String) (st st' : Controls)
    → is_prepare a ≡ true
    → take_submit a st ≡ ok st'
    → Counted id a st st'
unfolding take_submit is_choice
take_submit-Counted id a st st' p e =
    let same : st' ≡ record st { submit = attr "name" a } = ground (arith, e) in
    record {
      values = rw same refl;
      submit = inr (rw same (is_prepare-name a p));
      found = λ name w h. rw (same, p) (omega arith);
    }

take_wanted-Counted :
    (id : String) (o : Option String) (a : Dict String) (st st' : Controls)
    → is_prepare a ≡ false
    → asked id (attr "name" a) ≡ o
    → take_wanted o a st ≡ ok st'
    → Counted id a st st'
take_wanted-Counted id none a st st' p h e = take_wanted-none id a st st' h e
take_wanted-Counted id (some want) a st st' p h e = take_wanted-some id want a st st' p h e

take_enabled-Counted :
    (id : String) (a : Dict String) (st st' : Controls)
    → lookup (attr "name" a) st.values ≡ asked id (attr "name" a)
    → take_enabled a st ≡ ok st'
    → Counted id a st st'
unfolding take_enabled
take_enabled-Counted id a st st' h e = elim (Bool-cases (is_prepare a)) [
  | inl p ↦ take_submit-Counted id a st st' p (rw p at e)
  | inr p ↦ take_wanted-Counted id _ a st st' p (sym h) (rw p at e)
]

or_bad-eq-ok : {A : Type 0} (bad : String) (r : Result A) (a : A) → or_bad bad r ≡ ok a → r ≡ ok a
or_bad-eq-ok bad (ok b) a e = e
or_bad-eq-ok bad (err m) a e = absurd cc

-- What the loop over the inputs keeps and counts.
pub record Taken (html : Html) (id : String) (raws : List String) (st st' : Controls) : Type 0 where
  pub agrees : Agrees id st'.values
  pub submit : (st'.submit ≡ st.submit) ⊎ (match_string prepare_name st'.submit ≡ true)
  pub found :
      (name w : String)
      → asked id name ≡ some w
      → times_found name st'.found ≡ choices html name w raws + times_found name st.found

offer-submit : (id : String) (a : Dict String) (st : Controls) → (offer id a st).submit ≡ st.submit
unfolding offer
offer-submit id a st = ground arith

take_control-Taken :
    (html : Html) (id raw : String) (st st' : Controls)
    → Agrees id st.values
    → take_control html id raw st ≡ ok st'
    → Taken html id (raw ∷ []) st st'
unfolding take_control choices
take_control-Taken html id raw st st' h e =
    let (a, e₁, e₂) = >>=-eq-ok (or_bad _ (attrs html raw)) _ e in
    let (_, e₃) = refuse_if-passed _ _ _ e₂ in
    let (_, e₄) = refuse_if-passed _ _ _ e₃ in
    let known = or_bad-eq-ok _ (attrs html raw) a e₁ in
    let c = take_enabled-Counted id a (offer id a st) st' (offer-asked id a st h) e₄ in
    let kept : Agrees id st'.values = subst (Agrees id) (sym c.values) (offer-Agrees id a st h) in
    let same = offer-submit id a st in
    let quiet = offer-found id a st in
    record {
      agrees = kept;
      submit = elim c.submit [ inl s ↦ inl (s ∙ same) | inr m ↦ inr m ];
      found = λ name w g.
          let f = c.found name w g in
          let q = ap (times_found name) quiet in
          let k = ap (λ r. tally (choice_of name w r)) known in omega (arith, f, q, k);
    }

pub take_controls-Taken :
    (html : Html) (id : String) (raws : List String) (st st' : Controls)
    → Agrees id st.values
    → take_controls html id raws st ≡ ok st'
    → Taken html id raws st st'
unfolding take_controls choices
take_controls-Taken html id [] st st' h e =
    let same : st' ≡ st = cc in
    record {
      agrees = rw same h;
      submit = inl (rw same refl);
      found = λ name w g. rw same (omega arith);
    }
take_controls-Taken html id (raw ∷ rest) st st' h e =
    let (mid, e₁, e₂) = >>=-eq-ok (take_control html id raw st) _ e in
    let one = take_control-Taken html id raw st mid h e₁ in
    let later = take_controls-Taken html id rest mid st' one.agrees e₂ in
    record {
      agrees = later.agrees;
      submit = elim later.submit [
        | inl s ↦ elim one.submit [ inl t ↦ inl (s ∙ t) | inr m ↦ inr (rw s m) ]
        | inr m ↦ inr m
      ];
      found = λ name w g.
          let f = one.found name w g in let l = later.found name w g in omega (arith, f, l);
    }
