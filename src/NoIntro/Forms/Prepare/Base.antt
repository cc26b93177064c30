-- ===== src/NoIntro/Forms/Prepare/Base.antt =====
-- What is asked for of a system never holds a control that only some forms offer.
use romd_dat_catalogs.Prelude.{
  String, Bool, true, false, none, ◌==◌, string_eq, ◌≡◌, refl, subst, sym, arith, inl, inr,
  Bool-cases,
}
use romd_dat_catalogs.Prelude.Dict.{Dict, lookup, insert, remove, lookup-insert, lookup-remove}
use romd_dat_catalogs.NoIntro.Forms.{
  when, complete_selection, early_systems, batch_three, decrypted_systems, base_values,
}
use romd_dat_catalogs.NoIntro.Forms.Prepare.{is_optional}

-- No entry has the name.
Lacks : String → Dict String → Type 0
Lacks k d = lookup k d ≡ none

when-Lacks :
    (k : String) (b : Bool) (change : Dict String → Dict String) (d : Dict String)
    → ((e : Dict String) → Lacks k e → Lacks k (change e))
    → Lacks k d
    → Lacks k (when b change d)
unfolding when
when-Lacks k true change d h lacks = h d lacks
when-Lacks k false change d h lacks = lacks

abbrev mia : String
mia = "inc_mia"

insert-Lacks :
    (j v : String) (d : Dict String) → (mia == j) ≡ false → Lacks mia d → Lacks mia (insert j v d)
unfolding Lacks
insert-Lacks j v d other h = rw (lookup-insert mia j v d, other) h

remove-Lacks : (j : String) (d : Dict String) → Lacks mia d → Lacks mia (remove j d)
unfolding Lacks
remove-Lacks j d h = elim (Bool-cases (mia == j)) [
  | inl same ↦ rw (lookup-remove mia j d, same) refl
  | inr other ↦ rw (lookup-remove mia j d, other) h
]

early_systems-Lacks : (id : String) (d : Dict String) → Lacks mia d → Lacks mia (early_systems id d)
unfolding early_systems string_eq
early_systems-Lacks id d h = when-Lacks mia _ _ _ (remove-Lacks "inc_adult") (
    when-Lacks mia _ _ _ (λ e. insert-Lacks "header_plugin" "0" e refl)
      (when-Lacks mia _ _ _
        (λ e k. insert-Lacks "inc_zroms" "1" _ refl (
          insert-Lacks "inc_xroms" "1" _ refl
            (insert-Lacks "numbered" "0" _ refl (remove-Lacks "inc_adult" e k))))
        (when-Lacks mia _ _ _ (remove-Lacks "collection") h)))

batch_three-Lacks : (id : String) (d : Dict String) → Lacks mia d → Lacks mia (batch_three id d)
unfolding batch_three string_eq
batch_three-Lacks id d h =
    when-Lacks mia _ _ _
      (λ e k.
        when-Lacks mia _ _ _ (λ f. insert-Lacks "inc_zroms" "1" f refl)
          (when-Lacks mia _ _ _ (λ f. insert-Lacks "inc_xroms" "1" f refl)
            (when-Lacks mia _ _ _ (remove-Lacks "inc_nodump")
              (remove-Lacks "inc_adult" _ (remove-Lacks "collection" e k)))))
      h

decrypted_systems-Lacks :
    (id : String) (d : Dict String) → Lacks mia d → Lacks mia (decrypted_systems id d)
unfolding decrypted_systems string_eq
decrypted_systems-Lacks id d h =
    when-Lacks mia _ _ _
      (λ e k.
        when-Lacks mia _ _ _
          (λ f m. remove-Lacks "lifespan_2" _ (
            remove-Lacks "lifespan_1" _ (
              remove-Lacks "license_2" _
                (remove-Lacks "license_1" _ (remove-Lacks "license_0" f m)))))
          (insert-Lacks "inc_zroms" "1" _ refl (
            insert-Lacks "inc_xroms" "1" _ refl (
              insert-Lacks "numbered" "0" _ refl
                (remove-Lacks "inc_adult" _ (remove-Lacks "collection" e k))))))
      h

complete_selection-mia : Lacks mia complete_selection
unfolding Lacks complete_selection lookup string_eq
complete_selection-mia = refl

base_values-mia : (id : String) → Lacks mia (base_values id)
unfolding base_values
base_values-mia id = when-Lacks mia _ _ _ (remove-Lacks "inc_nodump") (
    decrypted_systems-Lacks id _
      (batch_three-Lacks id _ (early_systems-Lacks id _ complete_selection-mia)))

base_values-nodump : lookup "inc_nodump" (base_values "24") ≡ none
unfolding base_values when lookup string_eq
base_values-nodump = refl

pub base_values-is_optional :
    (id name : String) → is_optional id name ≡ true → lookup name (base_values id) ≡ none
unfolding is_optional Lacks
base_values-is_optional id name h = elim (Bool-cases (name == mia)) [
  | inl same ↦
      let e : name ≡ mia = ground (arith, same) in
      subst (λ n. lookup n (base_values id) ≡ none) (sym e) (base_values-mia id)
  | inr other ↦
      let n : name ≡ "inc_nodump" = ground (arith, other, h) in
      let i : id ≡ "24" = ground (arith, other, h) in rw (n, i) base_values-nodump
]
