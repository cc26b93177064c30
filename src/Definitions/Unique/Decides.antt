-- ===== src/Definitions/Unique/Decides.antt =====
-- `uniqueValue` accepts exactly the values whose objects name each key once and that nest within
-- the limit.
use romd_dat_catalogs.Prelude.{
  ℕ, zero, suc, ◌+◌, ◌≤◌, ◌≡◌, refl, sym, ◌∙◌, subst, ◌⊎◌, inl, inr, String, Bool, true, false, not,
  ◌&&◌, List, [], ◌∷◌, arith, ltb, leb, length, if◌then◌else◌, contains, string_eq, Result, ok, err,
  ◌>>=◌, Bool-cases,
}
use romd_dat_catalogs.Definitions.Unique.{
  Token, close_object, close_array, max_depth, value, members, items, Walk, duplicate, read_value,
  read_named, read_member, read_item, step, walk, unique_value,
}
use romd_dat_catalogs.Definitions.Unique.Json.{
  Json, plain, quoted, array, object, Items, none_left, item, Members, end, member, tokens,
  item_tokens, member_tokens, size, item_size, member_size, names, is_distinct, is_unique,
  are_unique, have_unique,
}

-- The reading comes to the rest of the tokens if the test holds, and to an error if it does not.
unfoldable pub Decides : Bool → List Token → Result (List Token) → Type 0
Decides b rest r = ((b ≡ true) × (r ≡ ok rest)) ⊎ ((b ≡ false) × (e : String) × (r ≡ err e))

Decides->>= :
    (b c : Bool) (mid rest : List Token) (r : Result (List Token))
    (next : List Token → Result (List Token))
    → Decides b mid r
    → Decides c rest (next mid)
    → Decides (b && c) rest (r >>= next)
unfolding Decides
Decides->>= b c mid rest r next (inl (h, e)) (inl (k, f)) = inl (rw (h, k) refl, rw e f)
Decides->>= b c mid rest r next (inl (h, e)) (inr (k, m, f)) = inr (rw (h, k) refl, m, rw e f)
Decides->>= b c mid rest r next (inr (h, m, e)) g = inr (rw h refl, m, rw e refl)

size-pos : (v : Json) → 1 ≤ size v
unfolding size
size-pos plain = omega arith
size-pos (quoted s) = omega arith
size-pos (array l) = omega arith
size-pos (object m) = omega arith

item_size-pos : (l : Items) → 1 ≤ item_size l
unfolding size
item_size-pos none_left = omega arith
item_size-pos (item v l) = omega (arith, size-pos v)

member_size-pos : (m : Members) → 1 ≤ member_size m
unfolding size
member_size-pos end = omega arith
member_size-pos (member k v m) = omega arith

-- A value starts with no closing token.
read_item-value :
    (go : Walk) (depth : ℕ) (v : Json) (ts : List Token)
    → read_item go depth (tokens v ts) ≡ (go value (suc depth) (tokens v ts) >>= go items depth)
unfolding read_item tokens
read_item-value go depth plain ts = refl
read_item-value go depth (quoted s) ts = refl
read_item-value go depth (array l) ts = refl
read_item-value go depth (object m) ts = refl

-- The names are new, one after the other.
abbrev fresh : List String → List String → Bool
fresh seen [] = true
fresh seen (k ∷ ks) = not (contains seen k) && fresh (k ∷ seen) ks

-- Behind the test of the depth.
within :
    (depth : ℕ) (b : Bool) (rest : List Token) (r : Result (List Token))
    → Decides b rest r
    → Decides
        (leb depth max_depth && b)
        rest
        (if ltb max_depth depth then err "definitions nesting limit" else r)
unfolding Decides
within depth b rest r d = elim (Bool-cases (ltb max_depth depth)) [
  | inl deep ↦
      let e : leb depth max_depth ≡ false = ground (arith, deep) in
      inr (rw e refl, "definitions nesting limit", rw deep refl)
  | inr low ↦ let e : leb depth max_depth ≡ true = ground (arith, low) in rw (e, low) d
]

within_leaf :
    (depth : ℕ) (rest : List Token)
    → Decides
        (leb depth max_depth)
        rest
        (if ltb max_depth depth then err "definitions nesting limit" else ok rest)
unfolding Decides
within_leaf depth rest = elim (Bool-cases (ltb max_depth depth)) [
  | inl deep ↦
      let e : leb depth max_depth ≡ false = ground (arith, deep) in
      inr (e, "definitions nesting limit", rw deep refl)
  | inr low ↦ let e : leb depth max_depth ≡ true = ground (arith, low) in inl (e, rw low refl)
]

named-Decides :
    (go : Walk) (seen : List String) (depth : ℕ) (dup : Bool) (name : String) (ts rest : List Token)
    (b : Bool)
    → Decides b rest (go value (suc depth) ts >>= go (members (name ∷ seen)) depth)
    → Decides (not dup && b) rest (read_named go seen depth dup name ts)
unfolding Decides read_named
named-Decides go seen depth true name ts rest b d = inr (refl, duplicate, refl)
named-Decides go seen depth false name ts rest b d = d

regroup : (d f u g : Bool) → ((d && f) && (u && g)) ≡ (d && (u && (f && g)))
regroup false f u g = refl
regroup true false false g = refl
regroup true false true g = refl
regroup true true u g = refl

abbrev avoids : List String → List String → Bool
avoids seen [] = true
avoids seen (k ∷ ks) = not (contains seen k) && avoids seen ks

avoids-cons :
    (j : String) (seen ks : List String)
    → avoids (j ∷ seen) ks ≡ (not (contains ks j) && avoids seen ks)
avoids-cons j seen [] = refl
avoids-cons j seen (k ∷ ks) = ground (arith, avoids-cons j seen ks)

fresh-eq : (seen ks : List String) → fresh seen ks ≡ (avoids seen ks && is_distinct ks)
fresh-eq seen [] = refl
fresh-eq seen (k ∷ ks) = ground (arith, fresh-eq (k ∷ seen) ks, avoids-cons k seen ks)

avoids_nil : (ks : List String) → avoids [] ks ≡ true
avoids_nil [] = refl
avoids_nil (k ∷ ks) = avoids_nil ks

fresh_nil : (ks : List String) → fresh [] ks ≡ is_distinct ks
fresh_nil ks = fresh-eq [] ks ∙ rw (avoids_nil ks) refl

mutual
  unfolding size tokens is_unique walk step read_value read_member read_item Decides

  value-Decides :
      (v : Json) (fuel depth : ℕ) (rest : List Token)
      → size v ≤ fuel
      → Decides (is_unique depth v) rest (walk fuel value depth (tokens v rest))
  value-Decides v zero depth rest h = absurd (omega (arith, size-pos v))
  value-Decides plain (suc fuel) depth rest h = within_leaf depth rest
  value-Decides (quoted s) (suc fuel) depth rest h = within_leaf depth rest
  value-Decides (array l) (suc fuel) depth rest h =
      within depth _ rest _ (items-Decides l fuel depth rest (omega arith))
  value-Decides (object m) (suc fuel) depth rest h =
      let r = walk fuel (members []) depth (member_tokens m (close_object ∷ rest)) in
      within depth (is_distinct (names m) && have_unique depth m) rest r (
        subst (λ b. Decides (b && have_unique depth m) rest r) (fresh_nil (names m))
          (members-Decides m [] fuel depth rest (omega arith)))

  items-Decides :
      (l : Items) (fuel depth : ℕ) (rest : List Token)
      → item_size l ≤ fuel
      → Decides
          (are_unique depth l)
          rest
          (walk fuel items depth (item_tokens l (close_array ∷ rest)))
  items-Decides l zero depth rest h = absurd (omega (arith, item_size-pos l))
  items-Decides none_left (suc fuel) depth rest h = inl (refl, refl)
  items-Decides (item v l) (suc fuel) depth rest h =
      subst (Decides _ rest)
        (sym (read_item-value (walk fuel) depth v (item_tokens l (close_array ∷ rest))))
        (Decides->>= _ _ (item_tokens l (close_array ∷ rest)) rest _ _
          (value-Decides v fuel (suc depth) _ (omega (arith, item_size-pos l)))
          (items-Decides l fuel depth rest (omega (arith, size-pos v))))

  members-Decides :
      (m : Members) (seen : List String) (fuel depth : ℕ) (rest : List Token)
      → member_size m ≤ fuel
      → Decides
          (fresh seen (names m) && have_unique depth m)
          rest
          (walk fuel (members seen) depth (member_tokens m (close_object ∷ rest)))
  members-Decides m seen zero depth rest h = absurd (omega (arith, member_size-pos m))
  members-Decides end seen (suc fuel) depth rest h = inl (refl, refl)
  members-Decides (member k v m) seen (suc fuel) depth rest h =
      let ts = member_tokens m (close_object ∷ rest) in
      subst
        (λ b. Decides b rest (read_named (walk fuel) seen depth (contains seen k) k (tokens v ts)))
        (sym (
          regroup (not (contains seen k)) (fresh (k ∷ seen) (names m)) (is_unique (suc depth) v)
            (have_unique depth m)))
        (named-Decides (walk fuel) seen depth (contains seen k) k (tokens v ts) rest _ (
          Decides->>= _ _ ts rest _ _
            (value-Decides v fuel (suc depth) ts (omega (arith, member_size-pos m)))
            (members-Decides m (k ∷ seen) fuel depth rest (omega (arith, size-pos v)))))

-- A value has at least as many tokens as it asks units of fuel for.
mutual
  unfolding size tokens

  length-tokens : (v : Json) (ts : List Token) → size v + length ts ≤ length (tokens v ts)
  length-tokens plain ts = omega arith
  length-tokens (quoted s) ts = omega arith
  length-tokens (array l) ts = omega (arith, length-item_tokens l (close_array ∷ ts))
  length-tokens (object m) ts = omega (arith, length-member_tokens m (close_object ∷ ts))

  length-item_tokens :
      (l : Items) (ts : List Token) → item_size l + length ts ≤ suc (length (item_tokens l ts))
  length-item_tokens none_left ts = omega arith
  length-item_tokens (item v l) ts =
      omega (arith, length-tokens v (item_tokens l ts), length-item_tokens l ts)

  length-member_tokens :
      (m : Members) (ts : List Token)
      → member_size m + length ts ≤ suc (length (member_tokens m ts))
  length-member_tokens end ts = omega arith
  length-member_tokens (member k v m) ts =
      omega (arith, length-tokens v (member_tokens m ts), length-member_tokens m ts)

-- On the tokens of a value, `uniqueValue` returns what stands behind the value if every object in
-- it names each key once and no value lies deeper than 32, and an error if not; a unit of fuel for
-- each token is enough.
pub unique_value-Decides :
    (v : Json) (rest : List Token) → Decides (is_unique 0 v) rest (unique_value (tokens v rest))
unfolding unique_value
unique_value-Decides v rest =
    value-Decides v (length (tokens v rest)) 0 rest (omega (arith, length-tokens v rest))
