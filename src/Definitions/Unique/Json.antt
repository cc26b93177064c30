-- ===== src/Definitions/Unique/Json.antt =====
-- JSON values by their tokens, and the ones that `uniqueValue` is for.
use romd_dat_catalogs.Prelude.{
  ℕ, suc, ◌+◌, String, Bool, true, not, ◌&&◌, List, [], ◌∷◌, leb, contains, string_eq,
}
use romd_dat_catalogs.Definitions.Unique.{
  Token, open_object, close_object, open_array, close_array, text, scalar, max_depth,
}

-- JSON values, whatever their scalars are.
mutual
  pub data Json : Type 0 where
    plain : Json
    quoted : String → Json
    array : Items → Json
    object : Members → Json

  pub data Items : Type 0 where
    none_left : Items
    item : Json → Items → Items

  pub data Members : Type 0 where
    end : Members
    member : String → Json → Members → Members

-- The tokens of a value, before those that come behind it, and their number.
unfoldable mutual
  pub tokens : Json → List Token → List Token
  tokens plain rest = scalar ∷ rest
  tokens (quoted s) rest = text s ∷ rest
  tokens (array l) rest = open_array ∷ item_tokens l (close_array ∷ rest)
  tokens (object m) rest = open_object ∷ member_tokens m (close_object ∷ rest)

  pub item_tokens : Items → List Token → List Token
  item_tokens none_left rest = rest
  item_tokens (item v l) rest = tokens v (item_tokens l rest)

  pub member_tokens : Members → List Token → List Token
  member_tokens end rest = rest
  member_tokens (member k v m) rest = text k ∷ tokens v (member_tokens m rest)

unfoldable mutual
  pub size : Json → ℕ
  size plain = 1
  size (quoted s) = 1
  size (array l) = suc (item_size l)
  size (object m) = suc (member_size m)

  pub item_size : Items → ℕ
  item_size none_left = 1
  item_size (item v l) = size v + item_size l

  pub member_size : Members → ℕ
  member_size end = 1
  member_size (member k v m) = suc (size v + member_size m)

-- The names of an object, and that each of them stands once.
abbrev pub names : Members → List String
names end = []
names (member k v m) = k ∷ names m

abbrev pub is_distinct : List String → Bool
is_distinct [] = true
is_distinct (k ∷ ks) = not (contains ks k) && is_distinct ks

-- Every object of the value names each key once, and no value lies deeper than the limit.
unfoldable mutual
  pub is_unique : ℕ → Json → Bool
  is_unique depth plain = leb depth max_depth
  is_unique depth (quoted s) = leb depth max_depth
  is_unique depth (array l) = leb depth max_depth && are_unique depth l
  is_unique depth (object m) = leb depth max_depth && (is_distinct (names m) && have_unique depth m)

  pub are_unique : ℕ → Items → Bool
  are_unique depth none_left = true
  are_unique depth (item v l) = is_unique (suc depth) v && are_unique depth l

  pub have_unique : ℕ → Members → Bool
  have_unique depth end = true
  have_unique depth (member k v m) = is_unique (suc depth) v && have_unique depth m
