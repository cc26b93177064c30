-- ===== src/Prelude/Regex.antt =====
-- The part of `regexp` that the source's patterns use, all of them anchored at both ends.
pub mod Laws
use Prim.Native.Nat.{ℕ, zero, suc}
use mathlib.Core.Bool.{Bool, true, false, ◌&&◌, ◌||◌}
use mathlib.Core.List.{List, [], ◌∷◌, ◌++◌}
use Prim.Native.String.{String}
use romd_dat_catalogs.Prelude.Equality.{leb, if◌then◌else◌}
use romd_dat_catalogs.Prelude.Text.{codes}
use romd_dat_catalogs.Prelude.Lists.{any}

pub data Regex : Type 0 where
  never : Regex
  done : Regex
  one_of : List (ℕ × ℕ) → Regex
  both : Regex → Regex → Regex
  either : Regex → Regex → Regex
  star : Regex → Regex

abbrev pub in_ranges : List (ℕ × ℕ) → ℕ → Bool
in_ranges [] c = false
in_ranges ((lo, hi) ∷ rs) c = (leb lo c && leb c hi) || in_ranges rs c

-- The pattern matches the empty text.
unfoldable pub nullable : Regex → Bool
nullable never = false
nullable done = true
nullable (one_of rs) = false
nullable (both r s) = nullable r && nullable s
nullable (either r s) = nullable r || nullable s
nullable (star r) = true

-- What is left to match after one code point.
unfoldable pub after : ℕ → Regex → Regex
unfolding nullable
after c never = never
after c done = never
after c (one_of rs) = if in_ranges rs c then done else never
after c (both r s) =
    if nullable r then either (both (after c r) s) (after c s) else both (after c r) s
after c (either r s) = either (after c r) (after c s)
after c (star r) = both (after c r) (star r)

unfoldable pub matches : Regex → List ℕ → Bool
unfolding after
matches r [] = nullable r
matches r (c ∷ cs) = matches (after c r) cs

-- `MatchString`
unfoldable pub match_string : Regex → String → Bool
unfolding matches
match_string r s = matches r (codes s)

-- `r+`
abbrev pub plus : Regex → Regex
plus r = both r (star r)

-- `r{n}`
abbrev pub times : ℕ → Regex → Regex
times zero r = done
times (suc n) r = both r (times n r)

-- `r{0,n}`
abbrev pub up_to : ℕ → Regex → Regex
up_to zero r = done
up_to (suc n) r = either done (both r (up_to n r))

abbrev pub exactly : ℕ → Regex
exactly c = one_of ((c, c) ∷ [])

abbrev pub word : List ℕ → Regex
word [] = done
word (c ∷ cs) = both (exactly c) (word cs)
