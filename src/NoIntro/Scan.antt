-- ===== src/NoIntro/Scan.antt =====
-- internal/nointro/forms.go: the regular expressions that find the tags and attributes of a page.
-- Each of them matches in one way at most from a given place, so it is a scanner; `[^>]*` and its
-- like run to the first code point that they exclude.
use romd_dat_catalogs.Prelude.{
  ℕ, zero, suc, ◌+◌, String, Bool, true, not, ◌&&◌, ◌||◌, Option, none, some, List, [], ◌∷◌, leb,
  if◌then◌else◌, ◌==◌, string_eq, nat_eq,
}
use Prim.Native.Char.{code}

-- `\s`
unfoldable pub is_gap : ℕ → Bool
unfolding nat_eq
is_gap c = c == 9 || c == 10 || c == 12 || c == 13 || c == 32

-- What `\b` tests behind a letter.
unfoldable pub is_word : ℕ → Bool
unfolding nat_eq
is_word c =
    (leb b'0' c && leb c b'9')
    || (leb b'a' c && leb c b'z')
    || (leb b'A' c && leb c b'Z')
    || c == b'_'

-- `(?i)` at a small letter: of those used, only `s` has a third form, the long s.
abbrev folds_to : ℕ → ℕ → Bool
folds_to letter c =
    c == letter
    || (leb b'a' letter && leb letter b'z' && c + 32 == letter)
    || (letter == b's' && c == 0x17F)

unfoldable pub take_until : (ℕ → Bool) → String → String
take_until stop String.[] = ""
take_until stop (String.◌∷◌ c s) =
    let rest = take_until stop s in if stop (code c) then "" else String.◌∷◌ c rest

unfoldable pub drop_until : (ℕ → Bool) → String → String
drop_until stop String.[] = ""
drop_until stop (String.◌∷◌ c s) =
    let rest = drop_until stop s in if stop (code c) then String.◌∷◌ c s else rest

-- What is left behind a word, in either case.
unfoldable pub behind : List ℕ → String → Option String
unfolding nat_eq
behind [] s = some s
behind (l ∷ ls) String.[] = none
behind (l ∷ ls) (String.◌∷◌ c s) = if folds_to l (code c) then behind ls s else none

abbrev at_boundary : String → Bool
at_boundary String.[] = true
at_boundary (String.◌∷◌ c s) = not (is_word (code c))

abbrev exactly : ℕ → ℕ → Bool
exactly a c = c == a

-- `([^>]*)>`
abbrev attribute_text : String → String → Option (String × String)
attribute_text raw String.[] = none
attribute_text raw (String.◌∷◌ c s) = some (raw, s)

abbrev tag_rest : Option String → Option (String × String)
tag_rest none = none
tag_rest (some s) =
    if at_boundary s
    then attribute_text (take_until (exactly b'>') s) (drop_until (exactly b'>') s)
    else none

-- `<word\b([^>]*)>`: the attributes, and what is left behind the tag.
unfoldable pub open_tag : List ℕ → String → Option (String × String)
unfolding behind take_until drop_until is_word nat_eq
open_tag tag s = tag_rest (behind (b'<' ∷ tag) s)

abbrev closed : String → Option String
closed String.[] = none
closed (String.◌∷◌ c s) = if code c == b'>' then some s else none

abbrev close_rest : Option String → Option String
close_rest none = none
close_rest (some s) = closed (drop_until (λ c. not (is_gap c)) s)

-- `</word\s*>`
unfoldable pub close_tag : List ℕ → String → Option String
unfolding behind drop_until is_gap nat_eq
close_tag tag s = close_rest (behind (b'<' ∷ b'/' ∷ tag) s)

abbrev content_or : Option String → String → Option (String × String) → Option (String × String)
content_or (some rest) s later = some ("", rest)
content_or none String.[] later = none
content_or none (String.◌∷◌ c s) none = none
content_or none (String.◌∷◌ c s) (some (content, rest)) = some (String.◌∷◌ c content, rest)

-- `(.*?)</word\s*>`
unfoldable pub content_of : List ℕ → String → Option (String × String)
unfolding close_tag
content_of tag String.[] = content_or (close_tag tag "") "" none
content_of tag (String.◌∷◌ c s) =
    content_or (close_tag tag (String.◌∷◌ c s)) (String.◌∷◌ c s) (content_of tag s)

abbrev pair_up : String → Option (String × String) → Option ((String × String) × String)
pair_up raw none = none
pair_up raw (some (content, rest)) = some ((raw, content), rest)

-- `forms` from here.
abbrev form_at : Option (String × String) → Option ((String × String) × String)
form_at none = none
form_at (some (raw, s)) = pair_up raw (content_of (b'f' ∷ b'o' ∷ b'r' ∷ b'm' ∷ []) s)

abbrev label_end : String → String → Option String → Option ((String × String) × String)
label_end raw label none = none
label_end raw label (some rest) = some ((raw, label), rest)

abbrev option_tag : List ℕ
option_tag = b'o' ∷ b'p' ∷ b't' ∷ b'i' ∷ b'o' ∷ b'n' ∷ []

-- `options` from here.
abbrev option_at : Option (String × String) → Option ((String × String) × String)
option_at none = none
option_at (some (raw, s)) =
    label_end raw (take_until (exactly b'<') s) (close_tag option_tag (drop_until (exactly b'<') s))

abbrev continue_with : {A : Type 0} → Option (A × String) → String → Option A × String
continue_with none String.[] = (none, "")
continue_with none (String.◌∷◌ c s) = (none, s)
continue_with (some (a, rest)) s = (some a, rest)

abbrev emit : {A : Type 0} → Option A → List A → List A
emit none l = l
emit (some a) l = a ∷ l

-- The matches from left to right, each from behind the one before; one unit of fuel for a code
-- point.
unfoldable pub find_all : {A : Type 0} → (String → Option (A × String)) → ℕ → String → List A
find_all at zero s = []
find_all at (suc fuel) s =
    let next = continue_with (at s) s in emit next.0 (find_all at fuel next.1)

unfoldable pub size : String → ℕ
size String.[] = 0
size (String.◌∷◌ c s) = suc (size s)

-- `FindAllStringSubmatch(s, -1)`
unfoldable pub matches_in : {A : Type 0} → (String → Option (A × String)) → String → List A
unfolding find_all size
matches_in at s = find_all at (size s) s

unfoldable pub forms : String → List (String × String)
unfolding matches_in open_tag content_of
forms = matches_in (λ s. form_at (open_tag (b'f' ∷ b'o' ∷ b'r' ∷ b'm' ∷ []) s))

unfoldable pub inputs : String → List String
unfolding matches_in open_tag
inputs = matches_in (open_tag (b'i' ∷ b'n' ∷ b'p' ∷ b'u' ∷ b't' ∷ []))

unfoldable pub selects : String → List String
unfolding matches_in open_tag
selects = matches_in (open_tag (b's' ∷ b'e' ∷ b'l' ∷ b'e' ∷ b'c' ∷ b't' ∷ []))

unfoldable pub options : String → List (String × String)
unfolding matches_in open_tag close_tag take_until drop_until nat_eq
options = matches_in (λ s. option_at (open_tag option_tag s))
