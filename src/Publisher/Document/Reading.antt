-- ===== src/Publisher/Document/Reading.antt =====
-- What a document's tokens say, read without the checks: the header's name, the games and their
-- ROMs, each at its place below the root.
use romd_dat_catalogs.Prelude.{
  ℕ, ◌+◌, ◌≡◌, refl, ap, sym, ◌∙◌, String, ◌<>◌, Bool, true, false, ◌&&◌, List, [], ◌∷◌, arith,
  ◌==◌, if◌then◌else◌, string_eq, nat_eq, Result, ok, refuse_if, refuse_if-passed, >>=-eq-ok,
}
use romd_dat_catalogs.Publisher.Document.{
  Token, directive, start_element, end_element, char_data, other, Walk, Attribute, Place, header,
  game, rom, elsewhere, XmlName, game_name, place, in_name, enter, open_root, visit, walk,
}

-- The elements that are open, the innermost first, and what was read.
pub record Reading : Type 0 where
  pub stack : List String
  pub title : String
  pub games : List String
  pub roms : ℕ

abbrev pub unread : Reading
unread = record { stack = []; title = ""; games = []; roms = 0 }

-- The open elements lie below the root, one in the other; the path names the innermost first.
abbrev pub is_at : List String → List String → Bool
is_at [] path = false
is_at (root ∷ []) [] = true
is_at (root ∷ []) (p ∷ path) = false
is_at (x ∷ y ∷ stack) [] = false
is_at (x ∷ y ∷ stack) (p ∷ path) = x == p && is_at (y ∷ stack) path

abbrev close : List String → List String
close [] = []
close (x ∷ stack) = stack

abbrev open_element : String → List Attribute → List String → Reading → Reading
open_element local attrs stack r = record {
  stack = stack;
  title = r.title;
  games = if is_at stack ("game" ∷ []) then game_name "" attrs ∷ r.games else r.games;
  roms = if is_at stack ("rom" ∷ "game" ∷ []) then r.roms + 1 else r.roms;
}

abbrev pub read_token : Token → Reading → Reading
read_token (directive d) r = r
read_token (start_element n attrs) r = open_element n.local attrs (n.local ∷ r.stack) r
read_token end_element r = record r { stack = close r.stack }
read_token (char_data t) r = record r {
  title = if is_at r.stack ("name" ∷ "header" ∷ []) then r.title <> t else r.title;
}
read_token other r = r

unfoldable pub read_tokens : List Token → Reading → Reading
read_tokens [] r = r
read_tokens (t ∷ ts) r = read_tokens ts (read_token t r)

-- What the loop's variables hold of a reading.
abbrev pub reading_of : Walk → Reading
reading_of w = record { stack = w.stack; title = w.name; games = w.names; roms = w.counts.roms }

in_name-is_at : (stack : List String) → in_name stack ≡ is_at stack ("name" ∷ "header" ∷ [])
unfolding in_name
in_name-is_at [] = refl
in_name-is_at (x ∷ []) = refl
in_name-is_at (x ∷ y ∷ []) = ground arith
in_name-is_at (x ∷ y ∷ z ∷ []) = ground arith
in_name-is_at (x ∷ y ∷ z ∷ u ∷ l) = ground arith

is_game : Place → Bool
is_game game = true
is_game header = false
is_game rom = false
is_game elsewhere = false

is_rom : Place → Bool
is_rom rom = true
is_rom game = false
is_rom header = false
is_rom elsewhere = false

header_game : ◌==◌ {A = String} "header" "game" ≡ false
unfolding string_eq
header_game = refl

not_game : (x : String) → x ≡ "header" → (x == "game") ≡ false
not_game x e = ap (λ y. y == "game") e ∙ header_game

place-is_game : (stack : List String) → is_game (place stack) ≡ is_at stack ("game" ∷ [])
unfolding is_game place
place-is_game [] = refl
place-is_game (x ∷ []) = refl
place-is_game (x ∷ y ∷ []) = elim (string_eq.dec x "header") [
  | yes e ↦ let f = not_game x e in ground (arith, e, f)
  | no n ↦ ground (arith, n)
]
place-is_game (x ∷ y ∷ z ∷ []) = ground arith
place-is_game (x ∷ y ∷ z ∷ u ∷ l) = ground arith

place-is_rom : (stack : List String) → is_rom (place stack) ≡ is_at stack ("rom" ∷ "game" ∷ [])
unfolding is_rom place
place-is_rom [] = refl
place-is_rom (x ∷ []) = refl
place-is_rom (x ∷ y ∷ []) = ground arith
place-is_rom (x ∷ y ∷ z ∷ []) = ground arith
place-is_rom (x ∷ y ∷ z ∷ u ∷ l) = ground arith

-- What entering an element changes of a reading.
record Enters (is_game is_rom : Bool) (attrs : List Attribute) (w w' : Walk) : Type 0 where
  stack : w'.stack ≡ w.stack
  title : w'.name ≡ w.name
  games : w'.names ≡ (if is_game then game_name "" attrs ∷ w.names else w.names)
  roms : w'.counts.roms ≡ (if is_rom then w.counts.roms + 1 else w.counts.roms)

enter-Enters :
    (p : Place) (attrs : List Attribute) (w w' : Walk)
    → enter p attrs w ≡ ok w'
    → Enters (is_game p) (is_rom p) attrs w w'
unfolding enter refuse_if is_game is_rom
enter-Enters header attrs w w' e = record {
  stack = ground arith;
  title = ground arith;
  games = ground arith;
  roms = ground arith;
}
enter-Enters game attrs w w' e = record {
  stack = ground arith;
  title = ground arith;
  games = ground arith;
  roms = ground arith;
}
enter-Enters rom attrs w w' e = record {
  stack = ground arith;
  title = ground arith;
  games = ground arith;
  roms = ground arith;
}
enter-Enters elsewhere attrs w w' e = record {
  stack = ground arith;
  title = ground arith;
  games = ground arith;
  roms = ground arith;
}

same_reading :
    (a b : Reading)
    → a.stack ≡ b.stack
    → a.title ≡ b.title
    → a.games ≡ b.games
    → a.roms ≡ b.roms
    → a ≡ b
same_reading a b s t g r = λ i. record { stack = s i; title = t i; games = g i; roms = r i }

open_root-reading :
    (local : String) (w w' : Walk) → open_root local w ≡ ok w' → reading_of w' ≡ reading_of w
unfolding open_root refuse_if
open_root-reading local w w' e =
    same_reading (reading_of w') (reading_of w) (ground arith) (ground arith) (ground arith)
      (ground arith)

visit-start :
    (n : XmlName) (attrs : List Attribute) (w w' : Walk)
    → visit (start_element n attrs) w ≡ ok w'
    → reading_of w' ≡ read_token (start_element n attrs) (reading_of w)
unfolding visit
visit-start n attrs w w' e =
    let (_, e₁) = refuse_if-passed _ _ _ e in
    let (_, e₂) = refuse_if-passed _ _ _ e₁ in
    let pushed : Walk = record w { stack = n.local ∷ w.stack } in
    let (opened, o, e₃) = >>=-eq-ok (open_root n.local pushed) _ e₂ in
    let k = open_root-reading n.local pushed opened o in
    let f = enter-Enters (place opened.stack) attrs opened w' e₃ in
    let at : opened.stack ≡ n.local ∷ w.stack = ap (λ (r : Reading). r.stack) k in
    let games : opened.names ≡ w.names = ap (λ (r : Reading). r.games) k in
    let roms : opened.counts.roms ≡ w.counts.roms = ap (λ (r : Reading). r.roms) k in
    let entered = f.games in
    let counted = f.roms in
    let p = place-is_game (n.local ∷ w.stack) in
    let q = place-is_rom (n.local ∷ w.stack) in
    same_reading (reading_of w') (read_token (start_element n attrs) (reading_of w)) (f.stack ∙ at)
      (f.title ∙ ap (λ (r : Reading). r.title) k)
      (entered
        ∙ ap (λ s. if is_game (place s) then game_name "" attrs ∷ opened.names else opened.names) at
        ∙ ap (λ b. if b then game_name "" attrs ∷ opened.names else opened.names) p
        ∙ ap (λ l. if is_at (n.local ∷ w.stack) ("game" ∷ []) then game_name "" attrs ∷ l else l)
            games)
      (counted
        ∙ ap (λ s. if is_rom (place s) then opened.counts.roms + 1 else opened.counts.roms) at
        ∙ ap (λ b. if b then opened.counts.roms + 1 else opened.counts.roms) q
        ∙ ap (λ m. if is_at (n.local ∷ w.stack) ("rom" ∷ "game" ∷ []) then m + 1 else m) roms)

visit-end :
    (w w' : Walk)
    → visit end_element w ≡ ok w'
    → reading_of w' ≡ read_token end_element (reading_of w)
unfolding visit
visit-end w w' e =
    same_reading (reading_of w') (read_token end_element (reading_of w)) (ground arith)
      (ground arith) (ground arith) (ground arith)

visit-text :
    (t : String) (w w' : Walk)
    → visit (char_data t) w ≡ ok w'
    → reading_of w' ≡ read_token (char_data t) (reading_of w)
unfolding visit
visit-text t w w' e =
    let (_, e₁) = refuse_if-passed _ _ _ e in
    let k = in_name-is_at w.stack in
    same_reading (reading_of w') (read_token (char_data t) (reading_of w)) (ground (arith, e₁))
      (ground (arith, e₁, k)) (ground (arith, e₁)) (ground (arith, e₁))

ok-injective : (w w' : Walk) → ◌≡◌ {A = Result Walk} (ok w) (ok w') → w ≡ w'
ok-injective w w' e = cc

visit-read_token :
    (t : Token) (w w' : Walk) → visit t w ≡ ok w' → reading_of w' ≡ read_token t (reading_of w)
unfolding visit
visit-read_token (directive d) w w' e =
    let (_, e₁) = refuse_if-passed _ _ _ e in ap reading_of (sym (ok-injective w w' e₁))
visit-read_token (start_element n attrs) w w' e = visit-start n attrs w w' e
visit-read_token end_element w w' e = visit-end w w' e
visit-read_token (char_data t) w w' e = visit-text t w w' e
visit-read_token other w w' e = ap reading_of (sym (ok-injective w w' e))

-- A walk that succeeds has read what the tokens say.
pub walk-read_tokens :
    (ts : List Token) (w w' : Walk)
    → walk ts w ≡ ok w'
    → reading_of w' ≡ read_tokens ts (reading_of w)
unfolding walk read_tokens
walk-read_tokens [] w w' e = ap reading_of (sym (ok-injective w w' e))
walk-read_tokens (t ∷ ts) w w' e =
    let (w₁, e₁, e₂) = >>=-eq-ok (visit t w) _ e in
    walk-read_tokens ts w₁ w' e₂ ∙ ap (read_tokens ts) (visit-read_token t w w₁ e₁)
