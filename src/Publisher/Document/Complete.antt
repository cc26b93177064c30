-- ===== src/Publisher/Document/Complete.antt =====
-- Every well-formed catalog document is accepted, with its games and ROMs counted.
use Prim.Native.String.append
use mathlib.Core.Path.{ap₂}
use romd_dat_catalogs.Prelude.{
  ℕ, zero, suc, ◌+◌, ◌<◌, ◌≡◌, refl, ap, ◌∙◌, ◌≢◌, String, false, List, [], ◌∷◌, arith, contains,
  string_eq, nat_eq, length, ok, refuse_if,
}
use romd_dat_catalogs.Publisher.Document.{
  XmlName, XmlName-discrete, Token, start_element, end_element, char_data, Walk, visit, enter,
  open_root, walk, scan, start_walk,
}

-- A catalog: its name, and each game's name with its number of ROMs.
pub record Dat : Type 0 where
  pub name : String
  pub games : List (String × ℕ)

abbrev plain : String → XmlName
plain n = record { space = ""; local = n }

abbrev open_tag : String → Token
open_tag n = start_element (plain n) []

abbrev rom_tokens : ℕ → List Token → List Token
rom_tokens zero rest = rest
rom_tokens (suc n) rest = open_tag "rom" ∷ end_element ∷ rom_tokens n rest

abbrev game_tokens : List (String × ℕ) → List Token → List Token
game_tokens [] rest = rest
game_tokens ((g, n) ∷ games) rest =
    start_element (plain "game") (record { name = plain "name"; value = g } ∷ [])
    ∷ rom_tokens n (end_element ∷ game_tokens games rest)

-- The document's tokens, as a DAT file has them.
abbrev pub render : Dat → List Token
render d =
    open_tag "datafile"
    ∷ open_tag "header"
    ∷ open_tag "name"
    ∷ char_data d.name
    ∷ end_element
    ∷ end_element
    ∷ game_tokens d.games (end_element ∷ [])

abbrev pub rom_total : List (String × ℕ) → ℕ
rom_total [] = 0
rom_total ((g, n) ∷ games) = n + rom_total games

-- Each game has a name, which differs from those before it.
abbrev pub IsFresh : List String → List (String × ℕ) → Type 0
IsFresh seen [] = Unit
IsFresh seen ((g, n) ∷ games) = (g ≢ "") × (contains seen g ≡ false) × IsFresh (g ∷ seen) games

abbrev all_seen : List String → List (String × ℕ) → List String
all_seen seen [] = seen
all_seen seen ((g, n) ∷ games) = all_seen (g ∷ seen) games

abbrev inside : List String → String → List String → ℕ → ℕ → Walk
inside stack name seen games roms = record {
  stack = stack;
  headers = 1;
  roots = 1;
  name = name;
  names = seen;
  counts = record { games = games; roms = roms };
}

walk-rom_tokens :
    (n : ℕ) (rest : List Token) (name : String) (seen : List String) (g r : ℕ)
    → walk (rom_tokens n rest) (inside ("game" ∷ "datafile" ∷ []) name seen g r)
      ≡ walk rest (inside ("game" ∷ "datafile" ∷ []) name seen g (r + n))
unfolding walk visit enter open_root refuse_if string_eq nat_eq XmlName-discrete
walk-rom_tokens zero rest name seen g r =
    ap (λ k. walk rest (inside ("game" ∷ "datafile" ∷ []) name seen g k)) (omega arith)
walk-rom_tokens (suc n) rest name seen g r =
    walk-rom_tokens n rest name seen g (r + 1)
    ∙ ap (λ k. walk rest (inside ("game" ∷ "datafile" ∷ []) name seen g k)) (omega arith)

enter_game :
    (x : String) (rest : List Token) (name : String) (seen : List String) (g r : ℕ)
    → x ≢ ""
    → contains seen x ≡ false
    → walk
        (start_element (plain "game") (record { name = plain "name"; value = x } ∷ []) ∷ rest)
        (inside ("datafile" ∷ []) name seen g r)
      ≡ walk rest (inside ("game" ∷ "datafile" ∷ []) name (x ∷ seen) (g + 1) r)
unfolding walk visit enter open_root refuse_if string_eq nat_eq XmlName-discrete
enter_game x rest name seen g r fresh new = ground arith

leave_game :
    (rest : List Token) (name : String) (seen : List String) (g r : ℕ)
    → walk (end_element ∷ rest) (inside ("game" ∷ "datafile" ∷ []) name seen g r)
      ≡ walk rest (inside ("datafile" ∷ []) name seen g r)
unfolding walk visit
leave_game rest name seen g r = refl

walk-game_tokens :
    (games : List (String × ℕ)) (rest : List Token) (name : String) (seen : List String) (g r : ℕ)
    → IsFresh seen games
    → walk (game_tokens games rest) (inside ("datafile" ∷ []) name seen g r)
      ≡ walk rest (
          inside
            ("datafile" ∷ [])
            name
            (all_seen seen games)
            (g + length games)
            (r + rom_total games))
walk-game_tokens [] rest name seen g r h =
    ap₂ (λ i k. walk rest (inside ("datafile" ∷ []) name seen i k)) (omega arith) (omega arith)
walk-game_tokens ((x, n) ∷ games) rest name seen g r (named, new, h) =
    enter_game x (rom_tokens n (end_element ∷ game_tokens games rest)) name seen g r named new
    ∙ walk-rom_tokens n (end_element ∷ game_tokens games rest) name (x ∷ seen) (g + 1) r
    ∙ leave_game (game_tokens games rest) name (x ∷ seen) (g + 1) (r + n)
    ∙ walk-game_tokens games rest name (x ∷ seen) (g + 1) (r + n) h
    ∙ ap₂ (λ i k. walk rest (inside ("datafile" ∷ []) name (all_seen (x ∷ seen) games) i k))
        (omega arith) (omega arith)

enter_header :
    (name : String) (rest : List Token)
    → walk
        (open_tag "datafile"
          ∷ open_tag "header"
          ∷ open_tag "name"
          ∷ char_data name
          ∷ end_element
          ∷ end_element
          ∷ rest)
        start_walk
      ≡ walk rest (inside ("datafile" ∷ []) name [] 0 0)
unfolding walk visit enter open_root refuse_if string_eq nat_eq
enter_header name rest = ap (λ n. walk rest (inside ("datafile" ∷ []) n [] 0 0)) (append.nil name)

leave_root :
    (name : String) (seen : List String) (g r : ℕ)
    → walk (end_element ∷ []) (inside ("datafile" ∷ []) name seen g r)
      ≡ ok (inside [] name seen g r)
unfolding walk visit
leave_root name seen g r = refl

walk-render :
    (d : Dat)
    → IsFresh [] d.games
    → walk (render d) start_walk
      ≡ ok (inside [] d.name (all_seen [] d.games) (0 + length d.games) (0 + rom_total d.games))
walk-render d fresh =
    enter_header d.name (game_tokens d.games (end_element ∷ []))
    ∙ walk-game_tokens d.games (end_element ∷ []) d.name [] 0 0 fresh
    ∙ leave_root d.name _ _ _

finish :
    (name : String) (seen : List String) (g r : ℕ) (ts : List Token)
    → walk ts start_walk ≡ ok (inside [] name seen g r)
    → 0 < g
    → scan (record { tokens = ts; fails = false }) name ≡ ok (record { games = g; roms = r })
unfolding scan refuse_if
finish name seen g r ts e h = rw e (ground arith)

-- A well-formed document with the expected name and at least one game, whose games have distinct
-- names, none empty, is accepted, and its games and ROMs are counted.
pub scan-render :
    (d : Dat)
    → 0 < length d.games
    → IsFresh [] d.games
    → scan (record { tokens = render d; fails = false }) d.name
      ≡ ok (record { games = length d.games; roms = rom_total d.games })
scan-render d some_game fresh =
    finish d.name (all_seen [] d.games) _ _ (render d) (walk-render d fresh) (omega arith)
    ∙ ap₂ (λ g r. ok (record { games = g; roms = r })) (omega arith) (omega arith)
