-- ===== src/Publisher/Document/Sound.antt =====
-- What an accepted document is: one root, one header, the expected name, distinct games.
use romd_dat_catalogs.Publisher.Document.Reading.{Reading, unread, read_tokens, walk-read_tokens}
use romd_dat_catalogs.Publisher.Document.{lower_ascii, ext, split_slash, same_codes}
use romd_dat_catalogs.Prelude.Parts.{has_part-false, has_prefix-false}
use romd_dat_catalogs.Prelude.Text.{codes}
use romd_dat_catalogs.Prelude.{
  ℕ, ◌%◌, ◌++◌, true, map, any, subst, sym, ap₂, nat_eq, ◌≤◌, ◌≡◌, refl, ap, ◌∙◌, ◌≢◌, inl, inr,
  String, false, Option, none, some, List, [], ◌∷◌, arith, contains, string_eq, length, All, ok,
  refuse_if, >>=-eq-ok, refuse_if-passed, Option-cases,
}
use romd_dat_catalogs.Publisher.{Bytes, Counts, Stream, max_input, max_document}
use romd_dat_catalogs.Publisher.Document.{
  Token, directive, start_element, end_element, char_data, other, Tokens, ZipFile, Formats, Walk,
  start_walk, place, header, game, rom, elsewhere, enter, open_root, visit, walk, scan, is_unsafe,
  extract, trim_mark, document, Attribute, Place, XmlName,
}

abbrev pub Distinct : List String → Type 0
Distinct [] = Unit
Distinct (x ∷ xs) = (contains xs x ≡ false) × Distinct xs

-- The games counted are the names seen: distinct, and none empty.
pub record IsCounted (w : Walk) : Type 0 where
  pub counted : length w.names ≡ w.counts.games
  pub distinct : Distinct w.names
  pub named : All (λ n. n ≢ "") w.names

enter-IsCounted :
    (p : Place) (attrs : List Attribute) (w : Walk) {w' : Walk}
    → IsCounted w
    → enter p attrs w ≡ ok w'
    → IsCounted w'
unfolding enter refuse_if
enter-IsCounted header attrs w h e = ground arith
enter-IsCounted game attrs w h e = ground arith
enter-IsCounted rom attrs w h e = ground arith
enter-IsCounted elsewhere attrs w h e = ground arith

open_root-IsCounted :
    (local : String) (w : Walk) {w' : Walk} → IsCounted w → open_root local w ≡ ok w' → IsCounted w'
unfolding open_root refuse_if
open_root-IsCounted local w h e = ground arith

visit_start-IsCounted :
    (n : XmlName) (attrs : List Attribute) (w : Walk) {w' : Walk}
    → IsCounted w
    → visit (start_element n attrs) w ≡ ok w'
    → IsCounted w'
unfolding visit
visit_start-IsCounted n attrs w h e =
    let (_, e₁) = refuse_if-passed _ _ _ e in
    let (_, e₂) = refuse_if-passed _ _ _ e₁ in
    let (opened, o, e₃) =
      >>=-eq-ok (open_root n.local (record w { stack = n.local ∷ w.stack })) _ e₂ in
    enter-IsCounted (place opened.stack) attrs opened
      (open_root-IsCounted n.local (record w { stack = n.local ∷ w.stack })
        (record { counted = h.counted; distinct = h.distinct; named = h.named }) o)
      e₃

visit-IsCounted :
    (t : Token) (w : Walk) {w' : Walk} → IsCounted w → visit t w ≡ ok w' → IsCounted w'
unfolding visit refuse_if
visit-IsCounted (directive d) w h e = ground arith
visit-IsCounted (start_element n attrs) w h e = visit_start-IsCounted n attrs w h e
visit-IsCounted end_element w h e = ground arith
visit-IsCounted (char_data t) w h e = ground arith
visit-IsCounted other w h e = ground arith

walk-IsCounted :
    (ts : List Token) (w : Walk) {w' : Walk} → IsCounted w → walk ts w ≡ ok w' → IsCounted w'
unfolding walk
walk-IsCounted [] w h e = ground arith
walk-IsCounted (t ∷ ts) w h e =
    let (w₁, e₁, e₂) = >>=-eq-ok (visit t w) _ e in
    walk-IsCounted ts w₁ (visit-IsCounted t w h e₁) e₂

-- What a scan that succeeds has seen: one root and one header, all closed, and in the reading of
-- the tokens the expected name, the games, distinct and none without a name, and the ROMs.
pub record IsAccepted (ts : Tokens) (expected : String) (counts : Counts) : Type 0 where
  pub final : Walk
  pub walked : walk ts.tokens start_walk ≡ ok final
  pub complete : ts.fails ≡ false
  pub closed : final.stack ≡ []
  pub one_root : final.roots ≡ 1
  pub one_header : final.headers ≡ 1
  pub identity : (read_tokens ts.tokens unread).title ≡ expected
  pub some_game : 1 ≤ counts.games
  pub games : length (read_tokens ts.tokens unread).games ≡ counts.games
  pub roms : (read_tokens ts.tokens unread).roms ≡ counts.roms
  pub distinct : Distinct (read_tokens ts.tokens unread).games
  pub named : All (λ n. n ≢ "") (read_tokens ts.tokens unread).games

pub scan-IsAccepted :
    (ts : Tokens) (expected : String) (counts : Counts)
    → scan ts expected ≡ ok counts
    → IsAccepted ts expected counts
unfolding scan refuse_if
scan-IsAccepted ts expected counts e =
    let (w, e₁, e₂) = >>=-eq-ok (walk ts.tokens start_walk) _ e in
    let v = walk-IsCounted ts.tokens start_walk (omega arith) e₁ in
    let same : w.counts ≡ counts = ground arith in
    let seen = walk-read_tokens ts.tokens start_walk w e₁ in
    let names : w.names ≡ (read_tokens ts.tokens unread).games =
      ap (λ (r : Reading). r.games) seen in
    let passed : w.name ≡ expected = ground arith in
    record {
      final = w;
      walked = e₁;
      complete = ground arith;
      closed = ground arith;
      one_root = ground arith;
      one_header = ground arith;
      identity = sym (ap (λ (r : Reading). r.title) seen) ∙ passed;
      some_game = ground arith;
      games = ap length (sym names) ∙ v.counted ∙ ap (λ k. k.games) same;
      roms = sym (ap (λ (r : Reading). r.roms) seen) ∙ ap (λ k. k.roms) same;
      distinct = subst Distinct names v.distinct;
      named = subst (All (λ n. n ≢ "")) names v.named;
    }

-- A file of an archive that is taken: a regular file, not encrypted, with the extension of a DAT
-- in either case, under a relative name with no backslash, of which no part is the parent
-- directory.
pub record IsSafeFile (f : ZipFile) : Type 0 where
  pub regular : f.is_regular ≡ true
  pub relative : (rest : List ℕ) → codes f.name ≢ codes "/" ++ rest
  pub no_backslash : (xs ys : List ℕ) → codes f.name ≢ xs ++ (codes "\\" ++ ys)
  pub extension : map lower_ascii (ext [] (codes f.name)) ≡ codes ".dat"
  pub clear : f.flags % 2 ≢ 1
  pub no_parent : All (λ part. part ≢ codes "..") (split_slash [] (codes f.name))

same_codes-true : (xs ys : List ℕ) → same_codes xs ys ≡ true → xs ≡ ys
unfolding same_codes nat_eq
same_codes-true [] [] h = refl
same_codes-true [] (y ∷ ys) h = absurd cc
same_codes-true (x ∷ xs) [] h = absurd cc
same_codes-true (x ∷ xs) (y ∷ ys) h =
    let head : x ≡ y = ground (arith, h) in
    ap₂ (λ a b. a ∷ b) head (same_codes-true xs ys (ground (arith, h)))

same_codes_refl : (xs : List ℕ) → same_codes xs xs ≡ true
unfolding same_codes
same_codes_refl [] = refl
same_codes_refl (x ∷ xs) = ground (arith, same_codes_refl xs)

no_parent-any :
    (parts : List (List ℕ))
    → any (λ part. same_codes part (codes "..")) parts ≡ false
    → All (λ part. part ≢ codes "..") parts
no_parent-any [] h = tt
no_parent-any (part ∷ parts) h =
    let here : same_codes part (codes "..") ≡ false = ground (arith, h) in
    (
      λ e.
          let again = same_codes_refl (codes "..") in
          let there : same_codes (codes "..") (codes "..") ≡ false = rw e at here in absurd cc,
      no_parent-any parts (ground (arith, h)),
    )

is_unsafe-IsSafeFile : (f : ZipFile) → is_unsafe f ≡ false → IsSafeFile f
unfolding is_unsafe
is_unsafe-IsSafeFile f h = record {
  regular = ground (arith, h);
  relative = has_prefix-false (codes f.name) (codes "/") (ground (arith, h));
  no_backslash = has_part-false (codes f.name) (codes "\\") (ground (arith, h));
  extension =
      same_codes-true (map lower_ascii (ext [] (codes f.name))) (codes ".dat") (ground (arith, h));
  clear = ground (arith, h);
  no_parent = no_parent-any (split_slash [] (codes f.name)) (ground (arith, h));
}

-- Where the bytes of an accepted document come from.
pub data IsExtract (formats : Formats) (raw b : Bytes) : Type 0 where
  plain : formats.unzip raw ≡ none → b ≡ raw → IsExtract formats raw b
  member :
      (f : ZipFile) (s : Stream)
      → formats.unzip raw ≡ some (f ∷ [])
      → IsSafeFile f
      → f.content ≡ some s
      → s.delivered ≡ b
      → IsExtract formats raw b

extract-IsExtract :
    (formats : Formats) (raw b : Bytes) (z : Option (List ZipFile))
    → formats.unzip raw ≡ z
    → extract z raw ≡ ok b
    → IsExtract formats raw b
unfolding extract refuse_if
extract-IsExtract formats raw b none z e = plain z (ground arith)
extract-IsExtract formats raw b (some []) z e = cc
extract-IsExtract formats raw b (some (f ∷ [])) z e = elim (Option-cases f.content) [
  | inl gone ↦ absurd (ground arith)
  | inr (s, held) ↦ member f s z (is_unsafe-IsSafeFile f (ground arith)) held (ground arith)
]
extract-IsExtract formats raw b (some (f ∷ g ∷ fs)) z e = cc

-- An accepted document is the input, or the one file of the input archive under a safe name,
-- unchanged; it keeps to the limits; its text has one root and one header, the name in the header
-- is the expected one, the games directly below the root have distinct names, none empty, and the
-- counts that are returned are those of these games and of the ROMs directly below them.
pub document_sound :
    (formats : Formats) (raw b : Bytes) (expected : String) (counts : Counts)
    → document formats raw expected ≡ ok (b, counts)
    → IsExtract formats raw b
      × (length raw ≤ max_input)
      × (length b ≤ max_document)
      × IsAccepted (formats.xml_tokens (trim_mark b)) expected counts
unfolding document
document_sound formats raw b expected counts e =
    let (small, e₁) = refuse_if-passed _ _ _ e in
    let (raw', x, e₂) = >>=-eq-ok (extract (formats.unzip raw) raw) _ e₁ in
    let (fits, e₃) = refuse_if-passed _ _ _ e₂ in
    let (c, sc, e₄) = >>=-eq-ok (scan (formats.xml_tokens (trim_mark raw')) expected) _ e₃ in
    let same : raw' ≡ b = cc in
    (
      extract-IsExtract formats raw b _ refl (x ∙ ap ok same),
      ground arith,
      ground arith,
      scan-IsAccepted _ expected counts (cc),
    )
