-- ===== src/NoIntro/Sound.antt =====
-- What an accepted No-Intro catalog says of each of its files.
use romd_dat_catalogs.Prelude.{
  ℕ, ◌≤◌, String, true, false, not, List, [], ◌∷◌, contains, string_eq, nat_eq, Result, ok,
  refuse_if-passed, >>=-eq-ok, ok-injective_pair, ◌≡◌, ◌≢◌, sym, subst, ap, ◌∙◌, arith, All,
}
use romd_dat_catalogs.Prelude.Text.{bytes}
use romd_dat_catalogs.Publisher.{Bytes, Counts}
use romd_dat_catalogs.Publisher.Document.{Formats, document, trim_mark}
use romd_dat_catalogs.Definitions.{Catalog}
use romd_dat_catalogs.NoIntro.{
  Rom, Parsed, is_hex, is_uint, good_hash, good_rom, good_roms, good_games, good_header, validate,
}

-- A hash of so many hexadecimal digits.
abbrev pub IsHash : ℕ → String → Type 0
IsHash n s = (bytes s ≡ n) × (is_hex s ≡ true)

-- A file with a name, and with a size and hashes unless there is no dump of it. The SHA-256 may
-- lack.
pub record IsRom (r : Rom) : Type 0 where
  pub named : r.name ≢ ""
  pub dumped :
      r.status ≢ "nodump"
      → (is_uint r.size ≡ true) × IsHash 8 r.crc × IsHash 32 r.md5 × IsHash 40 r.sha1
  pub given : r.sha256 ≢ "" → IsHash 64 r.sha256

-- No two files of a game have the same name.
abbrev pub Nodup : List String → List Rom → Type 0
Nodup seen [] = Unit
Nodup seen (r ∷ rest) = (contains seen r.name ≡ false) × Nodup (r.name ∷ seen) rest

good_rom-IsRom : (r : Rom) → r.name ≢ "" → good_rom r ≡ true → IsRom r
unfolding good_rom good_hash string_eq nat_eq
good_rom-IsRom r n e = record {
  named = n;
  dumped = λ d. ground (arith, e, d);
  given = λ g. ground (arith, e, g);
}

good_roms-IsRom :
    (seen : List String) (l : List Rom) → good_roms seen l ≡ true → All IsRom l × Nodup seen l
unfolding good_roms
good_roms-IsRom seen [] e = (tt, tt)
good_roms-IsRom seen (r ∷ rest) e =
    let later = good_roms-IsRom (r.name ∷ seen) rest (ground (arith, e)) in
    (
      (good_rom-IsRom r (ground (arith, e)) (ground (arith, e)), later.0),
      (ground (arith, e), later.1),
    )

-- A game with files, each of them good, no two of one name.
pub record IsGame (l : List Rom) : Type 0 where
  pub filled : l ≢ []
  pub roms : All IsRom l
  pub nodup : Nodup [] l

good_games-IsGame : (l : List (List Rom)) → good_games l ≡ true → All IsGame l
unfolding good_games
good_games-IsGame [] e = tt
good_games-IsGame ([] ∷ rest) e = absurd cc
good_games-IsGame ((r ∷ rs) ∷ rest) e =
    let (roms, nodup) = good_roms-IsRom [] (r ∷ rs) (ground (arith, e)) in
    (
      record { filled = λ k. cc; roms = roms; nodup = nodup },
      good_games-IsGame rest (ground (arith, e)),
    )

ids-eq :
    (p : Parsed) (c : Catalog) → not (good_header p c) ≡ false → p.ids ≡ c.provider_system_id ∷ []
unfolding good_header string_eq
ids-eq p c h = ground (arith, h)

-- An accepted catalog is a document that the publisher accepts under the reviewed name, unchanged,
-- with no fewer games and files than reviewed; its header names the reviewed system, and every
-- game has files, no two of one name, each with a size and hashes of the right form unless it has
-- no dump.
pub validate_sound :
    (formats : Formats) (unmarshal : Bytes → Result Parsed) (raw : Bytes) (c : Catalog)
    (doc : Bytes) (counts : Counts)
    → validate formats unmarshal raw c ≡ ok (doc, counts)
    → (document formats raw c.expected_name ≡ ok (doc, counts))
      × (c.minimum_games ≤ counts.games)
      × (c.minimum_roms ≤ counts.roms)
      × (p : Parsed) × (unmarshal (trim_mark doc) ≡ ok p)
      × (p.ids ≡ c.provider_system_id ∷ [])
      × All IsGame p.games
unfolding validate
validate_sound formats unmarshal raw c doc counts e =
    let ((doc₁, counts₁), e₁, k₁) = >>=-eq-ok (document formats raw c.expected_name) _ e in
    let (floors, k₂) = refuse_if-passed _ _ _ k₁ in
    let (p, e₃, k₃) = >>=-eq-ok (unmarshal (trim_mark doc₁)) _ k₂ in
    let (header, k₄) = refuse_if-passed _ _ _ k₃ in
    let (games, k₅) = refuse_if-passed _ _ _ k₄ in
    let (same, same_counts) = ok-injective_pair k₅ in
    (
      e₁ ∙ k₅,
      subst (λ n. c.minimum_games ≤ n.games) same_counts (ground (arith, floors)),
      subst (λ n. c.minimum_roms ≤ n.roms) same_counts (ground (arith, floors)),
      p,
      ap (λ d. unmarshal (trim_mark d)) (sym same) ∙ e₃,
      ids-eq p c header,
      good_games-IsGame p.games (ground (arith, games)),
    )
