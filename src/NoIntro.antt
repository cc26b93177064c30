-- ===== src/NoIntro.antt =====
-- internal/nointro/document.go: what a No-Intro catalog must be beside a document.
pub mod Sound
pub mod Scan
pub mod Forms
pub mod Acquire
pub mod Attributes
use romd_dat_catalogs.Prelude.{
  ℕ, String, Bool, true, false, not, ◌&&◌, ◌||◌, Option, none, some, List, [], ◌∷◌, all, length,
  ltb, leb, if◌then◌else◌, ◌==◌, contains, string_eq, nat_eq, Result, ok, err, ◌>>=◌, ◌>>◌,
  refuse_if,
}
use romd_dat_catalogs.Prelude.Text.{codes, bytes, is_blank}
use romd_dat_catalogs.Publisher.{Bytes, Counts}
use romd_dat_catalogs.Publisher.Document.{Formats, document, trim_mark}
use romd_dat_catalogs.Definitions.{Catalog}
use romd_dat_catalogs.Redump.Retry.{parse_uint, is_number}

-- What encoding/xml decodes of a document.
pub record Rom : Type 0 where
  pub name : String
  pub size : String
  pub crc : String
  pub md5 : String
  pub sha1 : String
  pub sha256 : String
  pub status : String

pub record Parsed : Type 0 where
  pub ids : List String
  pub versions : List String
  pub homepage : String
  pub games : List (List Rom)

-- `hex.DecodeString` of a text of even length.
unfoldable pub is_hex : String → Bool
is_hex s =
    all
      (λ c. (leb b'0' c && leb c b'9') || (leb b'a' c && leb c b'f') || (leb b'A' c && leb c b'F'))
      (codes s)

abbrev is_some : Option ℕ → Bool
is_some none = false
is_some (some n) = true

-- `strconv.ParseUint(s, 10, 64)` succeeds.
unfoldable pub is_uint : String → Bool
is_uint s = is_number s && is_some (parse_uint s)

-- One entry of the map of hashes.
unfoldable pub good_hash : String → ℕ → String → Bool
good_hash status size value =
    (value == "" && (status == "nodump" || size == 64)) || (bytes value == size && is_hex value)

unfoldable pub good_status : String → Bool
good_status s = s == "" || s == "verified" || s == "baddump" || s == "nodump"

unfoldable pub good_rom : Rom → Bool
unfolding good_hash
good_rom r =
    (is_uint r.size || (r.size == "" && r.status == "nodump"))
    && good_status r.status
    && good_hash r.status 8 r.crc
    && good_hash r.status 32 r.md5
    && good_hash r.status 40 r.sha1
    && good_hash r.status 64 r.sha256

unfoldable pub good_roms : List String → List Rom → Bool
unfolding good_rom
good_roms seen [] = true
good_roms seen (r ∷ rest) =
    not (r.name == "") && not (contains seen r.name) && good_rom r && good_roms (r.name ∷ seen) rest

unfoldable pub good_games : List (List Rom) → Bool
unfolding good_roms
good_games [] = true
good_games ([] ∷ rest) = false
good_games ((r ∷ rs) ∷ rest) = good_roms [] (r ∷ rs) && good_games rest

abbrev is_only : List String → String → Bool
is_only [] s = false
is_only (x ∷ []) s = x == s
is_only (x ∷ y ∷ l) s = false

abbrev is_one : List String → Bool
is_one [] = false
is_one (x ∷ []) = not (is_blank x)
is_one (x ∷ y ∷ l) = false

unfoldable pub good_header : Parsed → Catalog → Bool
good_header p c =
    is_only p.ids c.provider_system_id && is_one p.versions && p.homepage == "No-Intro"

abbrev identity_error : String
identity_error = "invalid No-Intro catalog identity or ROM structure"

-- `Validate`. `unmarshal` is encoding/xml on the part of the document behind its byte order mark.
unfoldable pub validate :
    Formats → (Bytes → Result Parsed) → Bytes → Catalog → Result (Bytes × Counts)
validate formats unmarshal raw c = do
  (doc, counts) ← document formats raw c.expected_name
  refuse_if (ltb counts.games c.minimum_games || ltb counts.roms c.minimum_roms) identity_error
  p ← unmarshal (trim_mark doc)
  refuse_if (not (good_header p c)) identity_error
  refuse_if (not (good_games p.games)) identity_error
  ok (doc, counts)
