-- ===== src/Distribution.antt =====
-- internal/distribution: the signed index, its signing, and the checked download of what it names.
-- Stage (stage.go) and the generation of keys (keys.go) are left out; TUF is a parameter.
pub mod Origin
pub mod Git
pub mod Candidate
pub mod Restore
pub mod Stage
pub mod Publication
pub mod Recovery
use romd_dat_catalogs.Prelude.{
  ℕ, ◌+◌, String, Bool, true, false, not, ◌&&◌, ◌||◌, Option, none, some, List, [], ◌∷◌, length,
  ltb, leb, if◌then◌else◌, ◌==◌, string_eq, nat_eq, Result, ok, err, ◌>>=◌, ◌>>◌, refuse_if, ◌≡◌,
  refl, refuse_if-passed, >>=-eq-ok, arith, ◌≤◌,
}
use romd_dat_catalogs.Prelude.Dict.{Dict}
use romd_dat_catalogs.Prelude.Regex.{
  Regex, both, either, one_of, plus, star, times, word, exactly, match_string,
}
use romd_dat_catalogs.Prelude.Text.{codes}
use romd_dat_catalogs.Publisher.{Bytes, Snapshot, Stream, Read, read, too_big, broken, read_bounded}
use romd_dat_catalogs.Definitions.{Registry}

pub record Asset : Type 0 where
  pub url : String
  pub sha256 : String
  pub bytes : ℕ

-- A version below 1 is refused wherever 0 is.
pub record Index : Type 0 where
  pub definitions : Option Registry
  pub format : String
  pub version : ℕ
  pub snapshot : Snapshot
  pub state : Asset
  pub downloads : Dict Asset

abbrev pub git_format : String
git_format = "romd-signed-catalog-2"

abbrev pub old_format : String
old_format = "romd-signed-catalog-1"

-- 64 MB, `MaxState`.
abbrev pub max_state : ℕ
max_state = 67108864

abbrev lower : List (ℕ × ℕ)
lower = (b'a', b'z') ∷ (b'0', b'9') ∷ []

abbrev name_first : List (ℕ × ℕ)
name_first = (b'A', b'Z') ∷ (b'_', b'_') ∷ (b'-', b'-') ∷ lower

abbrev name_re : Regex
name_re = both (one_of name_first) (star (one_of ((b'.', b'.') ∷ name_first)))

-- `[a-z0-9]+([.-][a-z0-9]+)*`
abbrev part_re : Regex
part_re =
    both (plus (one_of lower))
      (star (both (one_of ((b'.', b'.') ∷ (b'-', b'-') ∷ [])) (plus (one_of lower))))

-- `gitRepository`
unfoldable pub git_repository : Regex
git_repository = both name_re (both (exactly b'/') name_re)

-- `gitCommit`
unfoldable pub git_commit : Regex
git_commit = times 40 (one_of ((b'0', b'9') ∷ (b'a', b'f') ∷ []))

-- `gitCatalog`
unfoldable pub git_catalog : Regex
git_catalog = both part_re (plus (both (exactly b'/') part_re))

-- `gitAssetURL`
unfoldable pub git_asset_url : Regex
unfolding git_repository git_commit git_catalog
git_asset_url = both (word (codes "https://raw.githubusercontent.com/")) (
    both git_repository (
      both (exactly b'/')
        (both git_commit (both (exactly b'/') (both git_catalog (word (codes ".dat")))))))

-- Any character but a line's end: the dot of `github.com` is not escaped in the source.
abbrev any_re : Regex
any_re = one_of ((0, 9) ∷ (11, 0x10FFFF) ∷ [])

abbrev plain_re : Regex
plain_re = plus (
    one_of (
      (b'A', b'Z') ∷ (b'a', b'z') ∷ (b'0', b'9') ∷ (b'_', b'_') ∷ (b'.', b'.') ∷ (b'-', b'-') ∷ []))

-- `assetURL`
unfoldable pub asset_url : Regex
asset_url = both (word (codes "https://github")) (
    both any_re (
      both (word (codes "com/")) (
        both plain_re (
          both (exactly b'/') (
            both plain_re (
              both (word (codes "/releases/download/"))
                (both plain_re (both (exactly b'/') plain_re))))))))

-- What the download of one URL meets: an error, or a status and a body.
pub data Reply : Type 0 where
  no_reply : Reply
  response : (status : ℕ) (body : Stream) → Reply

-- The network of a client, and what the check of an asset uses of the library.
pub record Net : Type 0 where
  pub get : String → Reply
  pub hash : Bytes → String

abbrev body_of : Asset → Reply → Result Read
body_of a no_reply = err "download failed"
body_of a (response status body) =
    if status == 200 then ok (read_bounded body a.bytes) else err "asset download failed"

abbrev checked : Net → Asset → Read → Result Bytes
checked net a broken = err "unexpected EOF"
checked net a too_big = err "asset integrity failure"
checked net a (read b) =
    if not (length b == a.bytes) || not (net.hash b == a.sha256)
    then err "asset integrity failure"
    else ok b

-- `FetchAsset`
unfoldable pub fetch_asset : Net → Asset → Result Bytes
fetch_asset net a = do
  refuse_if (not (match_string asset_url a.url) && not (match_string git_asset_url a.url))
      "expected immutable public GitHub asset URL"
  refuse_if (ltb a.bytes 1 || ltb max_state a.bytes) "asset size limit"
  r ← body_of a (net.get a.url)
  checked net a r

checked-eq-ok :
    (net : Net) (a : Asset) (r : Read) (b : Bytes)
    → checked net a r ≡ ok b
    → (length b ≡ a.bytes) × (net.hash b ≡ a.sha256)
unfolding string_eq nat_eq
checked-eq-ok net a broken b e = absurd cc
checked-eq-ok net a too_big b e = absurd cc
checked-eq-ok net a (read c) b e = (ground (arith, e), ground (arith, e))

-- A fetched asset has the length and the hash that the index names, within the limit.
pub fetch_asset_sound :
    (net : Net) (a : Asset) (b : Bytes)
    → fetch_asset net a ≡ ok b
    → (length b ≡ a.bytes) × (net.hash b ≡ a.sha256) × (1 ≤ a.bytes) × (a.bytes ≤ max_state)
unfolding fetch_asset
fetch_asset_sound net a b e =
    let (_, e₁) = refuse_if-passed _ _ _ e in
    let (size, e₂) = refuse_if-passed _ _ _ e₁ in
    let (r, _, e₃) = >>=-eq-ok (body_of a (net.get a.url)) (checked net a) e₂ in
    let (same, hashed) = checked-eq-ok net a r b e₃ in
    (same, hashed, ground (arith, size), ground (arith, size))
