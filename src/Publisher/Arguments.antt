-- ===== src/Publisher/Arguments.antt =====
-- internal/publisher/publisher.go: what `Publish` is given, and the checks of it.
pub mod Sorted
use romd_dat_catalogs.Prelude.{
  ℕ, zero, suc, ◌+◌, String, ◌<>◌, Bool, true, false, not, ◌&&◌, ◌||◌, Option, none, some, List, [],
  ◌∷◌, ◌++◌, length, take, ltb, leb, if◌then◌else◌, ◌==◌, contains, string_eq, nat_eq, option_eq,
  Result, ok, err, refuse_if, or_err,
}
use romd_dat_catalogs.Prelude.Dict.{Dict, lookup, insert}
use romd_dat_catalogs.Prelude.Text.{codes, text_lt, decimal, trim_right_slash}
use romd_dat_catalogs.Prelude.Words.{next64}
use romd_dat_catalogs.Prelude.Regex.{Regex, both, one_of, plus, star, up_to, word, match_string}
use romd_dat_catalogs.Publisher.{
  Bytes, Counts, Reference, reference_eq, Attempt, Provenance, Catalog, Event, Snapshot, Current,
  Stream, Read, read, too_big, broken, read_bounded, max_input, max_metadata, format_name,
  trust_name,
}
use romd_dat_catalogs.Publisher.Document.{Formats, document}
use romd_dat_catalogs.Publisher.Disk.{Disk, Io, pure, lift, inspect, ◌>>=◌, atomic_write}
use romd_dat_catalogs.Publisher.Objects.{
  Codec, put, verified_read, verify_snapshot, load_snapshot, entries,
}
use romd_dat_catalogs.Publisher.Feed.{FeedText, feed_bytes}

-- The fields of `net/url`'s result that the source reads.
pub record Url : Type 0 where
  pub scheme : String
  pub hostname : String
  pub has_user : Bool
  pub raw_query : String
  pub force_query : Bool
  pub fragment : String

-- What the package takes from the standard library and the host. `format_time` writes nanoseconds
-- from the start of year 1 in RFC3339Nano; `input` opens a file of the staging directory.
pub record Library : Type 0 where
  pub formats : Formats
  pub codec : Codec
  pub feed_text : FeedText
  pub parse_url : String → Option Url
  pub format_time : ℕ → String
  pub input : String → Option Stream

-- `now` 0 is the zero time. A negative limit is refused as 1001 is.
pub record Options : Type 0 where
  pub now : ℕ
  pub feed_limit : ℕ
  pub before_commit : Option (Result (Unit {0}))

-- The wall clock, and the outcome of making the directory and taking its lock.
pub record Host : Type 0 where
  pub wall_clock : ℕ
  pub opened : Result (Unit {0})

abbrev pub word_re : Regex
word_re = one_of ((b'a', b'z') ∷ (b'0', b'9') ∷ [])

-- `^[a-z0-9]+([./-][a-z0-9]+)*$`
unfoldable pub catalog_id : Regex
catalog_id =
    both (plus word_re)
      (star (both (one_of ((b'.', b'.') ∷ (b'/', b'/') ∷ (b'-', b'-') ∷ [])) (plus word_re)))

-- `^https://datomatic\.no-intro\.org/index\.php\?page=download&op=dat&s=[1-9][0-9]{0,5}$`
unfoldable pub datomatic_source : Regex
datomatic_source =
    both (word (codes "https://datomatic.no-intro.org/index.php?page=download&op=dat&s="))
      (both (one_of ((b'1', b'9') ∷ [])) (up_to 5 (one_of ((b'0', b'9') ∷ []))))

-- `publicURL`
unfoldable pub public_url : Library → String → Bool → Bool
public_url lib value https_only = elim (lib.parse_url value) [
  | none ↦ false
  | some u ↦
      not (u.hostname == "")
      && not u.has_user
      && u.raw_query == ""
      && not u.force_query
      && u.fragment == ""
      && (u.scheme == "https" || (not https_only && u.scheme == "http"))
]

-- `publicSourceURL`
unfoldable pub public_source_url : Library → String → Bool
unfolding public_url
public_source_url lib value = public_url lib value false || match_string datomatic_source value

abbrev pub is_some {ℓ} : {A : Type ℓ} → Option A → Bool
is_some none = false
is_some (some a) = true

-- A retry time that cannot be read, or that stands on an attempt that did not fail.
unfoldable pub bad_retry : Library → Attempt → Bool
bad_retry lib a = elim a.retry_at [
  | none ↦ false
  | some t ↦ not (is_some (lib.feed_text.parse_time t)) || not (is_some a.failure)
]

abbrev same_bool : Bool → Bool → Bool
same_bool true b = b
same_bool false b = not b

unfoldable pub bad_attempt : Library → Attempt → Bool
unfolding public_source_url
bad_attempt lib a =
    a.expected_name == ""
    || not (public_source_url lib a.source_url)
    || same_bool (not (is_some a.path)) (not (is_some a.failure))

-- The first loop of `Publish`; `seen` holds the identifiers so far.
unfoldable pub check_attempts : Library → List String → List Attempt → Result (Unit {0})
check_attempts lib seen [] = ok tt
check_attempts lib seen (a ∷ rest) =
    let later = check_attempts lib (a.catalog_id ∷ seen) rest in
    if not (match_string catalog_id a.catalog_id) || contains seen a.catalog_id
    then err "invalid or duplicate catalog ID"
    else if bad_retry lib a
    then err "invalid acquisition retry time"
    else if bad_attempt lib a
    then err "invalid registry attempt"
    else later

unfoldable pub insert_attempt : Attempt → List Attempt → List Attempt
insert_attempt a [] = a ∷ []
insert_attempt a (b ∷ rest) =
    if text_lt b.catalog_id a.catalog_id then b ∷ insert_attempt a rest else a ∷ b ∷ rest

-- `sort.Slice` by identifier.
unfoldable pub sort_attempts : List Attempt → List Attempt
unfolding insert_attempt
sort_attempts [] = []
sort_attempts (a ∷ rest) = insert_attempt a (sort_attempts rest)

abbrev pub limited : ℕ → ℕ
limited limit = if limit == 0 then 100 else limit

-- The checks that come before the directory is touched.
unfoldable pub check_arguments : Library → List Attempt → String → Options → Result (Unit {0})
unfolding public_url check_attempts
check_arguments lib attempts base opt =
    if not (public_url lib base true)
    then err "base URL must be public HTTPS without credentials/query/fragment"
    else if ltb (limited opt.feed_limit) 1 || ltb 1000 (limited opt.feed_limit)
    then err "feed limit must be 1..1000"
    else check_attempts lib [] attempts
