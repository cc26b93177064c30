-- ===== src/NoIntro/Acquire.antt =====
-- internal/nointro/adapter.go: the request of one acquisition, the state that an adapter keeps, and
-- the URL of the export's manager. `net/url` is a parameter.
pub mod Session
pub mod Walk
pub mod Fair
pub mod Verdict
pub mod Ends
use romd_dat_catalogs.Prelude.{
  ℕ, suc, ◌+◌, String, ◌<>◌, Bool, true, false, not, ◌&&◌, ◌||◌, Option, none, some, List, [], ◌∷◌,
  ◌++◌, any, ltb, length, take, if◌then◌else◌, ◌==◌, string_eq, nat_eq, Result, ok, err, ◌>>=◌,
  ◌>>◌, refuse_if,
}
use romd_dat_catalogs.Prelude.Dict.{Dict, lookup}
use romd_dat_catalogs.Prelude.Text.{codes, has_part}
use romd_dat_catalogs.Prelude.Regex.{match_string}
use romd_dat_catalogs.Publisher.{
  Bytes, Counts, Attempt, Stream, Read, read, too_big, broken, read_bounded,
}
use romd_dat_catalogs.Publisher.Document.{Formats}
use romd_dat_catalogs.Definitions.{Catalog, no_intro_system_id}
use romd_dat_catalogs.Redump.Retry.{retry_at}
use romd_dat_catalogs.NoIntro.{Parsed}
use romd_dat_catalogs.NoIntro.Scan.{forms}
use romd_dat_catalogs.NoIntro.Attributes.{Html, attrs, attr}
use romd_dat_catalogs.NoIntro.Forms.Prepare.{prepare_form}
use romd_dat_catalogs.NoIntro.Forms.Download.{download_form}

abbrev pub form_limit : ℕ
form_limit = 1048576

pub record Url : Type 0 where
  pub scheme : String
  pub host : String
  pub user : Option String
  pub fragment : String
  pub path : String
  pub raw_query : String

pub record Urls : Type 0 where
  pub parse : String → Result Url
  pub resolve : Url → Url → Url
  pub parse_query : String → Result (Dict (List String))
  pub print : Url → String

-- What the HTTP client gives: an error, or a response. A length of `none` is unknown.
pub data Reply : Type 0 where
  no_reply : Reply
  response :
      (status : ℕ) (retry_after location content_encoding : String) (content_length : Option ℕ)
      (body : Stream)
      → Reply

-- The world of an adapter. The replies, and the times that pass around a request, go by the number
-- of requests before it; what meets an attempt as a whole goes by the attempt.
pub record World : Type 0 where
  pub reply : ℕ → Reply
  pub idle : ℕ → ℕ
  pub late : ℕ → ℕ
  pub took : ℕ → ℕ
  pub is_cut_short : ℕ → Bool
  pub is_bad_target : String → Bool
  pub is_busy : ℕ → Bool
  pub is_over : ℕ → Bool
  pub is_backoff_cut : ℕ → Bool
  pub make_stage : Result (Unit {0})
  pub write : ℕ → Result String
  pub html : Html
  pub text : Bytes → String
  pub urls : Urls
  pub formats : Formats
  pub unmarshal : Bytes → Result Parsed
  pub hash : Bytes → String
  pub format_time : ℕ → String
  pub parse_http_date : String → Option ℕ

pub record Diagnostic : Type 0 where
  pub attempt : ℕ
  pub stage : String
  pub status : ℕ
  pub bytes : ℕ
  pub body_sha256 : String
  pub page_kind : String
  pub outcome : String

-- `Result`, and the requests as they are sent, `values` with a POST.
pub record Acquired : Type 0 where
  pub diagnostics : List Diagnostic
  pub attempt : Attempt
  pub sha256 : String
  pub counts : Counts
  pub code : String

pub record Request : Type 0 where
  pub step : String
  pub target : String
  pub values : Option (Dict String)
  pub sent_at : ℕ

-- `Adapter`, with the clock and the requests so far, last one first.
pub record Adapter : Type 0 where
  pub origin : String
  pub gap : ℕ
  pub next : ℕ
  pub clock : ℕ
  pub requests : List Request

-- What `request` gives: a page, or a code that is not "".
pub data Page : Type 0 where
  page : (status : ℕ) (location : String) (body : Bytes) → Page
  refused : (code : String) → Page

abbrev says_pending : String → Bool
says_pending body =
    has_part (codes body) (codes "The requested file is temporarily not available.")
    && has_part (codes body) (codes "it's added to the queue.")

abbrev is_main : Result (Dict String) → Bool
is_main (ok a) = attr "name" a == "main_form"
is_main (err e) = false

-- `exportPending`
unfoldable pub export_pending : Html → String → Bool
unfolding forms attr attrs string_eq has_part
export_pending html text = any (λ f. is_main (attrs html f.0) && says_pending f.1) (forms text)

abbrev is_ok : Result (Dict String) → Bool
is_ok (ok v) = true
is_ok (err e) = false

unfoldable pub page_kind : Html → Catalog → String → String
page_kind html c text =
    if export_pending html text
    then "queued_export"
    else if is_ok (prepare_form html text c)
    then "selection_form"
    else if is_ok (download_form html text)
    then "download_form"
    else "unrecognized"

abbrev is_one : Option (List String) → (String → Bool) → Bool
is_one none test = false
is_one (some []) test = false
is_one (some (v ∷ [])) test = test v
is_one (some (v ∷ u ∷ l)) test = false

abbrev is_absent : Option String → Bool
is_absent none = true
is_absent (some user) = false

unfoldable pub is_manager : Url → Url → Dict (List String) → String → Bool
is_manager base u q system =
    u.scheme == base.scheme
    && u.host == base.host
    && is_absent u.user
    && u.fragment == ""
    && u.path == "/index.php"
    && length q == 3
    && is_one (lookup "page" q) (λ v. v == "manager")
    && is_one (lookup "s" q) (λ v. v == system)
    && is_one (lookup "download" q) (match_string no_intro_system_id)

-- `managerURL`
unfoldable pub manager_url : Urls → String → String → String → Result String
manager_url urls origin location system = do
  base ← urls.parse origin
  relative ← urls.parse location
  let u = urls.resolve base relative
  q ← urls.parse_query u.raw_query
  refuse_if (not (is_manager base u q system)) "unexpected manager URL"
  ok (urls.print u)
