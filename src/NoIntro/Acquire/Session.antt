-- ===== src/NoIntro/Acquire/Session.antt =====
-- internal/nointro/adapter.go: one attempt of an acquisition, request by request.
use romd_dat_catalogs.Prelude.{
  ℕ, suc, ◌+◌, String, Bool, true, false, not, ◌&&◌, ◌||◌, Option, none, some, List, [], ◌∷◌, ◌++◌,
  ltb, length, take, if◌then◌else◌, ◌==◌, string_eq, nat_eq, Result, ok, err,
}
use romd_dat_catalogs.Prelude.Dict.{Dict}
use romd_dat_catalogs.Publisher.{Bytes, Stream, Read, read, too_big, broken, read_bounded}
use romd_dat_catalogs.Definitions.{Catalog}
use romd_dat_catalogs.Redump.Retry.{retry_at}
use romd_dat_catalogs.NoIntro.Acquire.{
  Reply, no_reply, response, World, Diagnostic, Acquired, Adapter, Page, page, refused, page_kind,
}

abbrev blank : String → Diagnostic
blank step = record {
  attempt = 0;
  stage = step;
  status = 0;
  bytes = 0;
  body_sha256 = "";
  page_kind = "";
  outcome = "";
}

-- `r.Diagnostics = append(r.Diagnostics, diagnostic)`
abbrev log : Diagnostic → Acquired → Acquired
log d r = record r { diagnostics = r.diagnostics ++ (d ∷ []) }

-- What the body's bytes leave in the diagnostic.
abbrev read_part : World → Catalog → String → ℕ → Stream → Diagnostic → Diagnostic
read_part w c step limit body d =
    let b = take (suc limit) body.delivered in
    record d {
      bytes = length b;
      body_sha256 = w.hash b;
      page_kind = if step == "download" then "" else page_kind w.html c (w.text b);
    }

abbrev pub page_of : ℕ → String → Read → Page
page_of status location (read b) = page status location b
page_of status location too_big = refused "size_limit"
page_of status location broken = refused "incomplete_response"

abbrev pub limits : ℕ → Bool
limits status = status == 429 || status == 503

abbrev pub is_over_limit : ℕ → Option ℕ → Bool
is_over_limit limit none = false
is_over_limit limit (some n) = ltb limit n

abbrev later_of : ℕ → ℕ → ℕ
later_of a b = if ltb a b then b else a

-- The next time to ask at, from a reply that limits its callers.
unfoldable pub cooldown : World → ℕ → String → ℕ → ℕ
cooldown w gap retry_after now = later_of (retry_at w.parse_http_date retry_after now) (now + gap)

-- Why a response is not read, if it is not.
unfoldable pub unread : ℕ → ℕ → String → Option ℕ → Option String
unread limit status encoding content_length =
    if not (status == 200) && not (status == 302)
    then some "http_status"
    else if not (encoding == "") && not (encoding == "identity")
    then some "unexpected_encoding"
    else if is_over_limit limit content_length
    then some "size_limit"
    else none

unfoldable pub read_page :
    World
    → Catalog
    → String
    → ℕ
    → ℕ
    → String
    → Stream
    → Option String
    → Diagnostic
    → Adapter
    → Acquired
    → Page × Adapter × Acquired
read_page w c step limit status location body (some code) d a r = (refused code, a, log d r)
read_page w c step limit status location body none d a r =
    (page_of status location (read_bounded body limit), a, log (read_part w c step limit body d) r)

-- What a reply comes to: the page, the adapter and the result.
unfoldable pub receive :
    World → Catalog → String → ℕ → Reply → Adapter → Acquired → Page × Adapter × Acquired
unfolding read_page
receive w c step limit no_reply a r = (refused "request_failed", a, log (blank step) r)
receive w c step limit (response status retry_after location encoding content_length body) a r =
    let d : Diagnostic = record (blank step) { status = status } in
    if limits status
    then (let next = cooldown w a.gap retry_after a.clock in
        (
          refused "provider_backoff",
          record a { next = next },
          log d (record r { attempt = record r.attempt { retry_at = some (w.format_time next) } }),
        ))
    else read_page w c step limit status location body (unread limit status encoding content_length)
        d a r

-- The adapter when its request leaves, behind the wait for `next`, and when the reply has come.
unfoldable pub send : World → String → String → Option (Dict String) → Adapter → Adapter
send w step target values a =
    let i = length a.requests in
    let now = a.clock + w.idle i in
    let sent_at = if ltb now a.next then a.next + w.late i else now in
    record a {
      next = sent_at + a.gap;
      clock = sent_at + w.took i;
      requests =
          record { step = step; target = target; values = values; sent_at = sent_at } ∷ a.requests;
    }

-- `request`, with the context's end within the wait, and the target that is no URL.
unfoldable pub request :
    World
    → Catalog
    → String
    → String
    → Option (Dict String)
    → ℕ
    → Adapter
    → Acquired
    → Page × Adapter × Acquired
request w c step target values limit a r =
    let i = length a.requests in
    if ltb (a.clock + w.idle i) a.next && w.is_cut_short i
    then (refused "cancelled", a, r)
    else if w.is_bad_target target
    then (refused "request_failed", a, r)
    else receive w c step limit (w.reply i) (send w step target values a) r

-- What an attempt returns, `error` beside the result, and the adapter then.
pub record Tried : Type 0 where
  pub acquired : Acquired
  pub error : Option String
  pub adapter : Adapter

abbrev mark_last : String → List Diagnostic → List Diagnostic
mark_last code [] = []
mark_last code (d ∷ []) = record d { outcome = code } ∷ []
mark_last code (d ∷ e ∷ l) = d ∷ mark_last code (e ∷ l)

-- `fail`
unfoldable pub fail : String → Adapter → Acquired → Tried
fail code a r = record {
  acquired = record r {
    code = code;
    attempt = record r.attempt { failure = some code };
    diagnostics = mark_last code r.diagnostics;
  };
  error = none;
  adapter = a;
}

-- `if code != "" { return fail(code) }`, and what comes behind.
unfoldable pub with_page :
    Page × Adapter × Acquired → (ℕ → String → Bytes → Adapter → Acquired → Tried) → Tried
with_page (refused code, a, r) next = fail code a r
with_page (page status location body, a, r) next = next status location body a r

unfoldable pub or_fail : {A : Type 0} → Result A → String → Adapter → Acquired → (A → Tried) → Tried
or_fail (err e) code a r next = fail code a r
or_fail (ok v) code a r next = next v

unfoldable pub fail_if : Bool → String → Adapter → Acquired → Tried → Tried
fail_if true code a r next = fail code a r
fail_if false code a r next = next

unfoldable pub stop_with : Adapter → Acquired → String → Tried
stop_with a r e = record { acquired = r; error = some e; adapter = a }

-- The end of an attempt: the path of the document's file.
unfoldable pub keep_document : Adapter → Acquired → Result String → Tried
unfolding stop_with
keep_document a r (err e) = stop_with a r e
keep_document a r (ok path) = record {
  acquired = record r { attempt = record r.attempt { path = some path } };
  error = none;
  adapter = a;
}
