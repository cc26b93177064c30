-- ===== src/Redump/Adapter.antt =====
-- internal/redump/adapter.go: one sequential batch of requests, and the provider's cooldown.
pub mod Backoff
use romd_dat_catalogs.Prelude.{
  ℕ, zero, suc, ◌+◌, String, ◌<>◌, Bool, true, false, not, ◌&&◌, ◌||◌, Option, none, some, List, [],
  ◌∷◌, ◌++◌, ltb, length, if◌then◌else◌, ◌==◌, string_eq, nat_eq, Result, ok, err, ◌>>=◌, ◌>>◌,
  refuse_if,
}
use romd_dat_catalogs.Prelude.Text.{decimal}
use romd_dat_catalogs.Publisher.{
  Bytes, Counts, Attempt, Stream, Read, read, too_big, broken, read_bounded, max_input,
}
use romd_dat_catalogs.Publisher.Document.{Formats, document}
use romd_dat_catalogs.Redump.{Catalog, validate_catalogs}
use romd_dat_catalogs.Redump.Retry.{retry_at}

pub record Outcome : Type 0 where
  pub catalog : Catalog
  pub attempt : Attempt
  pub sha256 : String
  pub counts : Counts
  pub code : String
  pub retry_at : ℕ

-- What the HTTP client gives: an error, or a response. A length of `none` is unknown.
pub data Reply : Type 0 where
  no_reply : Reply
  response :
      (status : ℕ) (retry_after content_encoding : String) (content_length : Option ℕ)
      (body : Stream)
      → Reply

-- The world of one batch, by the number of the catalog: the reply that a request would get and
-- when, whether the context is done by then, and what writing the document meets. The rest is the
-- standard library's; `format_time` writes RFC3339Nano.
pub record World : Type 0 where
  pub reply : ℕ → Reply
  pub now : ℕ → ℕ
  pub cancelled : ℕ → Bool
  pub write : ℕ → Result String
  pub make_stage : Result (Unit {0})
  pub origin_is_valid : Bool
  pub formats : Formats
  pub hash : Bytes → String
  pub format_time : ℕ → String
  pub parse_http_date : String → Option ℕ

-- `fetch`: the bytes, a code that is "" for success, and the retry time, 0 for none.
abbrev pub Fetched : Type 0
Fetched = Bytes × String × ℕ

abbrev fetched_body : Read → Fetched
fetched_body (read b) = (b, "", 0)
fetched_body too_big = ([], "input_limit", 0)
fetched_body broken = ([], "incomplete_response", 0)

abbrev is_over : Option ℕ → Bool
is_over none = false
is_over (some n) = ltb max_input n

unfoldable pub fetch : World → ℕ → Reply → Fetched
fetch w i no_reply = ([], (if w.cancelled i then "cancelled" else "request_failed"), 0)
fetch w i (response status retry_after encoding content_length body) =
    if status == 429
    then ([], "rate_limited", retry_at w.parse_http_date retry_after (w.now i))
    else if status == 503
    then ([], "unavailable", retry_at w.parse_http_date retry_after (w.now i))
    else if not (status == 200)
    then ([], "http_status", 0)
    else if not (encoding == "") && not (encoding == "identity")
    then ([], "unexpected_encoding", 0)
    else if is_over content_length
    then ([], "input_limit", 0)
    else fetched_body (read_bounded body max_input)

-- The variables of the loop: `requests` are the URLs asked for, last one first.
pub record Batch (S : Type 0) : Type 0 where
  pub stopped : Bool
  pub cooldown : ℕ
  pub requests : List String
  pub watcher : S

abbrev blank_attempt : String → Catalog → Attempt
blank_attempt url c = record {
  retry_at = none;
  catalog_id = c.id;
  expected_name = c.expected_name;
  source_url = url;
  path = none;
  failure = none;
}

abbrev no_counts : Counts
no_counts = record { games = 0; roms = 0 }

abbrev pub outcome : String → Catalog → String → ℕ → Outcome
outcome url c code retry = record {
  catalog = c;
  attempt = blank_attempt url c;
  sha256 = "";
  counts = no_counts;
  code = code;
  retry_at = retry;
}

unfoldable pub check_document : World → Outcome → Result (Bytes × Counts) → Outcome
check_document w r (err e) = record r { code = "invalid_document" }
check_document w r (ok (document, counts)) =
    if ltb counts.games r.catalog.min_games || ltb counts.roms r.catalog.min_roms
    then record r { counts = counts; code = "count_below_floor" }
    else record r { counts = counts; sha256 = w.hash document }

unfoldable pub after_fetch : World → String → Catalog → Fetched → Outcome
unfolding check_document
after_fetch w url c (raw, code, retry) =
    if code == ""
    then check_document w (outcome url c code retry) (document w.formats raw c.expected_name)
    else outcome url c code retry

abbrev pub limits : String → Bool
limits code = code == "rate_limited" || code == "unavailable"

abbrev stamped : World → Outcome → Outcome
stamped w r =
    if r.retry_at == 0
    then r
    else record r { attempt = record r.attempt { retry_at = some (w.format_time r.retry_at) } }

-- What one catalog comes to before it is observed, and the loop's variables then.
unfoldable pub consult : {S : Type 0} → World → String → ℕ → Catalog → Batch S → Outcome × Batch S
unfolding after_fetch
consult w origin i c b =
    let url = origin <> ("/datfile/" <> c.system) in
    if b.stopped
    then (stamped w (outcome url c "provider_backoff" b.cooldown), b)
    else if w.cancelled i
    then (stamped w (outcome url c "cancelled" 0), b)
    else let (raw, code, retry) = fetch w i (w.reply i) in
      (
        stamped w (after_fetch w url c (raw, code, retry)),
        record b {
          stopped = limits code;
          cooldown = if limits code then retry else b.cooldown;
          requests = url ∷ b.requests;
        },
      )

-- The end of a round: a good outcome gets the staged file, any other its failure.
unfoldable pub conclude : World → ℕ → Outcome → Result Outcome
conclude w i r =
    if r.code == ""
    then (do path ← w.write i; ok (record r { attempt = record r.attempt { path = some path } }))
    else ok (record r { attempt = record r.attempt { failure = some r.code } })

abbrev pub prepend {ℓ} : {A : Type ℓ} → A → Result (List A) → Result (List A)
prepend a (ok l) = ok (a ∷ l)
prepend a (err e) = err e

-- An error of the observer, or of the file, ends the batch; else the rest of it decides.
unfoldable pub finish_round :
    {S : Type 0}
    → Result (Unit {0})
    → Result Outcome
    → Result (List Outcome) × Batch S
    → Batch S
    → Result (List Outcome) × Batch S
finish_round (err e) r later b = (err e, b)
finish_round (ok _) (err e) later b = (err e, b)
finish_round (ok _) (ok r) (l, b') b = (prepend r l, b')

-- The loop of `acquire`. `observe` sees each outcome and may stop the batch.
unfoldable pub acquire_each :
    {S : Type 0}
    → World
    → String
    → (Outcome → S → Result (Unit {0}) × S)
    → ℕ
    → List Catalog
    → Batch S
    → Result (List Outcome) × Batch S
unfolding finish_round
acquire_each w origin observe i [] b = (ok [], b)
acquire_each w origin observe i (c ∷ rest) b =
    let (r, b₁) = consult w origin i c b in
    let (seen, s) = observe r b₁.watcher in
    let b₂ = record b₁ { watcher = s } in
    finish_round seen (conclude w i r) (acquire_each w origin observe (suc i) rest b₂) b₂

abbrev pub start_batch : {S : Type 0} → ℕ → ℕ → S → Batch S
start_batch started cooldown s = record {
  stopped = ltb started cooldown;
  cooldown = cooldown;
  requests = [];
  watcher = s;
}

abbrev pub unless_refused :
    {S : Type 0}
    → Result (Unit {0})
    → Batch S
    → Result (List Outcome) × Batch S
    → Result (List Outcome) × Batch S
unless_refused (err e) b k = (err e, b)
unless_refused (ok _) b k = k

-- `acquire`, under the gate. The cooldown that the batch ends with is the adapter's own.
unfoldable pub acquire :
    {S : Type 0}
    → World
    → String
    → (Outcome → S → Result (Unit {0}) × S)
    → ℕ
    → ℕ
    → List Catalog
    → S
    → Result (List Outcome) × Batch S
acquire {S} w origin observe started cooldown catalogs s =
    let b : Batch S = start_batch started cooldown s in
    let origin_error : String =
      "HTTP(S) origin without credentials, path, query, or fragment required" in
    unless_refused
      (validate_catalogs catalogs >> refuse_if (not w.origin_is_valid) origin_error >> w.make_stage)
      b (acquire_each w origin observe 0 catalogs b)
