-- ===== src/NoIntro/Acquire/Walk.antt =====
-- internal/nointro/adapter.go: the pages that an attempt goes through (`acquire`), and the attempts
-- of an acquisition (`Acquire`). The adapter's client and gate are those of `New`.
use romd_dat_catalogs.Prelude.{
  ℕ, zero, suc, ◌+◌, ◌-◌, ◌*◌, ◌^◌, String, ◌<>◌, Bool, true, false, not, ◌&&◌, ◌||◌, Option, none,
  some, List, [], ◌∷◌, ◌++◌, ltb, if◌then◌else◌, ◌==◌, string_eq, nat_eq, Result, ok, err,
}
use romd_dat_catalogs.Prelude.Regex.{match_string}
use romd_dat_catalogs.Publisher.{Bytes, Counts, max_input}
use romd_dat_catalogs.Definitions.{Catalog, no_intro_system_id}
use romd_dat_catalogs.NoIntro.{validate}
use romd_dat_catalogs.NoIntro.Forms.Prepare.{prepare_form}
use romd_dat_catalogs.NoIntro.Forms.Download.{download_form}
use romd_dat_catalogs.NoIntro.Acquire.{
  form_limit, World, Diagnostic, Acquired, Adapter, export_pending, manager_url,
}
use romd_dat_catalogs.NoIntro.Acquire.Session.{
  request, Tried, fail, with_page, or_fail, fail_if, stop_with, keep_document,
}

unfoldable pub source_url : String → String → String
source_url origin system = origin <> ("/index.php?page=download&op=dat&s=" <> system)

unfoldable pub check_download :
    World → ℕ → Catalog → ℕ → String → Bytes → Adapter → Acquired → Tried
check_download w n c status location raw a r =
    fail_if (not (status == 200)) "unexpected_redirect" a r (
      or_fail (validate w.formats w.unmarshal raw c) "invalid_document" a r (λ (document, counts).
        keep_document a (record r { counts = counts; sha256 = w.hash document }) (w.write n)))

unfoldable pub check_manager :
    World → ℕ → Catalog → String → ℕ → String → Bytes → Adapter → Acquired → Tried
check_manager w n c manager status location raw a r =
    fail_if (not (status == 200)) "unexpected_redirect" a r (
      fail_if (export_pending w.html (w.text raw)) "upstream_pending" a r (
        or_fail (download_form w.html (w.text raw)) "form_changed" a r (λ values.
          with_page (request w c "download" manager (some values) max_input a r)
            (check_download w n c))))

unfoldable pub check_prepare : World → ℕ → Catalog → ℕ → String → Bytes → Adapter → Acquired → Tried
check_prepare w n c status location raw a r =
    fail_if (status == 200 && export_pending w.html (w.text raw)) "upstream_pending" a r (
      fail_if (not (status == 302)) "prepare_failed" a r (
        or_fail (manager_url w.urls a.origin location c.provider_system_id) "unexpected_redirect" a
          r
          (λ manager.
            with_page (request w c "manager" manager none form_limit a r)
              (check_manager w n c manager))))

unfoldable pub check_selection :
    World → ℕ → Catalog → ℕ → String → Bytes → Adapter → Acquired → Tried
check_selection w n c status location raw a r =
    fail_if (not (status == 200)) "unexpected_redirect" a r (
      fail_if (export_pending w.html (w.text raw)) "upstream_pending" a r (
        or_fail (prepare_form w.html (w.text raw) c) "form_changed" a r (λ values.
          with_page
            (request w c "prepare" (source_url a.origin c.provider_system_id) (some values)
              form_limit a r)
            (check_prepare w n c))))

unfoldable pub is_unreviewed : String → Catalog → Bool
is_unreviewed id c =
    not (c.provider == "no-intro")
    || not (c.representation == "standard")
    || not (match_string no_intro_system_id c.provider_system_id)
    || not (id == "no-intro/" <> (c.system_id <> "/standard"))
    || c.expected_name == ""
    || ltb c.minimum_games 1
    || ltb c.minimum_roms 1

abbrev no_counts : Counts
no_counts = record { games = 0; roms = 0 }

-- `SourceURL`
abbrev public_url : String → String
public_url = source_url "https://datomatic.no-intro.org"

unfoldable pub start : String → Catalog → Acquired
start id c = record {
  diagnostics = [];
  attempt = record {
    retry_at = none;
    catalog_id = id;
    expected_name = c.expected_name;
    source_url = public_url c.provider_system_id;
    path = none;
    failure = none;
  };
  sha256 = "";
  counts = no_counts;
  code = "";
}

unfoldable pub stamp_retry : World → Adapter → Acquired → Acquired
stamp_retry w a r = record r {
  attempt = record r.attempt { retry_at = some (w.format_time a.next) };
}

-- The reviewed path of the attempt behind its guards.
unfoldable pub walk : World → ℕ → Catalog → Adapter → Acquired → Tried
unfolding source_url
walk w n c a r =
    if ltb a.gap (a.next - a.clock)
    then fail "provider_backoff" a (stamp_retry w a r)
    else with_page
        (request w c "selection" (source_url a.origin c.provider_system_id) none form_limit a r)
        (check_selection w n c)

-- `acquire`, the attempt of number `n`.
unfoldable pub attempt_once : World → ℕ → String → Catalog → Adapter → Tried
attempt_once w n id c a =
    if is_unreviewed id c
    then stop_with a (start id c) "invalid No-Intro adapter or reviewed catalog"
    else if w.is_busy n
    then stop_with a (start id c) "context canceled"
    else walk w n c a (start id c)

abbrev number_each : ℕ → List Diagnostic → List Diagnostic
number_each n [] = []
number_each n (d ∷ l) = record d { attempt = n } ∷ number_each n l

unfoldable pub may_retry : String → Bool
may_retry code =
    code == "prepare_failed" || code == "request_failed" || code == "incomplete_response"

abbrev is_error : Option String → Bool
is_error none = false
is_error (some e) = true

-- The end of the loop at this attempt.
unfoldable pub is_last : World → ℕ → Tried → Bool
is_last w n t = is_error t.error || n == 3 || w.is_over n || not (may_retry t.acquired.code)

-- The result with the diagnostics of the attempts so far.
unfoldable pub with_earlier : ℕ → List Diagnostic → Tried → Tried
with_earlier n earlier t = record t {
  acquired = record t.acquired { diagnostics = earlier ++ number_each n t.acquired.diagnostics };
}

-- The adapter behind the timer, which doubles with each attempt.
unfoldable pub back_off : ℕ → Adapter → Adapter
back_off n a = record a { clock = a.clock + a.gap * 2 ^ (n - 1) }

-- The loop of `Acquire` from attempt `n`; `none` is out of fuel.
unfoldable pub attempts :
    World → String → Catalog → ℕ → ℕ → List Diagnostic → Adapter → Option Tried
attempts w id c zero n earlier a = none
attempts w id c (suc fuel) n earlier a =
    let t = with_earlier n earlier (attempt_once w n id c a) in
    let more = attempts w id c fuel (suc n) t.acquired.diagnostics (back_off n t.adapter) in
    if is_last w n t
    then some t
    else if w.is_backoff_cut n
    then some (stop_with t.adapter t.acquired "context canceled")
    else more

abbrev pub behind_stage : Result (Unit {0}) → Adapter → Acquired → Option Tried → Option Tried
behind_stage (err e) a r k = some (stop_with a r e)
behind_stage (ok _) a r k = k

abbrev pub no_result : Acquired
no_result = record {
  diagnostics = [];
  attempt = record {
    retry_at = none;
    catalog_id = "";
    expected_name = "";
    source_url = "";
    path = none;
    failure = none;
  };
  sha256 = "";
  counts = no_counts;
  code = "";
}

-- `Acquire`. Three units of fuel are enough.
unfoldable pub acquire : World → String → Catalog → Adapter → Option Tried
acquire w id c a = behind_stage w.make_stage a no_result (attempts w id c 3 1 [] a)
