-- ===== src/Tests/Source.antt =====
-- The scheduler and the adapter at concrete inputs.
use romd_dat_catalogs.Prelude.Text.{codes}
use romd_dat_catalogs.Prelude.{
  ◌*◌, ℕ, ◌+◌, ◌^◌, ◌<◌, ◌≤◌, ◌≡◌, ◌≢◌, refl, sym, ◌∙◌, subst, String, true, false, none, some,
  List, [], ◌∷◌, length, inl, arith, Result, ok, err, ◌>>=◌, string_eq, nat_eq, refuse_if,
  >>=-eq-ok,
}
use romd_dat_catalogs.Publisher.Document.{Formats}
use romd_dat_catalogs.Redump
use romd_dat_catalogs.Redump.{
  Catalog, validate_catalogs, canonical, Registry-discrete, Catalog-discrete,
}
use romd_dat_catalogs.Prelude.Text.{is_blank}
use romd_dat_catalogs.Prelude.Regex.{match_string}
use romd_dat_catalogs.Redump.Retry.{
  retry_at, digits_value, is_number, parse_uint, ceiling, second, retry_at_bounds,
}
use romd_dat_catalogs.Redump.State.{
  SourceState, state_format, poll_interval, check_state, migrate, bad_recovery, bad_source,
  bad_schedule,
}
use romd_dat_catalogs.Redump.State.Valid.{IsValid, check_state_sound, check_state_complete}
use romd_dat_catalogs.Redump.Custody.{Custody, IsLawful}
use romd_dat_catalogs.Redump.Adapter.{
  World, Outcome, response, Batch, acquire, acquire_each, fetch, consult, conclude,
}
use romd_dat_catalogs.Redump.Adapter.Backoff.{retry_time, acquire_each-limit, acquire_requests}
use romd_dat_catalogs.Redump.Scheduler.{
  Host, RecoveryOptions, run, recover, reviewed, review, recovered, admit, commit_watch, observe,
}
use romd_dat_catalogs.Redump.Scheduler.Stored.{Stored}
use romd_dat_catalogs.Redump.Scheduler.Runs.{IsLanded, run-spaced, run-in_flight, run-IsLanded}
use romd_dat_catalogs.Redump.Scheduler.Recovered.{IsRecovery, recover-IsRecovery}

-- A custody that holds the state itself.
abbrev with_version : SourceState → Result (SourceState × String)
with_version s = ok (s, "1")

abbrev memory : Custody SourceState
memory = record { load = λ st. check_state st >>= with_version; commit = λ v s st. (ok v, s) }

memory_load : (s : SourceState) → IsValid s → memory.load s ≡ ok (s, "1")
memory_load s v = rw (check_state_complete s v) refl

memory-IsLawful : IsLawful memory
memory-IsLawful = record {
  loaded = λ s v st e.
      let (t, e₁, e₂) = >>=-eq-ok (check_state st) with_version e in
      (check_state_sound st s (rw (sym (state_same t s v e₂)) e₁)).1;
  committed =
      λ v v' s st st' valid e. ("1", rw (sym (stored_same v v' s st' e)) (memory_load s valid));
  failed = λ v m s st st' valid e. absurd (never v m s st' e);
}
  where
    state_same : (t s : SourceState) (v : String) → with_version t ≡ ok (s, v) → t ≡ s
    state_same t s v e = cc

    stored_same :
        (v v' : String) (s st' : SourceState)
        → ◌≡◌ {A = Result String × SourceState} (ok v, s) (ok v', st')
        → s ≡ st'
    stored_same v v' s st' e = cc

    never :
        (v m : String) (s st' : SourceState)
        → ◌≡◌ {A = Result String × SourceState} (ok v, s) (err m, st')
        → ⊥
    never v m s st' e = cc

abbrev psx : Catalog
psx = record {
  id = "redump/psx/discs";
  system = "psx";
  expected_name = "Sony - PlayStation";
  platform = "psx";
  representation = "discs";
  policy_version = "1";
  min_games = 1;
  min_roms = 1;
}

abbrev resting : SourceState
resting = record {
  format = state_format;
  origin = "http://redump.org";
  registry = psx ∷ [];
  in_flight = false;
  last_attempt = 0;
  next_attempt = 0;
  recovery_count = 0;
  recovery = none;
}

abbrev flying : SourceState
flying = record resting { in_flight = true; last_attempt = 5; next_attempt = 5 + poll_interval }

abbrev formats : Formats
formats = record { unzip = λ b. none; xml_tokens = λ b. record { tokens = []; fails = true } }

abbrev world : World
world = record {
  reply = λ i. response 429 "7" "" none (record { delivered = []; fails = false });
  now = λ i. 1000000000;
  cancelled = λ i. false;
  write = λ i. ok "0.dat";
  make_stage = ok tt;
  origin_is_valid = true;
  formats = formats;
  hash = λ b. "";
  format_time = λ t. "";
  parse_http_date = λ s. none;
}

abbrev host_at : ℕ → Host
host_at t = record {
  cancelled = false;
  make_root = ok tt;
  lock = ok tt;
  now = t;
  has_stage = false;
  origin = "http://redump.org";
  world = world;
  started = t;
  cooldown = 0;
}

abbrev cats : List Catalog
cats = psx ∷ []

asked_first : (run memory (host_at 10) cats resting).1 ≡ "http://redump.org/datfile/psx" ∷ []
unfolding run admit commit_watch observe acquire check_state validate_catalogs canonical fetch
    retry_at refuse_if string_eq nat_eq match_string Redump.catalog_id Redump.system_id is_blank
    migrate bad_recovery bad_source Registry-discrete Catalog-discrete bad_schedule acquire_each
    consult is_number parse_uint conclude
asked_first = refl

asked_later :
    (run memory (host_at (10 + poll_interval)) cats (run memory (host_at 10) cats resting).2).1
    ≡ "http://redump.org/datfile/psx" ∷ []
unfolding run admit commit_watch observe acquire check_state validate_catalogs canonical fetch
    retry_at refuse_if string_eq nat_eq match_string Redump.catalog_id Redump.system_id is_blank
    migrate bad_recovery bad_source Registry-discrete Catalog-discrete bad_schedule acquire_each
    consult is_number parse_uint conclude
asked_later = refl

some_asked : {l : List String} {s : String} → l ≡ s ∷ [] → l ≢ []
some_asked e h = cc

run-spaced_example : 10 + poll_interval ≤ 10 + poll_interval
run-spaced_example =
    run-spaced memory memory-IsLawful (host_at 10) (host_at (10 + poll_interval)) cats cats resting
      (some_asked asked_first) (some_asked asked_later)

flying_loaded : memory.load flying ≡ ok (flying, "1")
unfolding run admit commit_watch observe acquire check_state validate_catalogs canonical fetch
    retry_at refuse_if string_eq nat_eq match_string Redump.catalog_id Redump.system_id is_blank
    migrate bad_recovery bad_source Registry-discrete Catalog-discrete bad_schedule acquire_each
    consult is_number parse_uint conclude
flying_loaded = refl

run-in_flight_example : (e : String) × (run memory (host_at 10) cats flying ≡ (err e, [], flying))
run-in_flight_example =
    run-in_flight memory memory-IsLawful (host_at 10) cats flying flying "1" flying_loaded refl

abbrev limited_outcome : Outcome
limited_outcome = record {
  catalog = psx;
  attempt = record {
    retry_at = some "";
    catalog_id = "redump/psx/discs";
    expected_name = "Sony - PlayStation";
    source_url = "http://redump.org/datfile/psx";
    path = none;
    failure = some "rate_limited";
  };
  sha256 = "";
  counts = record { games = 0; roms = 0 };
  code = "rate_limited";
  retry_at = 8000000000;
}

abbrev landed_state : SourceState
landed_state = record resting { last_attempt = 10; next_attempt = 10 + poll_interval }

run_lands :
    run memory (host_at 10) cats resting
    ≡ (ok (limited_outcome ∷ []), "http://redump.org/datfile/psx" ∷ [], landed_state)
unfolding run admit commit_watch observe acquire check_state validate_catalogs canonical fetch
    retry_at refuse_if string_eq nat_eq match_string Redump.catalog_id Redump.system_id is_blank
    migrate bad_recovery bad_source Registry-discrete Catalog-discrete bad_schedule acquire_each
    consult is_number parse_uint conclude
run_lands = refl

run-IsLanded_example :
    Stored memory (IsLanded memory memory-IsLawful 10 (limited_outcome ∷ [])) landed_state
run-IsLanded_example =
    run-IsLanded memory memory-IsLawful (host_at 10) cats resting landed_state
      (limited_outcome ∷ []) ("http://redump.org/datfile/psx" ∷ []) run_lands

abbrev options : RecoveryOptions
options = record {
  expected_digest = "d";
  not_before = 9 + poll_interval;
  confirmed_stopped = true;
  confirmed_retry_window = true;
  discard_candidates = true;
}

abbrev digest : SourceState → String
digest s = "d"

recovers : (s : SourceState) × (recover digest memory (host_at 9) options flying ≡ (ok tt, s))
unfolding run admit commit_watch observe acquire check_state validate_catalogs canonical fetch
    retry_at refuse_if string_eq nat_eq match_string Redump.catalog_id Redump.system_id is_blank
    migrate bad_recovery bad_source Registry-discrete Catalog-discrete bad_schedule acquire_each
    consult is_number parse_uint conclude recover reviewed review recovered
recovers = (_, refl)

counter_fits :
    (s : SourceState) (v : String) → memory.load flying ≡ ok (s, v) → s.recovery_count < 2 ^ 64
counter_fits s v e =
    let same = loaded_state s v (sym flying_loaded ∙ e) in
    subst (λ s. s.recovery_count < 2 ^ 64) same (omega arith)
  where
    loaded_state :
        (s : SourceState) (v : String)
        → ◌≡◌ {A = Result (SourceState × String)} (ok (flying, "1")) (ok (s, v))
        → flying ≡ s
    loaded_state s v e = cc

recover-IsRecovery_example :
    (s : SourceState) × (v : String) × (memory.load flying ≡ ok (s, v))
    × (digest s ≡ "d")
    × Stored memory (IsRecovery 9 (9 + poll_interval) s) recovers.0
recover-IsRecovery_example =
    recover-IsRecovery digest memory memory-IsLawful (host_at 9) options flying recovers.0
      counter_fits recovers.1

retry_at_bounds_example :
    (1000 ≤ retry_at (λ s. none) "7" 1000)
    × (is_number "7" ≡ true → retry_at (λ s. none) "7" 1000 < ceiling + second)
    × (is_number "7" ≡ true
        → 1000 + digits_value 0 (codes "7") * second < ceiling
        → retry_at (λ s. none) "7" 1000 ≡ 1000 + digits_value 0 (codes "7") * second)
    × (is_number "7" ≡ false → 1000 < retry_at (λ s. none) "7" 1000)
retry_at_bounds_example = retry_at_bounds (λ s. none) "7" 1000 (omega arith)

abbrev ignore : Outcome → Unit {0} → Result (Unit {0}) × Unit {0}
ignore r s = (ok tt, s)

acquire_requests_example :
    (length (acquire world "http://redump.org" ignore 5 9 cats tt).1.requests ≤ 1)
    × (5 < 9
        → ((acquire world "http://redump.org" ignore 5 9 cats tt).1.requests ≡ [])
          × ((acquire world "http://redump.org" ignore 5 9 cats tt).1.cooldown ≡ 9))
acquire_requests_example = acquire_requests world "http://redump.org" ignore 5 9 cats tt

abbrev batch : Batch (Unit {0})
batch = record { stopped = false; cooldown = 0; requests = []; watcher = tt }

acquire_each-limit_example :
    ((acquire_each world "http://redump.org" ignore 0 (psx ∷ psx ∷ []) batch).1.requests
      ≡ "http://redump.org/datfile/psx" ∷ [])
    × ((acquire_each world "http://redump.org" ignore 0 (psx ∷ psx ∷ []) batch).1.cooldown
        ≡ retry_time world "http://redump.org" ignore 0 (world.reply 0))
    × ((acquire_each world "http://redump.org" ignore 0 (psx ∷ psx ∷ []) batch).1.stopped ≡ true)
acquire_each-limit_example =
    acquire_each-limit world "http://redump.org" ignore 0 psx (psx ∷ []) batch refl refl (inl refl)

flying_checked : check_state flying ≡ ok flying
unfolding run admit commit_watch observe acquire check_state validate_catalogs canonical fetch
    retry_at refuse_if string_eq nat_eq match_string Redump.catalog_id Redump.system_id is_blank
    migrate bad_recovery bad_source Registry-discrete Catalog-discrete bad_schedule acquire_each
    consult is_number parse_uint conclude
flying_checked = refl

check_state_sound_example : (flying ≡ migrate flying) × IsValid flying
check_state_sound_example = check_state_sound flying flying flying_checked

check_state_complete_example : check_state flying ≡ ok flying
check_state_complete_example =
    check_state_complete flying (check_state_sound flying flying flying_checked).1
