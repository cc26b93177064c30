-- ===== src/Redump/Scheduler.antt =====
-- internal/redump/scheduler.go and recovery.go: `Initialize`, `Run`, `Inspect` and `Recover`.
pub mod Observed
pub mod Stored
pub mod Spaced
pub mod Runs
pub mod Recovered
use romd_dat_catalogs.Prelude.{
  ℕ, ◌+◌, ◌^◌, ◌-◌, ◌%◌, String, Bool, true, false, not, ◌&&◌, ◌||◌, Option, none, some, List, [],
  ◌∷◌, ltb, if◌then◌else◌, ◌==◌, string_eq, nat_eq, Result, ok, err, ◌>>=◌, ◌>>◌, refuse_if,
}
use romd_dat_catalogs.Redump.{Catalog, registry_eq, validate_catalogs, canonical}
use romd_dat_catalogs.Redump.State.{
  SourceState, RecoveryRecord, state_format, poll_interval, disposition_name,
}
use romd_dat_catalogs.Redump.Adapter.{World, Outcome, Batch, acquire}
use romd_dat_catalogs.Redump.Custody.{Custody}

-- What a call of the scheduler meets beside the custody: whether the context is done, the state
-- directory and its lock, the clock, and whether the staging directory exists.
pub record Host : Type 0 where
  pub cancelled : Bool
  pub make_root : Result (Unit {0})
  pub lock : Result (Unit {0})
  pub now : ℕ
  pub has_stage : Bool
  pub origin : String
  pub world : World
  pub started : ℕ
  pub cooldown : ℕ

abbrev blank_state : String → List Catalog → SourceState
blank_state origin catalogs = record {
  format = state_format;
  origin = origin;
  registry = canonical catalogs;
  in_flight = false;
  last_attempt = 0;
  next_attempt = 0;
  recovery_count = 0;
  recovery = none;
}

abbrev pub done_with : {S : Type 0} → Result String × S → Result (Unit {0}) × S
done_with (r, st) = (r >> ok tt, st)

-- `Initialize`
unfoldable pub initialize :
    {S : Type 0} → Custody S → Host → List Catalog → S → Result (Unit {0}) × S
initialize custody host catalogs st =
    elim (validate_catalogs catalogs >> host.make_root >> host.lock) [
      | err e ↦ (err e, st)
      | ok _ ↦ done_with (custody.commit "" (blank_state host.origin catalogs) st)
    ]

-- What `Run` checks before its admission, and the state and version it goes on with.
unfoldable pub admit :
    {S : Type 0} → Custody S → Host → List Catalog → S → Result (SourceState × String)
admit custody host catalogs st = do
  refuse_if host.cancelled "context canceled"
  validate_catalogs catalogs
  host.make_root
  host.lock
  (state, version) ← custody.load st
  refuse_if (not (state.origin == host.origin) || not (state.registry == canonical catalogs))
      "source registry changed; reviewed migration required"
  refuse_if state.in_flight "incomplete source run; recovery review required"
  refuse_if (host.now == 0 || ltb host.now state.last_attempt) "source clock regressed"
  refuse_if (ltb host.now state.next_attempt) "source check not yet due"
  refuse_if host.has_stage "staging directory must be new"
  ok (state, version)

-- The variables that the observer of a batch writes: the state, its version and the custody.
pub record Watch (S : Type 0) : Type 0 where
  pub state : SourceState
  pub version : String
  pub store : S

abbrev committed : {S : Type 0} → Watch S → Result String × S → Result (Unit {0}) × Watch S
committed w (ok v, st) = (ok tt, record w { version = v; store = st })
committed w (err e, st) = (err e, record w { store = st })

-- `s.commit(ctx, state, &version)`
unfoldable pub commit_watch : {S : Type 0} → Custody S → Watch S → Result (Unit {0}) × Watch S
commit_watch custody w = committed w (custody.commit w.version w.state w.store)

-- The observer: a later retry time is written before the batch goes on.
unfoldable pub observe : {S : Type 0} → Custody S → Outcome → Watch S → Result (Unit {0}) × Watch S
observe custody r w =
    if ltb w.state.next_attempt r.retry_at
    then commit_watch custody (record w { state = record w.state { next_attempt = r.retry_at } })
    else (ok tt, w)

-- A call's answer, the requests it made, and the custody behind it.
abbrev pub Ran : Type 0 → Type 0
Ran S = Result (List Outcome) × List String × S

abbrev finished : {S : Type 0} → List Outcome → List String → Result (Unit {0}) × Watch S → Ran S
finished results asked (ok _, w) = (ok results, asked, w.store)
finished results asked (err e, w) = (err e, asked, w.store)

abbrev landed : SourceState → SourceState
landed s = record s { in_flight = false }

unfoldable pub complete : {S : Type 0} → Custody S → Result (List Outcome) × Batch (Watch S) → Ran S
complete custody (err e, b) = (err e, b.requests, b.watcher.store)
complete custody (ok results, b) =
    finished results b.requests
      (commit_watch custody (record b.watcher { state = landed b.watcher.state }))

unfoldable pub fly :
    {S : Type 0} → Custody S → Host → List Catalog → Result (Unit {0}) × Watch S → Ran S
unfolding complete
fly custody host catalogs (err e, w) = (err e, [], w.store)
fly custody host catalogs (ok _, w) = complete custody (
    acquire host.world host.origin (observe custody) host.started host.cooldown (canonical catalogs)
      w)

abbrev pub admitted : ℕ → SourceState → SourceState
admitted now s = record s {
  in_flight = true;
  last_attempt = now;
  next_attempt = now + poll_interval;
}

unfoldable pub launch :
    {S : Type 0} → Custody S → Host → List Catalog → S → Result (SourceState × String) → Ran S
unfolding fly
launch custody host catalogs st (err e) = (err e, [], st)
launch custody host catalogs st (ok (s, v)) =
    fly custody host catalogs
      (commit_watch custody (record { state = admitted host.now s; version = v; store = st }))

-- `Run`
unfoldable pub run : {S : Type 0} → Custody S → Host → List Catalog → S → Ran S
unfolding launch
run custody host catalogs st = launch custody host catalogs st (admit custody host catalogs st)

-- `RecoveryOptions`, with the digest as the state that was reviewed hashes to.
pub record RecoveryOptions : Type 0 where
  pub expected_digest : String
  pub not_before : ℕ
  pub confirmed_stopped : Bool
  pub confirmed_retry_window : Bool
  pub discard_candidates : Bool

pub record Review : Type 0 where
  pub digest : String
  pub in_flight : Bool
  pub last_attempt : ℕ
  pub next_attempt : ℕ
  pub recovery_count : ℕ

-- `review`. The parameter is the hash of the state's JSON text.
unfoldable pub review : (SourceState → String) → SourceState → Review
review digest s = record {
  digest = digest s;
  in_flight = s.in_flight;
  last_attempt = s.last_attempt;
  next_attempt = s.next_attempt;
  recovery_count = s.recovery_count;
}

-- `Inspect`
unfoldable pub inspect :
    {S : Type 0} → (SourceState → String) → Custody S → Host → S → Result Review
inspect digest custody host st = do
  host.make_root
  host.lock
  (state, version) ← custody.load st
  ok (review digest state)

-- What `Recover` checks, and the state and version it goes on with.
unfoldable pub reviewed :
    {S : Type 0}
    → (SourceState → String)
    → Custody S
    → Host
    → RecoveryOptions
    → S
    → Result (SourceState × String)
reviewed digest custody host opt st = do
  refuse_if host.cancelled "context canceled"
  refuse_if
      (not opt.confirmed_stopped || not opt.confirmed_retry_window || not opt.discard_candidates)
      "stopped runner, retry-window review, and candidate disposition required"
  host.make_root
  host.lock
  (state, version) ← custody.load st
  refuse_if (not state.in_flight) "source is not interrupted"
  refuse_if (not ((review digest state).digest == opt.expected_digest)) "recovery review is stale"
  refuse_if
      (host.now == 0
        || ltb host.now state.last_attempt
        || opt.not_before == 0
        || ltb opt.not_before host.now
        || ltb opt.not_before state.next_attempt)
      "recovery cannot shorten retry deadline or regress time"
  refuse_if (state.recovery_count == 2 ^ 64 - 1) "recovery counter exhausted"
  ok (state, version)

unfoldable pub recovered : ℕ → ℕ → SourceState → SourceState
recovered now not_before s = record s {
  recovery_count = (s.recovery_count + 1) % 2 ^ 64;
  recovery = some (record {
    at = now;
    interrupted_attempt = s.last_attempt;
    not_before = not_before;
    disposition = disposition_name;
  });
  next_attempt = not_before;
  in_flight = false;
}

unfoldable pub resume :
    {S : Type 0} → Custody S → ℕ → ℕ → S → Result (SourceState × String) → Result (Unit {0}) × S
unfolding recovered
resume custody now not_before st (err e) = (err e, st)
resume custody now not_before st (ok (s, v)) =
    done_with (custody.commit v (recovered now not_before s) st)

-- `Recover`
unfoldable pub recover :
    {S : Type 0}
    → (SourceState → String)
    → Custody S
    → Host
    → RecoveryOptions
    → S
    → Result (Unit {0}) × S
unfolding resume
recover digest custody host opt st =
    resume custody host.now opt.not_before st (reviewed digest custody host opt st)
