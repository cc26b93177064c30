-- ===== src/Command.antt =====
-- cmd/publisher/main.go: which catalogs a publication asks its providers for, and when it does not.
pub mod Rests
use romd_dat_catalogs.Prelude.{
  ℕ, suc, ◌+◌, String, Bool, true, false, not, ◌&&◌, ◌||◌, Option, none, some, List, [], ◌∷◌, ◌++◌,
  length, ltb, leb, if◌then◌else◌, ◌==◌, contains, string_eq, nat_eq, Result, ok, err, ◌>>=◌, ◌>>◌,
  refuse_if,
}
use romd_dat_catalogs.Prelude.Dict.{Dict, lookup, insert}
use romd_dat_catalogs.Publisher.{Attempt, Catalog}
use romd_dat_catalogs.Definitions.{Catalog as Definition, has_key}
use romd_dat_catalogs.Redump.Adapter.{prepend}

abbrev max_selected_catalogs : ℕ
max_selected_catalogs = 32

-- `catalogFlags.Set`, the value first.
unfoldable pub set_flag : String → List String → Result (List String)
set_flag value flags =
    if value == "" then err "empty catalog selection" else ok (flags ++ (value ∷ []))

-- The arguments behind the flags' parse; `rest` are those that are no flags.
pub record Arguments : Type 0 where
  pub output : String
  pub paused : Bool
  pub active : List String
  pub pauses : List String
  pub rest : List String

unfoldable pub bad_usage : Arguments → List String → Bool
bad_usage args selected =
    args.output == ""
    || (length selected == 0 && (not (length args.rest == 1) || args.paused))
    || (ltb 0 (length selected) && not (length args.rest == 0))

-- The selection: what is active first, what is paused behind it.
unfoldable pub selection : Arguments → Result (List String)
selection args = do
  let selected = args.active ++ args.pauses
  refuse_if (bad_usage args selected) "usage"
  refuse_if (ltb max_selected_catalogs (length selected))
      "at most %d catalog selections are allowed"
  ok selected

-- Every catalog selected is known, and none twice.
unfoldable pub check_selected : Dict Definition → List String → List String → Result (Unit {0})
check_selected registry seen [] = ok tt
check_selected registry seen (id ∷ rest) = do
  refuse_if (not (has_key id registry)) "unknown catalog selection"
  refuse_if (contains seen id) "duplicate catalog selection"
  check_selected registry (id ∷ seen) rest

-- What the command takes from elsewhere: the clock and the two adapters, by the round that asks,
-- the form of a time and of a source's URL.
pub record Shell : Type 0 where
  pub now : ℕ → ℕ
  pub no_intro : ℕ → Result Attempt
  pub redump : ℕ → Result (List Attempt)
  pub parse_time : String → Option ℕ
  pub format_time : ℕ → String
  pub source_url : Definition → String

-- `retryByProvider[p]`, with a missing key as the zero time.
abbrev at_zero : Option ℕ → ℕ
at_zero none = 0
at_zero (some t) = t

unfoldable pub deadline : String → Dict ℕ → ℕ
deadline p d = at_zero (lookup p d)

unfoldable pub wait : String → Option ℕ → Dict ℕ → Dict ℕ
wait p none d = d
wait p (some t) d = if ltb (deadline p d) t then insert p t d else d

abbrev parsed : Shell → String → Option String → Result (Option ℕ)
parsed sh message none = ok none
parsed sh message (some text) = elim (sh.parse_time text) [
  | none ↦ err message
  | some t ↦ ok (some t)
]

-- The retry time of one published catalog, if the registry knows it.
unfoldable pub published_retry : Shell → Option Definition → Catalog → Result (Option ℕ)
published_retry sh none c = ok none
published_retry sh (some def) c = do
  refuse_if (not (c.name == def.expected_name))
      "catalog identity changed; explicit migration required"
  parsed sh "invalid published retry time" c.retry_at

abbrev provider_of : Option Definition → String
provider_of none = ""
provider_of (some def) = def.provider

-- The providers' deadlines that the published catalogs carry.
unfoldable pub deadlines : Shell → Dict Definition → Dict Catalog → Dict ℕ → Result (Dict ℕ)
deadlines sh registry [] d = ok d
deadlines sh registry ((id, c) ∷ rest) d = do
  t ← published_retry sh (lookup id registry) c
  deadlines sh registry rest (wait (provider_of (lookup id registry)) t d)

-- One request to a provider's adapter.
pub record Asked : Type 0 where
  pub provider : String
  pub id : String
  pub at : ℕ

-- What a round comes to: nothing, an attempt without a request, or a request.
pub data Choice : Type 0 where
  skip : Choice
  report : Attempt → Choice
  ask : Choice

abbrev failed_attempt : Shell → String → Definition → String → Option String → Attempt
failed_attempt sh id def failure retry = record {
  retry_at = retry;
  catalog_id = id;
  expected_name = def.expected_name;
  source_url = sh.source_url def;
  path = none;
  failure = some failure;
}

abbrev pause : Shell → String → Definition → Option Catalog → Choice
pause sh id def none = skip
pause sh id def (some old) = report (failed_attempt sh id def "publication_paused" old.retry_at)

abbrev is_stamped : Option Catalog → String → Bool
is_stamped none stamp = false
is_stamped (some old) stamp = elim old.retry_at [ none ↦ false | some t ↦ t == stamp ]

abbrev back_off : Shell → String → Definition → Option Catalog → ℕ → Choice
back_off sh id def old retry =
    if is_stamped old (sh.format_time retry)
    then skip
    else report (failed_attempt sh id def "provider_backoff" (some (sh.format_time retry)))

unfoldable pub choose : Shell → Bool → ℕ → String → Definition → Option Catalog → Dict ℕ → Choice
choose sh is_paused i id def old d =
    if is_paused
    then pause sh id def old
    else if ltb (sh.now i) (deadline def.provider d)
    then back_off sh id def old (deadline def.provider d)
    else ask

abbrev only : List Attempt → Result Attempt
only [] = err "unexpected acquisition result count"
only (a ∷ []) = ok a
only (a ∷ b ∷ rest) = err "unexpected acquisition result count"

-- The request itself.
unfoldable pub acquire_one : Shell → ℕ → String → Result Attempt
acquire_one sh i provider =
    if provider == "no-intro"
    then sh.no_intro i
    else if provider == "redump"
    then sh.redump i >>= only
    else err "unsupported provider"

unfoldable pub acquire_timed : Shell → ℕ → String → Result (Attempt × Option ℕ)
acquire_timed sh i provider = do
  a ← acquire_one sh i provider
  t ← parsed sh "invalid acquisition retry time" a.retry_at
  ok (a, t)

abbrev zero_definition : Definition
zero_definition = record {
  system_id = "";
  provider = "";
  provider_system_id = "";
  representation = "";
  expected_name = "";
  minimum_games = 0;
  minimum_roms = 0;
}

abbrev pub found : Option Definition → Definition
found none = zero_definition
found (some def) = def

-- The attempts, and the requests made for them, the last one first.
abbrev pub Collected : Type 0
Collected = Result (List Attempt) × List Asked

abbrev with_attempt : Attempt → Collected → Collected
with_attempt a (r, asked) = (prepend a r, asked)

pub record Selected : Type 0 where
  pub registry : Dict Definition
  pub published : Dict Catalog
  pub all_paused : Bool
  pub active : ℕ

-- What a round leaves: the end of the run, or an attempt or none, the deadlines and the requests.
pub data Step : Type 0 where
  halt : String → List Asked → Step
  next : Option Attempt → Dict ℕ → List Asked → Step

unfoldable pub settle : String → Dict ℕ → List Asked → Result (Attempt × Option ℕ) → Step
settle provider d asked (err e) = halt e asked
settle provider d asked (ok (a, t)) = next (some a) (wait provider t d) asked

unfoldable pub take_round : Shell → ℕ → String → Definition → Dict ℕ → List Asked → Choice → Step
unfolding settle
take_round sh i id def d asked skip = next none d asked
take_round sh i id def d asked (report a) = next (some a) d asked
take_round sh i id def d asked ask =
    settle def.provider d (record { provider = def.provider; id = id; at = sh.now i } ∷ asked)
      (acquire_timed sh i def.provider)

unfoldable pub proceed : Step → (Dict ℕ → List Asked → Collected) → Collected
proceed (halt e asked) k = (err e, asked)
proceed (next none d asked) k = k d asked
proceed (next (some a) d asked) k = with_attempt a (k d asked)

-- The loop over the selection.
unfoldable pub collect : Shell → Selected → ℕ → List String → Dict ℕ → List Asked → Collected
unfolding take_round proceed
collect sh sel i [] d asked = (ok [], asked)
collect sh sel i (id ∷ rest) d asked =
    let def = found (lookup id sel.registry) in
    let choice =
      choose sh (sel.all_paused || leb sel.active i) i id def (lookup id sel.published) d in
    proceed (take_round sh i id def d asked choice) (collect sh sel (suc i) rest)
