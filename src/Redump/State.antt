-- ===== src/Redump/State.antt =====
-- internal/redump/scheduler.go and recovery.go: the durable source state and its check.
pub mod Valid
use romd_dat_catalogs.Prelude.{
  ℕ, ◌+◌, ◌-◌, ◌^◌, String, Bool, true, false, not, ◌&&◌, ◌||◌, Option, none, some, List, [], ◌∷◌,
  ltb, if◌then◌else◌, ◌==◌, string_eq, nat_eq, Result, ok, err, ◌>>=◌, ◌>>◌, refuse_if, length,
}
use romd_dat_catalogs.Publisher.{Bytes}
use romd_dat_catalogs.Redump.{Catalog, registry_eq, validate_catalogs, canonical}

abbrev pub state_format : String
state_format = "romd-redump-state-2"

-- 24 hours.
abbrev pub poll_interval : ℕ
poll_interval = 86400000000000

abbrev pub max_state_bytes : ℕ
max_state_bytes = 1048576

pub record RecoveryRecord : Type 0 where
  pub at : ℕ
  pub interrupted_attempt : ℕ
  pub not_before : ℕ
  pub disposition : String

pub record SourceState : Type 0 where
  pub format : String
  pub origin : String
  pub registry : List Catalog
  pub in_flight : Bool
  pub last_attempt : ℕ
  pub next_attempt : ℕ
  pub recovery_count : ℕ  -- uint64
  pub recovery : Option RecoveryRecord

abbrev is_none : Option RecoveryRecord → Bool
is_none none = true
is_none (some r) = false

abbrev same_bool : Bool → Bool → Bool
same_bool true b = b
same_bool false b = not b

-- A state of the first format with no recovery is read as one of the second.
unfoldable pub migrate : SourceState → SourceState
migrate s =
    if s.format == "romd-redump-state-1" && is_none s.recovery && s.recovery_count == 0
    then record s { format = state_format }
    else s

abbrev pub disposition_name : String
disposition_name = "discard-unpublished-candidates"

unfoldable pub bad_recovery : SourceState → Option RecoveryRecord → Bool
bad_recovery s none = false
bad_recovery s (some r) =
    not (r.disposition == disposition_name)
    || ltb r.at r.interrupted_attempt
    || ltb r.not_before r.at
    || r.interrupted_attempt == 0
    || ltb s.last_attempt r.interrupted_attempt
    || ltb r.not_before (r.interrupted_attempt + poll_interval)
    || ltb s.next_attempt r.not_before

abbrev pub is_err : Result (Unit {0}) → Bool
is_err (ok u) = false
is_err (err e) = true

unfoldable pub bad_source : SourceState → Bool
bad_source s =
    not (s.format == state_format)
    || s.origin == ""
    || is_err (validate_catalogs s.registry)
    || not (s.registry == canonical s.registry)

unfoldable pub bad_schedule : SourceState → Bool
bad_schedule s =
    not (same_bool (s.last_attempt == 0) (s.next_attempt == 0))
    || (not (s.last_attempt == 0) && ltb s.next_attempt (s.last_attempt + poll_interval))
    || (s.in_flight && s.last_attempt == 0)

-- The checks of `decodeState` behind the JSON decoder.
unfoldable pub check_state : SourceState → Result SourceState
check_state raw = do
  let s = migrate raw
  refuse_if (not (same_bool (s.recovery_count == 0) (is_none s.recovery)))
      "invalid recovery history"
  refuse_if (bad_recovery s s.recovery) "invalid recovery record"
  refuse_if (bad_source s) "invalid source state"
  refuse_if (bad_schedule s) "invalid source schedule"
  ok s

-- `decodeState`. The parameter is encoding/json's strict decoder of one value with nothing behind
-- it.
unfoldable pub decode_state : (Bytes → Result SourceState) → Bytes → Result SourceState
unfolding check_state
decode_state decode raw = do
  refuse_if (ltb max_state_bytes (length raw)) "source state size limit"
  s ← decode raw
  check_state s
