-- ===== src/Redump/State/Valid.antt =====
-- The check of a state, as facts.
use romd_dat_catalogs.Prelude.{
  String, List, ◌+◌, ◌≤◌, ◌≡◌, refl, sym, subst, ◌≢◌, ◌↔◌, true, false, Option, none, some, arith,
  ◌==◌, string_eq, nat_eq, Result, ok, err, refuse_if, refuse_if-passed,
}
use romd_dat_catalogs.Redump.{Catalog, registry_eq, validate_catalogs, canonical}
use romd_dat_catalogs.Redump.State.{
  RecoveryRecord, SourceState, state_format, is_err, poll_interval, disposition_name, migrate,
  bad_recovery, bad_source, bad_schedule, check_state, same_bool, is_none,
}

-- The schedule: never started, or the next attempt is a day behind the last one at least.
pub record IsScheduled (s : SourceState) : Type 0 where
  pub started : (s.last_attempt ≡ 0) ↔ (s.next_attempt ≡ 0)
  pub spaced : s.last_attempt ≢ 0 → s.last_attempt + poll_interval ≤ s.next_attempt
  pub flown : s.in_flight ≡ true → s.last_attempt ≢ 0

-- The recovery on record, if any, lies between its attempt and the next one.
abbrev pub IsRecovered : SourceState → Option RecoveryRecord → Type 0
IsRecovered s none = s.recovery_count ≡ 0
IsRecovered s (some r) =
    (s.recovery_count ≢ 0)
    × (r.disposition ≡ disposition_name)
    × (r.interrupted_attempt ≤ r.at)
    × (r.at ≤ r.not_before)
    × (r.interrupted_attempt ≢ 0)
    × (r.interrupted_attempt ≤ s.last_attempt)
    × (r.interrupted_attempt + poll_interval ≤ r.not_before)
    × (r.not_before ≤ s.next_attempt)

-- The source: a state of the present format, of a named origin, whose registry is accepted and
-- stands in its canonical form.
pub record IsSource (format origin : String) (registry : List Catalog) : Type 0 where
  pub present : format ≡ state_format
  pub named : origin ≢ ""
  pub accepted : (u : Unit {0}) × (validate_catalogs registry ≡ ok u)
  pub ordered : registry ≡ canonical registry

pub record IsValid (s : SourceState) : Type 0 where
  pub scheduled : IsScheduled s
  pub recovered : IsRecovered s s.recovery
  pub source : IsSource s.format s.origin s.registry

is_err-false : (r : Result (Unit {0})) → (is_err r ≡ false) ↔ ((u : Unit {0}) × (r ≡ ok u))
is_err-false (ok u) = (λ h. (u, refl), λ h. refl)
is_err-false (err e) = (λ h. absurd cc, λ (u, h). absurd cc)

IsSource-iff : (s : SourceState) → (bad_source s ≡ false) ↔ IsSource s.format s.origin s.registry
unfolding bad_source
IsSource-iff s = (
  λ h. record {
    present = ground (arith, h);
    named = ground (arith, h);
    accepted = (is_err-false (validate_catalogs s.registry)).0 (ground (arith, h));
    ordered = ground (arith, h);
  },
  λ k.
      let f = k.present in
      let o = k.named in
      let c = k.ordered in
      let a = (is_err-false (validate_catalogs s.registry)).1 k.accepted in
      ground (arith, f, o, c, a),
)

schedule_iff : (s : SourceState) → (bad_schedule s ≡ false) ↔ IsScheduled s
unfolding bad_schedule
schedule_iff s = (λ h. ground arith, λ h. ground arith)

recovery_iff :
    (s : SourceState) (o : Option RecoveryRecord)
    → ((same_bool (s.recovery_count == 0) (is_none o) ≡ true) × (bad_recovery s o ≡ false))
      ↔ IsRecovered s o
unfolding bad_recovery
recovery_iff s none = (λ h. ground arith, λ h. ground arith)
recovery_iff s (some r) = (λ h. ground arith, λ h. ground arith)

migrate_same : (s : SourceState) → bad_source s ≡ false → migrate s ≡ s
unfolding bad_source migrate
migrate_same s h = ground arith

-- A state that passes the check is the migrated one and is valid: its schedule, its recovery
-- record and its source are in order.
pub check_state_sound :
    (raw s : SourceState) → check_state raw ≡ ok s → (s ≡ migrate raw) × IsValid s
unfolding check_state
check_state_sound raw s e =
    let (history, e₁) = refuse_if-passed _ _ _ e in
    let (record_ok, e₂) = refuse_if-passed _ _ _ e₁ in
    let (source, e₃) = refuse_if-passed _ _ _ e₂ in
    let (schedule, e₄) = refuse_if-passed _ _ _ e₃ in
    let same : migrate raw ≡ s = cc in
    (
      sym same,
      subst IsValid same (record {
        scheduled = (schedule_iff (migrate raw)).0 schedule;
        recovered = (recovery_iff (migrate raw) (migrate raw).recovery).0 (ground arith, record_ok);
        source = (IsSource-iff (migrate raw)).0 source;
      }),
    )

-- A state whose schedule, recovery record and source are in order passes the check unchanged: it
-- is of the present format and a named origin, with an accepted registry in canonical form.
pub check_state_complete : (s : SourceState) → IsValid s → check_state s ≡ ok s
unfolding check_state refuse_if
check_state_complete s v =
    let (history, record_ok) = (recovery_iff s s.recovery).1 v.recovered in
    let sourced = (IsSource-iff s).1 v.source in
    rw (migrate_same s sourced)
      (rw (history, record_ok, sourced, (schedule_iff s).1 v.scheduled) refl)
