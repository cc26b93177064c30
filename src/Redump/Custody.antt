-- ===== src/Redump/Custody.antt =====
-- internal/redump/recovery.go (`load`, `commit`) and scheduler.go (`readState`, `saveState`): where
-- the source state is kept, on a local disk or at a remote checkpoint store.
pub mod Lawful
use romd_dat_catalogs.Prelude.{
  ℕ, suc, String, Bool, true, false, Option, none, some, ltb, if◌then◌else◌, ◌==◌, string_eq,
  Result, ok, err, ◌>>=◌, ◌>>◌, refuse_if, length, ◌≡◌, ◌⊎◌,
}
use romd_dat_catalogs.Publisher.{Bytes}
use romd_dat_catalogs.Redump.State.{SourceState, max_state_bytes, decode_state}
use romd_dat_catalogs.Redump.State.Valid.{IsValid}

-- What the scheduler asks of its custody: the state and its version, and a write behind a version.
pub record Custody (S : Type 0) : Type 0 where
  pub load : S → Result (SourceState × String)
  pub commit : String → SourceState → S → Result String × S

-- What it relies on. A failed write may have happened or not.
pub record IsLawful {S : Type 0} (c : Custody S) : Type 0 where
  pub loaded : (s : SourceState) (v : String) (st : S) → c.load st ≡ ok (s, v) → IsValid s
  pub committed :
      (v v' : String) (s : SourceState) (st st' : S)
      → IsValid s
      → c.commit v s st ≡ (ok v', st')
      → (u : String) × (c.load st' ≡ ok (s, u))
  pub failed :
      (v e : String) (s : SourceState) (st st' : S)
      → IsValid s
      → c.commit v s st ≡ (err e, st')
      → (c.load st' ≡ c.load st) ⊎ ((u : String) × (c.load st' ≡ ok (s, u)))

-- encoding/json on a state.
pub record Json : Type 0 where
  pub encode : SourceState → Bytes
  pub decode : Bytes → Result SourceState

-- What one `saveState` meets: nothing, an error before the rename, or one of the directory's sync
-- behind it.
pub data Fault : Type 0 where
  no_fault : Fault
  before_rename : Fault
  after_rename : Fault

-- The state directory: `state.json`, and what the coming writes meet.
pub record Directory : Type 0 where
  pub state_file : Option Bytes
  pub fault : ℕ → Fault
  pub writes : ℕ

unfoldable pub refuse_commit :
    {S : Type 0} → Bool → String → S → Result String × S → Result String × S
refuse_commit true e st k = (err e, st)
refuse_commit false e st k = k

abbrev pub write_state : Fault → Bytes → String → Directory → Result String × Directory
write_state no_fault raw v d = (ok v, record d { state_file = some raw })
write_state before_rename raw v d = (err "io failure", d)
write_state after_rename raw v d = (err "io failure", record d { state_file = some raw })

abbrev pub next_write : Directory → Directory
next_write d = record d { writes = suc d.writes }

abbrev pub with_version : String → SourceState → Result (SourceState × String)
with_version v s = ok (s, v)

abbrev pub read_state : Json → Option Bytes → Result (SourceState × String)
read_state json none = err "file does not exist"
read_state json (some raw) = decode_state json.decode raw >>= with_version ""

-- `readState` and `saveState`, the custody of a scheduler without a checkpoint store.
unfoldable pub local : Json → Custody Directory
local json = record {
  load = λ d. read_state json d.state_file;
  commit = λ v s d.
      refuse_commit (ltb max_state_bytes (length (json.encode s))) "source state size limit" d
        (write_state (d.fault d.writes) (json.encode s) v (next_write d));
}

-- `CheckpointStore`
pub record CheckpointStore (S : Type 0) : Type 0 where
  pub load : S → Result (Bytes × String)
  pub compare_and_swap : String → Bytes → S → Result String × S

abbrev pub receipt : {S : Type 0} → Result String × S → Result String × S
receipt (err e, st) = (err e, st)
receipt (ok next, st) = (if next == "" then err "checkpoint receipt missing" else ok next, st)

abbrev pub read_checkpoint : Json → Bytes × String → Result (SourceState × String)
read_checkpoint json (raw, v) =
    if v == ""
    then err "checkpoint version missing"
    else decode_state json.decode raw >>= with_version v

-- `load` and `commit` of a scheduler with one.
unfoldable pub remote : {S : Type 0} → Json → CheckpointStore S → Custody S
remote json store = record {
  load = λ st. store.load st >>= read_checkpoint json;
  commit = λ v s st.
      refuse_commit (ltb max_state_bytes (length (json.encode s))) "source state size limit" st
        (receipt (store.compare_and_swap v (json.encode s) st));
}
