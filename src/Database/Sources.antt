-- ===== src/Database/Sources.antt =====
-- internal/storage/sqlite/server_source_state.go, and the trigger trg_epoch_reject_active_maintenance of
-- internal/storage/sqlite/maintenance_schema.sql.
use airgap_mirror.Prelude.{Bool, true, false, ◌&&◌, ◌||◌, not, [], ◌∷◌, beq, if◌then◌else◌}
use airgap_mirror.Prelude.Tables.{find, modify, affects}
use airgap_mirror.Domain.Status.{Text, SourceType, MaintenanceStatus}
use airgap_mirror.Domain.Types.{Source, SourceState, MaintenanceJob}
use airgap_mirror.Domain.Transitions.{Err}
use airgap_mirror.Domain.Result.{Result, ok, ◌>>=◌, ◌>>◌, check, found}
use airgap_mirror.Database.{Database}

unfoldable pub source_type_eq : SourceType → SourceType → Bool
source_type_eq SourceType.apt SourceType.apt = true
source_type_eq SourceType.pypi SourceType.pypi = true
source_type_eq SourceType.npm SourceType.npm = true
source_type_eq SourceType.maven SourceType.maven = true
source_type_eq (SourceType.other a) (SourceType.other b) = beq a b
source_type_eq _ _ = false

-- CHECK(type IN('apt','pypi','npm','maven'))
unfoldable pub unknown_type : SourceType → Bool
unknown_type (SourceType.other _) = true
unknown_type _ = false

unfoldable pub is_source : Text → Source → Bool
is_source id v = beq v.id id

unfoldable pub state_of : Text → SourceState → Bool
state_of id v = beq v.source_id id

-- COALESCE(active_epoch_id,'') <> ''
unfoldable pub busy : SourceState → Bool
busy v = not (beq v.active_epoch_id [])

unfoldable pub active_state : Text → SourceState → Bool
unfolding state_of busy
active_state id v = state_of id v && busy v

-- status IN('QUEUED','RUNNING')
unfoldable pub is_active : MaintenanceStatus → Bool
is_active MaintenanceStatus.queued = true
is_active MaintenanceStatus.running = true
is_active _ = false

unfoldable pub active_job : Text → MaintenanceJob → Bool
unfolding is_active
active_job id j = beq j.source_id id && is_active j.status

-- The row that CreateSource writes into source_states.
unfoldable pub initial_state : Source → SourceState
initial_state v = record {
  source_id = v.id;
  live_cursor = record { kind = []; value = [] };
  catalog_version = 0;
  live_bytes = 0;
  live_objects = 0;
  active_epoch_id = [];
  updated_at = v.updated_at;
}

unfoldable pub create_source : Source → Database → Result Database
unfolding initial_state
create_source v db = do
  check (affects (is_source v.id) db.sources || unknown_type v.type) Err.other
  check (affects (state_of v.id) db.states) Err.other
  ok (record db { sources = v ∷ db.sources; states = initial_state v ∷ db.states })

unfoldable pub set_source : Source → Source → Source
set_source v x = record x {
  name = v.name;
  type = v.type;
  provider = v.provider;
  upstream_url = v.upstream_url;
  root_path = v.root_path;
  public_url = v.public_url;
  enabled = v.enabled;
  config = v.config;
  updated_at = v.updated_at;
}

-- oldType != v.Type || oldProvider != v.Provider || oldRoot != v.RootPath
unfoldable pub moves : Source → Source → Bool
moves old v =
    not (source_type_eq old.type v.type)
    || not (beq old.provider v.provider)
    || not (beq old.root_path v.root_path)

unfoldable pub update_source : Source → Database → Result Database
unfolding set_source
update_source v db = do
  old ← found (find (is_source v.id) db.sources)
  st ← found (find (state_of v.id) db.states)
  check (busy st && moves old v) Err.conflict
  check (unknown_type v.type) Err.other
  ok (record db { sources = modify (is_source v.id) (set_source v) db.sources })

unfoldable pub get_source : Text → Database → Result Source
get_source id db = found (find (is_source id) db.sources)

unfoldable pub get_state : Text → Database → Result SourceState
get_state id db = found (find (state_of id) db.states)

unfoldable pub set_state : SourceState → SourceState → SourceState
set_state v x = record x {
  live_cursor = v.live_cursor;
  catalog_version = v.catalog_version;
  live_bytes = v.live_bytes;
  live_objects = v.live_objects;
  active_epoch_id = v.active_epoch_id;
  updated_at = v.updated_at;
}

-- WHEN COALESCE(NEW.active_epoch_id,'') <> '' AND EXISTS(...), for a row of source_states of `id`.
unfoldable pub epoch_blocked : Text → Text → Database → Bool
epoch_blocked id epoch db = not (beq epoch []) && affects (active_job id) db.jobs

-- PutState. Only the update of a row fires the trigger.
unfoldable pub put_state : Bool → SourceState → Database → Result Database
unfolding set_state
put_state fk v db =
    if affects (state_of v.source_id) db.states
    then (do
      check (epoch_blocked v.source_id v.active_epoch_id db) Err.other
      ok (record db { states = modify (state_of v.source_id) (set_state v) db.states }))
    else (do
      check (fk && not (affects (is_source v.source_id) db.sources)) Err.other
      ok (record db { states = v ∷ db.states }))
