-- ===== src/Database/Jobs.antt =====
-- internal/storage/sqlite/server_maintenance.go and server_maintenance_recovery.go, with the index and the
-- trigger on maintenance_jobs of internal/storage/sqlite/maintenance_schema.sql.
pub mod Recovery
use airgap_mirror.Prelude.{
  ℕ, Bool, true, false, ◌&&◌, ◌||◌, not, List, [], ◌∷◌, beq, if◌then◌else◌, none, some, Option,
  ◌==◌,
}
use airgap_mirror.Prelude.Int64.{lt64}
use airgap_mirror.Prelude.Tables.{find, modify, affects, count}
use airgap_mirror.Domain.Status.{Text, MaintenanceStatus, MaintenanceKind, maintenance_eq}
use airgap_mirror.Domain.Types.{MaintenanceJob}
use airgap_mirror.Domain.Transitions.{Err, validate_maintenance_transition}
use airgap_mirror.Domain.Result.{Result, ok, err, ◌>>=◌, ◌>>◌, check, pass, found}
use airgap_mirror.Database.{Database}
use airgap_mirror.Database.Sources.{is_source, active_state, active_job, is_active}

-- ports.MaintenanceProgress
pub record Progress : Type 0 where
  pub scanned_objects : ℕ
  pub scanned_bytes : ℕ
  pub candidate_objects : ℕ
  pub candidate_bytes : ℕ
  pub affected_objects : ℕ
  pub affected_bytes : ℕ

unfoldable pub is_job : Text → MaintenanceJob → Bool
is_job id j = beq j.id id

unfoldable pub unknown_kind : MaintenanceKind → Bool
unknown_kind (MaintenanceKind.other _) = true
unknown_kind _ = false

-- The row that the INSERT writes: the other columns have their defaults.
unfoldable pub new_job : MaintenanceJob → MaintenanceJob
new_job j = record {
  id = j.id;
  source_id = j.source_id;
  kind = j.kind;
  status = j.status;
  execute = j.execute;
  scanned_objects = 0;
  scanned_bytes = 0;
  candidate_objects = 0;
  candidate_bytes = 0;
  affected_objects = 0;
  affected_bytes = 0;
  temp_catalog_path = [];
  created_at = j.created_at;
  started_at = none;
  completed_at = none;
  error_text = [];
}

-- CreateMaintenanceJob: its tests, the trigger, the primary key and the unique index, REFERENCES. The
-- zero time.Time is 0.
unfoldable pub create_maintenance_job : Bool → MaintenanceJob → Database → Result Database
unfolding new_job
create_maintenance_job fk j db = do
  check (beq j.id [] || beq j.source_id []) Err.invalid
  check (unknown_kind j.kind) Err.invalid
  check (not (maintenance_eq j.status MaintenanceStatus.queued)) Err.invalid
  check (j.created_at == 0) Err.invalid
  check (affects (active_state j.source_id) db.states) Err.conflict
  check (affects (is_job j.id) db.jobs || affects (active_job j.source_id) db.jobs) Err.conflict
  check (fk && not (affects (is_source j.source_id) db.sources)) Err.other
  ok (record db { jobs = new_job j ∷ db.jobs })

unfoldable pub get_maintenance_job : Text → Database → Result MaintenanceJob
get_maintenance_job id db = found (find (is_job id) db.jobs)

-- COALESCE(?,column)
unfoldable pub coalesce : Option ℕ → Option ℕ → Option ℕ
coalesce none old = old
coalesce (some t) old = some t

unfoldable pub ends : MaintenanceStatus → Bool
ends to =
    maintenance_eq to MaintenanceStatus.completed
    || maintenance_eq to MaintenanceStatus.failed
    || maintenance_eq to MaintenanceStatus.cancelled

-- The UPDATE of TransitionMaintenanceJob on a row.
unfoldable pub set_status : MaintenanceStatus → Text → ℕ → MaintenanceJob → MaintenanceJob
unfolding coalesce ends
set_status to msg at j = record j {
  status = to;
  error_text = msg;
  started_at =
      coalesce (if maintenance_eq to MaintenanceStatus.running then some at else none) j.started_at;
  completed_at = coalesce (if ends to then some at else none) j.completed_at;
}

-- WHERE id=? AND status=?
unfoldable pub job_in : Text → MaintenanceStatus → MaintenanceJob → Bool
unfolding is_job
job_in id status j = is_job id j && maintenance_eq j.status status

unfoldable pub transition_maintenance_job :
    Text → MaintenanceStatus → Text → ℕ → Database → Result Database
unfolding job_in set_status
transition_maintenance_job id to msg at db = do
  j ← found (find (is_job id) db.jobs)
  pass (validate_maintenance_transition j.status to)
  check (not (count (job_in id j.status) db.jobs == 1)) Err.conflict
  ok (record db { jobs = modify (job_in id j.status) (set_status to msg at) db.jobs })

unfoldable pub negative : Progress → Bool
negative p =
    lt64 p.scanned_objects 0
    || lt64 p.scanned_bytes 0
    || lt64 p.candidate_objects 0
    || lt64 p.candidate_bytes 0
    || lt64 p.affected_objects 0
    || lt64 p.affected_bytes 0

unfoldable pub set_progress : Progress → MaintenanceJob → MaintenanceJob
set_progress p j = record j {
  scanned_objects = p.scanned_objects;
  scanned_bytes = p.scanned_bytes;
  candidate_objects = p.candidate_objects;
  candidate_bytes = p.candidate_bytes;
  affected_objects = p.affected_objects;
  affected_bytes = p.affected_bytes;
}

unfoldable pub update_maintenance_progress : Text → Progress → Database → Result Database
unfolding negative set_progress job_in
update_maintenance_progress id p db = do
  check (negative p) Err.invalid
  check (not (count (job_in id MaintenanceStatus.running) db.jobs == 1)) Err.conflict
  ok (record db { jobs = modify (job_in id MaintenanceStatus.running) (set_progress p) db.jobs })

unfoldable pub set_catalog_path : Text → MaintenanceJob → MaintenanceJob
set_catalog_path path j = record j { temp_catalog_path = path }

-- SetMaintenanceCatalogPath; `trim` is strings.TrimSpace.
unfoldable pub set_maintenance_catalog_path :
    (Text → Text) → Text → Text → Database → Result Database
unfolding set_catalog_path job_in
set_maintenance_catalog_path trim id path db = do
  check (beq (trim path) []) Err.invalid
  check (not (count (job_in id MaintenanceStatus.running) db.jobs == 1)) Err.conflict
  ok (record db {
    jobs = modify (job_in id MaintenanceStatus.running) (set_catalog_path path) db.jobs;
  })

unfoldable pub interrupt : ℕ → Text → MaintenanceJob → MaintenanceJob
interrupt at msg j = record j {
  status = MaintenanceStatus.failed;
  error_text = msg;
  completed_at = some at;
}

-- RecoverInterruptedMaintenanceJobs
unfoldable pub recover_interrupted : ℕ → Text → Database → Database
unfolding interrupt
recover_interrupted at msg db = record db {
  jobs = modify (λ j. is_active j.status) (interrupt at msg) db.jobs;
}
