-- ===== src/Examples/Maintenance.antt =====
-- A source with a maintenance job, which is interrupted.
use airgap_mirror.Prelude.{◌≡◌, ◌+◌, ◌≤◌, refl, true, none, [], ◌∷◌, beq}
use airgap_mirror.Prelude.Tables.{count, affects}
use airgap_mirror.Domain.Status.{SourceType, MaintenanceKind, MaintenanceStatus, maintenance_eq}
use airgap_mirror.Domain.Types.{Source, MaintenanceJob}
use airgap_mirror.Domain.Result.{ok, ◌>>=◌, check, ◌>>◌}
use airgap_mirror.Database.{Database}
use airgap_mirror.Database.Sources.{
  create_source, initial_state, active_job, active_state, is_source, unknown_type,
}
use airgap_mirror.Database.Jobs.{
  create_maintenance_job, recover_interrupted, new_job, unknown_kind, is_job,
}
use airgap_mirror.Database.Jobs.Recovery.{recover_unblocks}
use airgap_mirror.Database.Exclusion.Runs.{Query, empty_database, Reached, reached-excludes}

abbrev pub source : Source
source = record {
  id = 115 ∷ [];
  name = [];
  type = SourceType.npm;
  provider = [];
  upstream_url = [];
  root_path = 47 ∷ [];
  public_url = [];
  enabled = true;
  config = [];
  created_at = 1;
  updated_at = 1;
}

abbrev job : MaintenanceJob
job = record {
  id = 106 ∷ [];
  source_id = 115 ∷ [];
  kind = MaintenanceKind.gc;
  status = MaintenanceStatus.queued;
  execute = true;
  scanned_objects = 0;
  scanned_bytes = 0;
  candidate_objects = 0;
  candidate_bytes = 0;
  affected_objects = 0;
  affected_bytes = 0;
  temp_catalog_path = [];
  created_at = 2;
  started_at = none;
  completed_at = none;
  error_text = [];
}

abbrev with_source : Database
with_source = record empty_database { sources = source ∷ []; states = initial_state source ∷ [] }

abbrev with_job : Database
with_job = record with_source { jobs = new_job job ∷ [] }

source_made : create_source source empty_database ≡ ok with_source
unfolding create_source ◌>>◌ ◌>>=◌ check affects unknown_type
source_made = refl

job_made : create_maintenance_job true job with_source ≡ ok with_job
unfolding create_maintenance_job ◌>>◌ ◌>>=◌ check beq unknown_kind maintenance_eq affects
    active_state initial_state is_source
job_made = refl

job_reached : Reached with_job
job_reached =
    Reached.next (Reached.next Reached.fresh (Query.new_source source source_made))
      (Query.new_job job job_made)

reached-excludes_example :
    count (active_job (115 ∷ [])) with_job.jobs + count (active_state (115 ∷ [])) with_job.states
    ≤ 1
reached-excludes_example = reached-excludes job_reached (115 ∷ [])

abbrev next_job : MaintenanceJob
next_job = record job { id = 107 ∷ []; created_at = 4 }

recover_unblocks_example :
    (t : Database) × (create_maintenance_job true next_job (recover_interrupted 3 [] with_job)
      ≡ ok t)
unfolding active_state beq unknown_kind maintenance_eq affects is_job new_job is_source
    initial_state
recover_unblocks_example =
    recover_unblocks true 3 [] next_job with_job refl refl refl refl refl refl refl
