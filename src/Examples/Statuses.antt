-- ===== src/Examples/Statuses.antt =====
-- Runs of the status machines of internal/domain/transitions.go and internal/domain/maintenance.go.
use airgap_mirror.Prelude.{◌+◌, ◌≤◌, ◌≡◌, refl, true, List, [], ◌∷◌, length, arith}
use mathlib.Core.List.{Memᴰ}
use airgap_mirror.Domain.Status.{
  EpochStatus, BatchStatus, PackStatus, MaintenanceStatus, epoch_eq, batch_eq, pack_eq,
  maintenance_eq,
}
use airgap_mirror.Domain.Path.{accepts, final}
use airgap_mirror.Domain.Transitions.{
  can_transition_epoch, can_transition_batch, can_transition_pack, validate_maintenance_transition,
}
use airgap_mirror.Domain.Lifecycle.{
  maintenance_ok, maintenance_left, complete_visits_all, imported_visits_all, pack_visits_all,
  maintenance_ends,
}

abbrev whole_epoch : List EpochStatus
whole_epoch =
    EpochStatus.downloading ∷ EpochStatus.transferring ∷ EpochStatus.publishable
    ∷ EpochStatus.published ∷ EpochStatus.complete ∷ []

whole_epoch-accepted : accepts can_transition_epoch EpochStatus.planned whole_epoch ≡ true
unfolding can_transition_epoch epoch_eq
whole_epoch-accepted = refl

complete_visits_all_example : Memᴰ EpochStatus.published whole_epoch
complete_visits_all_example =
    complete_visits_all whole_epoch whole_epoch-accepted refl EpochStatus.published (omega arith)

abbrev whole_batch : List BatchStatus
whole_batch =
    BatchStatus.downloading ∷ BatchStatus.verifying ∷ BatchStatus.ready ∷ BatchStatus.transferring
    ∷ BatchStatus.importing ∷ BatchStatus.imported ∷ []

whole_batch-accepted : accepts can_transition_batch BatchStatus.planned whole_batch ≡ true
unfolding can_transition_batch batch_eq
whole_batch-accepted = refl

imported_visits_all_example : Memᴰ BatchStatus.ready whole_batch
imported_visits_all_example =
    imported_visits_all whole_batch whole_batch-accepted refl BatchStatus.ready (omega arith)

abbrev whole_pack : List PackStatus
whole_pack =
    PackStatus.writing ∷ PackStatus.ready ∷ PackStatus.uploading ∷ PackStatus.uploaded
    ∷ PackStatus.importing ∷ PackStatus.imported ∷ []

whole_pack-accepted : accepts can_transition_pack PackStatus.planned whole_pack ≡ true
unfolding can_transition_pack pack_eq
whole_pack-accepted = refl

pack_visits_all_example : Memᴰ PackStatus.uploaded whole_pack
pack_visits_all_example =
    pack_visits_all whole_pack whole_pack-accepted refl PackStatus.uploaded (omega arith)

abbrev whole_job : List MaintenanceStatus
whole_job = MaintenanceStatus.running ∷ MaintenanceStatus.completed ∷ []

whole_job-accepted : accepts maintenance_ok MaintenanceStatus.queued whole_job ≡ true
unfolding validate_maintenance_transition maintenance_eq
whole_job-accepted = refl

maintenance_ends_example :
    length whole_job + maintenance_left (final MaintenanceStatus.queued whole_job) ≤ 2
maintenance_ends_example = maintenance_ends MaintenanceStatus.queued whole_job whole_job-accepted
