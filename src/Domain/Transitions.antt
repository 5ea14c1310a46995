-- ===== src/Domain/Transitions.antt =====
-- internal/domain/transitions.go and ValidateMaintenanceTransition of internal/domain/maintenance.go.
-- A Go map returns the zero value at a missing key: `other []`, the empty text.
use airgap_mirror.Prelude.{
  Bool, true, false, not, ◌&&◌, ◌||◌, [], Option, none, some, if◌then◌else◌,
}
use airgap_mirror.Domain.Status.{
  EpochStatus, BatchStatus, PackStatus, MaintenanceStatus, epoch_eq, batch_eq, pack_eq,
  maintenance_eq,
}

-- The sentinels of internal/domain/errors.go that an error wraps, or none of them.
pub data Err : Type 0 where
  not_found conflict invalid other : Err

epoch_next : EpochStatus → EpochStatus
epoch_next EpochStatus.planned = EpochStatus.downloading
epoch_next EpochStatus.downloading = EpochStatus.transferring
epoch_next EpochStatus.transferring = EpochStatus.publishable
epoch_next EpochStatus.publishable = EpochStatus.published
epoch_next EpochStatus.published = EpochStatus.complete
epoch_next _ = EpochStatus.other []

unfoldable pub can_transition_epoch : EpochStatus → EpochStatus → Bool
unfolding epoch_next
can_transition_epoch from to =
    if epoch_eq from to
    then true
    else if epoch_eq to EpochStatus.failed || epoch_eq to EpochStatus.cancelled
    then not (epoch_eq from EpochStatus.complete) && not (epoch_eq from EpochStatus.cancelled)
    else epoch_eq (epoch_next from) to

unfoldable pub validate_epoch_transition : EpochStatus → EpochStatus → Option Err
validate_epoch_transition from to =
    if not (can_transition_epoch from to) then some Err.other else none

batch_next : BatchStatus → BatchStatus
batch_next BatchStatus.planned = BatchStatus.downloading
batch_next BatchStatus.downloading = BatchStatus.verifying
batch_next BatchStatus.verifying = BatchStatus.ready
batch_next BatchStatus.ready = BatchStatus.transferring
batch_next BatchStatus.transferring = BatchStatus.importing
batch_next BatchStatus.importing = BatchStatus.imported
batch_next _ = BatchStatus.other []

unfoldable pub can_transition_batch : BatchStatus → BatchStatus → Bool
unfolding batch_next
can_transition_batch from to =
    if batch_eq from to
    then true
    else if batch_eq to BatchStatus.failed
    then not (batch_eq from BatchStatus.imported)
    else batch_eq (batch_next from) to

unfoldable pub validate_batch_transition : BatchStatus → BatchStatus → Option Err
validate_batch_transition from to =
    if not (can_transition_batch from to) then some Err.other else none

pack_next : PackStatus → PackStatus
pack_next PackStatus.planned = PackStatus.writing
pack_next PackStatus.writing = PackStatus.ready
pack_next PackStatus.ready = PackStatus.uploading
pack_next PackStatus.uploading = PackStatus.uploaded
pack_next PackStatus.uploaded = PackStatus.importing
pack_next PackStatus.importing = PackStatus.imported
pack_next _ = PackStatus.other []

unfoldable pub can_transition_pack : PackStatus → PackStatus → Bool
unfolding pack_next
can_transition_pack from to =
    if pack_eq from to
    then true
    else if pack_eq to PackStatus.failed
    then not (pack_eq from PackStatus.imported)
    else pack_eq (pack_next from) to

unfoldable pub validate_pack_transition : PackStatus → PackStatus → Option Err
validate_pack_transition from to =
    if not (can_transition_pack from to) then some Err.other else none

-- The `switch`: the test for each known `from`, and `none` for the default branch.
maintenance_allowed : MaintenanceStatus → MaintenanceStatus → Option Bool
maintenance_allowed MaintenanceStatus.queued to = some (
    maintenance_eq to MaintenanceStatus.running
    || maintenance_eq to MaintenanceStatus.cancelled
    || maintenance_eq to MaintenanceStatus.failed)
maintenance_allowed MaintenanceStatus.running to = some (
    maintenance_eq to MaintenanceStatus.completed
    || maintenance_eq to MaintenanceStatus.cancelled
    || maintenance_eq to MaintenanceStatus.failed)
maintenance_allowed MaintenanceStatus.completed to = some false
maintenance_allowed MaintenanceStatus.failed to = some false
maintenance_allowed MaintenanceStatus.cancelled to = some false
maintenance_allowed (MaintenanceStatus.other _) to = none

unfoldable pub validate_maintenance_transition : MaintenanceStatus → MaintenanceStatus → Option Err
unfolding maintenance_allowed
validate_maintenance_transition from to = elim (maintenance_allowed from to) [
  | none ↦ some Err.invalid
  | some allowed ↦ if not allowed then some Err.conflict else none
]
