-- ===== src/Domain/Status.antt =====
-- The status types of internal/domain/types.go and internal/domain/maintenance.go. They are Go
-- strings: `other` stands for every text that is no declared constant, so `other []` is the zero
-- value of the type.
use airgap_mirror.Prelude.{
  ℕ, Bool, true, false, List, ◌≡◌, ◌↔◌, refl, ap, arith, beq, beq_refl, beq_eq,
}

abbrev pub Text : Type 0
Text = List ℕ

pub data EpochStatus : Type 0 where
  planned downloading transferring publishable published complete failed cancelled : EpochStatus
  other : Text → EpochStatus

pub data BatchStatus : Type 0 where
  planned downloading verifying ready transferring importing imported failed : BatchStatus
  other : Text → BatchStatus

pub data PackStatus : Type 0 where
  planned writing ready uploading uploaded importing imported failed : PackStatus
  other : Text → PackStatus

pub data PublishUnitStatus : Type 0 where
  waiting ready published conflict : PublishUnitStatus
  other : Text → PublishUnitStatus

pub data MaintenanceStatus : Type 0 where
  queued running completed failed cancelled : MaintenanceStatus
  other : Text → MaintenanceStatus

pub data MaintenanceKind : Type 0 where
  inventory gc : MaintenanceKind
  other : Text → MaintenanceKind

-- The texts of ImportSession.Status, which the source writes as literals.
pub data SessionStatus : Type 0 where
  uploading_manifest manifest_ready importing batch_imported : SessionStatus
  other : Text → SessionStatus

pub data ArtifactOperation : Type 0 where
  add update delete : ArtifactOperation
  other : Text → ArtifactOperation

pub data SourceType : Type 0 where
  apt pypi npm maven : SourceType
  other : Text → SourceType

-- `==` on the statuses.
unfoldable pub session_eq : SessionStatus → SessionStatus → Bool
session_eq SessionStatus.uploading_manifest SessionStatus.uploading_manifest = true
session_eq SessionStatus.manifest_ready SessionStatus.manifest_ready = true
session_eq SessionStatus.importing SessionStatus.importing = true
session_eq SessionStatus.batch_imported SessionStatus.batch_imported = true
session_eq (SessionStatus.other a) (SessionStatus.other b) = beq a b
session_eq _ _ = false

unfoldable pub epoch_eq : EpochStatus → EpochStatus → Bool
epoch_eq EpochStatus.planned EpochStatus.planned = true
epoch_eq EpochStatus.downloading EpochStatus.downloading = true
epoch_eq EpochStatus.transferring EpochStatus.transferring = true
epoch_eq EpochStatus.publishable EpochStatus.publishable = true
epoch_eq EpochStatus.published EpochStatus.published = true
epoch_eq EpochStatus.complete EpochStatus.complete = true
epoch_eq EpochStatus.failed EpochStatus.failed = true
epoch_eq EpochStatus.cancelled EpochStatus.cancelled = true
epoch_eq (EpochStatus.other a) (EpochStatus.other b) = beq a b
epoch_eq _ _ = false

unfoldable pub batch_eq : BatchStatus → BatchStatus → Bool
batch_eq BatchStatus.planned BatchStatus.planned = true
batch_eq BatchStatus.downloading BatchStatus.downloading = true
batch_eq BatchStatus.verifying BatchStatus.verifying = true
batch_eq BatchStatus.ready BatchStatus.ready = true
batch_eq BatchStatus.transferring BatchStatus.transferring = true
batch_eq BatchStatus.importing BatchStatus.importing = true
batch_eq BatchStatus.imported BatchStatus.imported = true
batch_eq BatchStatus.failed BatchStatus.failed = true
batch_eq (BatchStatus.other a) (BatchStatus.other b) = beq a b
batch_eq _ _ = false

unfoldable pub pack_eq : PackStatus → PackStatus → Bool
pack_eq PackStatus.planned PackStatus.planned = true
pack_eq PackStatus.writing PackStatus.writing = true
pack_eq PackStatus.ready PackStatus.ready = true
pack_eq PackStatus.uploading PackStatus.uploading = true
pack_eq PackStatus.uploaded PackStatus.uploaded = true
pack_eq PackStatus.importing PackStatus.importing = true
pack_eq PackStatus.imported PackStatus.imported = true
pack_eq PackStatus.failed PackStatus.failed = true
pack_eq (PackStatus.other a) (PackStatus.other b) = beq a b
pack_eq _ _ = false

unfoldable pub maintenance_eq : MaintenanceStatus → MaintenanceStatus → Bool
maintenance_eq MaintenanceStatus.queued MaintenanceStatus.queued = true
maintenance_eq MaintenanceStatus.running MaintenanceStatus.running = true
maintenance_eq MaintenanceStatus.completed MaintenanceStatus.completed = true
maintenance_eq MaintenanceStatus.failed MaintenanceStatus.failed = true
maintenance_eq MaintenanceStatus.cancelled MaintenanceStatus.cancelled = true
maintenance_eq (MaintenanceStatus.other a) (MaintenanceStatus.other b) = beq a b
maintenance_eq _ _ = false

pub epoch_eq_refl : (a : EpochStatus) → epoch_eq a a ≡ true
unfolding epoch_eq
epoch_eq_refl (EpochStatus.other a) = beq_refl a
epoch_eq_refl _ = refl

pub epoch_eq-eq : (a b : EpochStatus) → epoch_eq a b ≡ true → a ≡ b
unfolding epoch_eq
epoch_eq-eq (EpochStatus.other a) (EpochStatus.other b) h = ap EpochStatus.other (beq_eq a b h)
epoch_eq-eq a b h = ground arith

pub epoch_eq_iff : (a b : EpochStatus) → (epoch_eq a b ≡ true) ↔ (a ≡ b)
epoch_eq_iff a b = (λ h. epoch_eq-eq a b h, λ e. rw e (epoch_eq_refl b))

pub batch_eq_refl : (a : BatchStatus) → batch_eq a a ≡ true
unfolding batch_eq
batch_eq_refl (BatchStatus.other a) = beq_refl a
batch_eq_refl _ = refl

pub batch_eq-eq : (a b : BatchStatus) → batch_eq a b ≡ true → a ≡ b
unfolding batch_eq
batch_eq-eq (BatchStatus.other a) (BatchStatus.other b) h = ap BatchStatus.other (beq_eq a b h)
batch_eq-eq a b h = ground arith

pub batch_eq_iff : (a b : BatchStatus) → (batch_eq a b ≡ true) ↔ (a ≡ b)
batch_eq_iff a b = (λ h. batch_eq-eq a b h, λ e. rw e (batch_eq_refl b))

pub pack_eq_refl : (a : PackStatus) → pack_eq a a ≡ true
unfolding pack_eq
pack_eq_refl (PackStatus.other a) = beq_refl a
pack_eq_refl _ = refl

pub pack_eq-eq : (a b : PackStatus) → pack_eq a b ≡ true → a ≡ b
unfolding pack_eq
pack_eq-eq (PackStatus.other a) (PackStatus.other b) h = ap PackStatus.other (beq_eq a b h)
pack_eq-eq a b h = ground arith

pub pack_eq_iff : (a b : PackStatus) → (pack_eq a b ≡ true) ↔ (a ≡ b)
pack_eq_iff a b = (λ h. pack_eq-eq a b h, λ e. rw e (pack_eq_refl b))

pub maintenance_eq_refl : (a : MaintenanceStatus) → maintenance_eq a a ≡ true
unfolding maintenance_eq
maintenance_eq_refl (MaintenanceStatus.other a) = beq_refl a
maintenance_eq_refl _ = refl

pub maintenance_eq-eq : (a b : MaintenanceStatus) → maintenance_eq a b ≡ true → a ≡ b
unfolding maintenance_eq
maintenance_eq-eq (MaintenanceStatus.other a) (MaintenanceStatus.other b) h =
    ap MaintenanceStatus.other (beq_eq a b h)
maintenance_eq-eq a b h = ground arith

pub maintenance_eq_iff : (a b : MaintenanceStatus) → (maintenance_eq a b ≡ true) ↔ (a ≡ b)
maintenance_eq_iff a b = (λ h. maintenance_eq-eq a b h, λ e. rw e (maintenance_eq_refl b))
