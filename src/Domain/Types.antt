-- ===== src/Domain/Types.antt =====
-- The records of internal/domain/types.go, internal/domain/bundle.go, internal/domain/gc.go and
-- internal/domain/maintenance.go that the modelled parts use. A Go string is its list of bytes, an
-- int64 its bit pattern, a time.Time a number, and a nil pointer `none`.
use airgap_mirror.Prelude.{ℕ, Bool, List, [], Option, beq, ◌&&◌}
use airgap_mirror.Domain.Status.{
  Text, EpochStatus, BatchStatus, PackStatus, PublishUnitStatus, MaintenanceStatus, MaintenanceKind,
  SessionStatus, ArtifactOperation, SourceType,
}

pub record Cursor : Type 0 where
  pub kind : Text
  pub value : Text

unfoldable pub cursor_equal : Cursor → Cursor → Bool
cursor_equal c o = beq c.kind o.kind && beq c.value o.value

unfoldable pub cursor_empty : Cursor → Bool
cursor_empty c = beq c.kind [] && beq c.value []

pub record Source : Type 0 where
  pub id : Text
  pub name : Text
  pub type : SourceType
  pub provider : Text
  pub upstream_url : Text
  pub root_path : Text
  pub public_url : Text
  pub enabled : Bool
  pub config : Text
  pub created_at : ℕ
  pub updated_at : ℕ

pub record SourceState : Type 0 where
  pub source_id : Text
  pub live_cursor : Cursor
  pub catalog_version : ℕ
  pub live_bytes : ℕ
  pub live_objects : ℕ
  pub active_epoch_id : Text
  pub updated_at : ℕ

pub record Epoch : Type 0 where
  pub id : Text
  pub source_id : Text
  pub base_cursor : Cursor
  pub target_cursor : Cursor
  pub status : EpochStatus
  pub total_bytes : ℕ
  pub total_objects : ℕ
  pub total_batches : ℕ
  pub publish_unit_count : ℕ
  pub created_at : ℕ
  pub completed_at : Option ℕ
  pub error_text : Text

pub record Artifact : Type 0 where
  pub id : Text
  pub epoch_id : Text
  pub source_id : Text
  pub logical_path : Text
  pub size : ℕ
  pub sha256 : Text
  pub upstream_url : Text
  pub upstream_integrity : Text
  pub local_source_path : Text
  pub operation : ArtifactOperation
  pub publish_unit_id : Text
  pub package_key : Text
  pub version : Text
  pub metadata : Bool
  pub attributes : Text

pub record PublishUnit : Type 0 where
  pub id : Text
  pub epoch_id : Text
  pub source_id : Text
  pub key : Text
  pub status : PublishUnitStatus
  pub required : ℕ
  pub imported : ℕ
  pub metadata_path : Text
  pub published_at : Option ℕ

pub record Batch : Type 0 where
  pub id : Text
  pub epoch_id : Text
  pub source_id : Text
  pub sequence : ℕ
  pub status : BatchStatus
  pub planned_bytes : ℕ
  pub object_count : ℕ
  pub pack_count : ℕ
  pub created_at : ℕ
  pub imported_at : Option ℕ
  pub error_text : Text

pub record Pack : Type 0 where
  pub id : Text
  pub epoch_id : Text
  pub batch_id : Text
  pub sequence : ℕ
  pub size : ℕ
  pub sha256 : Text
  pub entry_count : ℕ
  pub uploaded_size : ℕ
  pub file_path : Text
  pub status : PackStatus

pub record CatalogEntry : Type 0 where
  pub source_id : Text
  pub logical_path : Text
  pub size : ℕ
  pub sha256 : Text
  pub package_key : Text
  pub version : Text
  pub attributes : Text
  pub updated_at : ℕ

pub record CatalogStats : Type 0 where
  pub source_id : Text
  pub bytes : ℕ
  pub objects : ℕ

pub record PackLocation : Type 0 where
  pub pack_id : Text
  pub offset : ℕ
  pub record_length : ℕ

pub record PackHeader : Type 0 where
  pub pack_id : Text
  pub epoch_id : Text
  pub batch_id : Text
  pub record_count : ℕ
  pub logical_payload_bytes : ℕ
  pub created_unix : ℕ

pub record PackRecord : Type 0 where
  pub entry_id : Text
  pub logical_path : Text
  pub content_length : ℕ
  pub sha256 : Text
  pub offset : ℕ
  pub record_length : ℕ

pub record ImportSession : Type 0 where
  pub id : Text
  pub request_id : Text
  pub source_id : Text
  pub epoch_id : Text
  pub batch_id : Text
  pub manifest_path : Text
  pub manifest_size : ℕ
  pub manifest_sha256 : Text
  pub manifest_uploaded : ℕ
  pub status : SessionStatus
  pub staging_path : Text
  pub created_at : ℕ
  pub updated_at : ℕ
  pub error_text : Text

pub record ImportPack : Type 0 where
  pub session_id : Text
  pub pack_id : Text
  pub expected_size : ℕ
  pub expected_sha256 : Text
  pub uploaded_size : ℕ
  pub staging_path : Text
  pub status : PackStatus

pub record PublishMetadataEntry : Type 0 where
  pub entry_id : Text
  pub publish_unit_id : Text
  pub source_id : Text
  pub logical_path : Text
  pub size : ℕ
  pub sha256 : Text
  pub operation : ArtifactOperation
  pub staged_path : Text
  pub package_key : Text
  pub version : Text
  pub attributes : Text

pub record PackSpec : Type 0 where
  pub id : Text
  pub sequence : ℕ
  pub file : Text
  pub size : ℕ
  pub sha256 : Text
  pub entry_count : ℕ

pub record BatchDescriptor : Type 0 where
  pub schema_version : ℕ
  pub source_id : Text
  pub epoch_id : Text
  pub batch_id : Text
  pub batch_sequence : ℕ
  pub epoch_total_bytes : ℕ
  pub epoch_total_objects : ℕ
  pub epoch_total_batches : ℕ
  pub epoch_publish_unit_count : ℕ
  pub batch_bytes : ℕ
  pub batch_objects : ℕ
  pub base_cursor : Cursor
  pub target_cursor : Cursor
  pub manifest_sha256 : Text
  pub manifest_size : ℕ
  pub packs : List PackSpec
  pub created_at : ℕ

pub record ManifestEntry : Type 0 where
  pub entry_id : Text
  pub artifact : Artifact
  pub pack_id : Text
  pub pack_offset : ℕ
  pub record_length : ℕ

pub record GcCandidate : Type 0 where
  pub logical_path : Text
  pub size : ℕ
  pub mod_time_unix_nano : ℕ

pub record MaintenanceJob : Type 0 where
  pub id : Text
  pub source_id : Text
  pub kind : MaintenanceKind
  pub status : MaintenanceStatus
  pub execute : Bool
  pub scanned_objects : ℕ
  pub scanned_bytes : ℕ
  pub candidate_objects : ℕ
  pub candidate_bytes : ℕ
  pub affected_objects : ℕ
  pub affected_bytes : ℕ
  pub temp_catalog_path : Text
  pub created_at : ℕ
  pub started_at : Option ℕ
  pub completed_at : Option ℕ
  pub error_text : Text
