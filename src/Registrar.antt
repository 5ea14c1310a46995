-- ===== src/Registrar.antt =====
-- BundleRegistrar.Register of internal/service/transfer.go. The directories that it makes are not
-- modelled.
pub mod Room
use airgap_mirror.Prelude.{
  ℕ, Bool, true, false, not, ◌&&◌, ◌||◌, List, [], ◌∷◌, ◌++◌, Option, none, some, beq, length, ltb,
  if◌then◌else◌, ◌==◌,
}
use airgap_mirror.Prelude.Int64.{add64, lt64}
use airgap_mirror.Prelude.Tables.{affects}
use airgap_mirror.Prelude.Texts.{codes}
use airgap_mirror.Domain.Status.{Text, SessionStatus, PackStatus}
use airgap_mirror.Domain.Types.{PackSpec, BatchDescriptor, ImportSession, ImportPack, Source}
use airgap_mirror.Domain.Transitions.{Err}
use airgap_mirror.Domain.Result.{Result, ok, err, ◌>>=◌, ◌>>◌, check}
use airgap_mirror.Site.{join_path}
use airgap_mirror.Database.{Database}
use airgap_mirror.Database.Sources.{get_source}
use airgap_mirror.Database.Manifest.{or_other}
use airgap_mirror.Database.Register.{bundle_schema_version, register_import_bundle}

-- The size of the largest pack, or the error on a declaration; `seen` are the ids before.
unfoldable pub largest_pack : List Text → ℕ → List PackSpec → Result ℕ
largest_pack seen most [] = ok most
largest_pack seen most (p ∷ rest) = do
  check (beq p.id [] || lt64 p.size 0 || not (length p.sha256 == 64)) Err.invalid
  check (affects (beq p.id) seen) Err.invalid
  largest_pack (p.id ∷ seen) (if lt64 most p.size then p.size else most) rest

-- What Inspect of ports.CapacityInspector reports free at a path, if there is one.
abbrev pub Capacity : Type 0
Capacity = Option (Text → Option ℕ)

-- The free space that the source's root has to have.
unfoldable pub needed : BatchDescriptor → ℕ → ℕ
needed d most = if lt64 0 most then add64 d.batch_bytes most else d.batch_bytes

unfoldable pub check_capacity : Capacity → Text → Text → BatchDescriptor → ℕ → Result (Unit {0})
check_capacity none staging root d most = ok tt
check_capacity (some inspect) staging root d most = do
  free ← or_other (inspect root)
  check (ltb free (needed d most)) Err.conflict
  staged ← or_other (inspect staging)
  check (ltb staged (add64 most d.manifest_size)) Err.conflict
  ok tt

unfoldable pub new_session : Text → Text → Text → ℕ → BatchDescriptor → ImportSession
new_session staging id request now d = record {
  id = id;
  request_id = request;
  source_id = d.source_id;
  epoch_id = d.epoch_id;
  batch_id = d.batch_id;
  manifest_path = join_path (join_path (staging ∷ id ∷ []) ∷ codes "manifest.sqlite" ∷ []);
  manifest_size = d.manifest_size;
  manifest_sha256 = d.manifest_sha256;
  manifest_uploaded = 0;
  status = SessionStatus.uploading_manifest;
  staging_path = join_path (staging ∷ id ∷ []);
  created_at = now;
  updated_at = now;
  error_text = [];
}

unfoldable pub new_import_packs : Text → Text → List PackSpec → List ImportPack
new_import_packs staging id [] = []
new_import_packs staging id (p ∷ rest) =
    record {
      session_id = id;
      pack_id = p.id;
      expected_size = p.size;
      expected_sha256 = p.sha256;
      uploaded_size = 0;
      staging_path =
          join_path (join_path (staging ∷ id ∷ []) ∷ codes "packs" ∷ (p.id ++ codes ".agp") ∷ []);
      status = PackStatus.uploading;
    }
    ∷ new_import_packs staging id rest

-- `new_id` is what NewID gives.
unfoldable pub register :
    Bool
    → Capacity
    → Text
    → Option Text
    → ℕ
    → Text
    → BatchDescriptor
    → Database
    → Result (ImportSession × Database)
register fk capacity staging new_id now request d db = do
  check (beq staging [] || beq request []) Err.invalid
  check
      (not (d.schema_version == bundle_schema_version)
        || lt64 d.manifest_size 0
        || not (length d.manifest_sha256 == 64))
      Err.invalid
  most ← largest_pack [] 0 d.packs
  source ← get_source d.source_id db
  check_capacity capacity staging source.root_path d most
  id ← or_other new_id
  register_import_bundle fk d (new_session staging id request now d)
      (new_import_packs staging id d.packs) db
