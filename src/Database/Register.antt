-- ===== src/Database/Register.antt =====
-- RegisterImportBundle of internal/storage/sqlite/server_import_registration.go, and what marks a pack as
-- imported, MarkImportPackCommitted of internal/storage/sqlite/server_import_commit.go.
pub mod Steps
pub mod Packs
pub mod Repeats
use airgap_mirror.Prelude.{
  ℕ, Bool, true, false, ◌&&◌, ◌||◌, not, List, [], ◌∷◌, beq, if◌then◌else◌, none, some, Option,
  ◌==◌, length,
}
use airgap_mirror.Prelude.Int64.{lt64, le64}
use airgap_mirror.Prelude.Tables.{find, modify, affects}
use airgap_mirror.Domain.Status.{Text, EpochStatus, BatchStatus, PackStatus}
use airgap_mirror.Domain.Types.{
  SourceState, Epoch, Batch, Pack, PackSpec, BatchDescriptor, ImportSession, ImportPack,
  cursor_equal,
}
use airgap_mirror.Domain.Transitions.{Err}
use airgap_mirror.Domain.Result.{Result, ok, err, ◌>>=◌, ◌>>◌, check, found}
use airgap_mirror.Store.{Store, get_import_session_by_request, is_import_pack}
use airgap_mirror.Database.{Database}
use airgap_mirror.Database.Sources.{is_source, state_of, busy, epoch_blocked}
use airgap_mirror.Database.Epochs.{
  is_epoch, second_open, is_batch, same_place, is_pack, same_slot, with_packs,
}

-- BundleSchemaVersion
abbrev pub bundle_schema_version : ℕ
bundle_schema_version = 1

unfoldable pub same_epoch : Epoch → BatchDescriptor → Bool
same_epoch e d =
    beq e.id d.epoch_id
    && beq e.source_id d.source_id
    && cursor_equal e.base_cursor d.base_cursor
    && cursor_equal e.target_cursor d.target_cursor
    && (e.total_bytes == d.epoch_total_bytes)
    && (e.total_objects == d.epoch_total_objects)
    && (e.total_batches == d.epoch_total_batches)
    && (e.publish_unit_count == d.epoch_publish_unit_count)

unfoldable pub same_batch : Batch → BatchDescriptor → Bool
same_batch b d =
    beq b.id d.batch_id
    && beq b.epoch_id d.epoch_id
    && beq b.source_id d.source_id
    && (b.sequence == d.batch_sequence)
    && (b.planned_bytes == d.batch_bytes)
    && (b.object_count == d.batch_objects)
    && (b.pack_count == length d.packs)

-- The row of epochs that a bundle brings.
unfoldable pub bundle_epoch : BatchDescriptor → Epoch
bundle_epoch d = record {
  id = d.epoch_id;
  source_id = d.source_id;
  base_cursor = d.base_cursor;
  target_cursor = d.target_cursor;
  status = EpochStatus.transferring;
  total_bytes = d.epoch_total_bytes;
  total_objects = d.epoch_total_objects;
  total_batches = d.epoch_total_batches;
  publish_unit_count = d.epoch_publish_unit_count;
  created_at = d.created_at;
  completed_at = none;
  error_text = [];
}

unfoldable pub bundle_batch : BatchDescriptor → Batch
bundle_batch d = record {
  id = d.batch_id;
  epoch_id = d.epoch_id;
  source_id = d.source_id;
  sequence = d.batch_sequence;
  status = BatchStatus.transferring;
  planned_bytes = d.batch_bytes;
  object_count = d.batch_objects;
  pack_count = length d.packs;
  created_at = d.created_at;
  imported_at = none;
  error_text = [];
}

unfoldable pub bundle_pack : BatchDescriptor → PackSpec → Pack
bundle_pack d spec = record {
  id = spec.id;
  epoch_id = d.epoch_id;
  batch_id = d.batch_id;
  sequence = spec.sequence;
  size = spec.size;
  sha256 = spec.sha256;
  entry_count = spec.entry_count;
  uploaded_size = 0;
  file_path = [];
  status = PackStatus.uploading;
}

unfoldable pub register_epoch : Bool → BatchDescriptor → Database → Result Database
register_epoch fk d db = elim (find (is_epoch d.epoch_id) db.epochs) [
  | none ↦ (do
    check (second_open d.epoch_id d.source_id EpochStatus.transferring db) Err.other
    check (fk && not (affects (is_source d.source_id) db.sources)) Err.other
    ok (record db { epochs = bundle_epoch d ∷ db.epochs }))
  | some e ↦ check (not (same_epoch e d)) Err.conflict >> ok db
]

unfoldable pub register_batch : Bool → BatchDescriptor → Database → Result Database
register_batch fk d db = elim (find (is_batch d.batch_id) db.batches) [
  | none ↦ (do
    check (affects (same_place d.epoch_id d.batch_sequence) db.batches) Err.other
    check (fk && not (affects (is_source d.source_id) db.sources)) Err.other
    ok (record db { batches = bundle_batch d ∷ db.batches }))
  | some b ↦ check (not (same_batch b d)) Err.conflict >> ok db
]

unfoldable pub pack_differs : BatchDescriptor → PackSpec → Pack → Bool
pack_differs d spec p =
    not (beq p.epoch_id d.epoch_id)
    || not (beq p.batch_id d.batch_id)
    || not (p.sequence == spec.sequence)
    || not (p.size == spec.size)
    || not (beq p.sha256 spec.sha256)
    || not (p.entry_count == spec.entry_count)

-- The loop over d.Packs. The rows that a pack refers to are there by then.
unfoldable pub register_packs : BatchDescriptor → List PackSpec → List Pack → Result (List Pack)
register_packs d [] packs = ok packs
register_packs d (spec ∷ rest) packs = elim (find (is_pack spec.id) packs) [
  | some p ↦ check (pack_differs d spec p) Err.conflict >> register_packs d rest packs
  | none ↦ (do
    check (affects (same_slot d.batch_id spec.sequence) packs) Err.other
    register_packs d rest (bundle_pack d spec ∷ packs))
]

unfoldable pub other_bundle : ImportSession → BatchDescriptor → Bool
other_bundle v d =
    not (beq v.source_id d.source_id)
    || not (beq v.epoch_id d.epoch_id)
    || not (beq v.batch_id d.batch_id)
    || not (v.manifest_size == d.manifest_size)
    || not (beq v.manifest_sha256 d.manifest_sha256)

-- The row of import_sessions that the INSERT writes.
unfoldable pub session_row : BatchDescriptor → ImportSession → ImportSession
session_row d v = record v {
  source_id = d.source_id;
  epoch_id = d.epoch_id;
  batch_id = d.batch_id;
  manifest_size = d.manifest_size;
  manifest_sha256 = d.manifest_sha256;
}

-- The loop that writes import_packs, against the primary key and REFERENCES packs.
unfoldable pub insert_packs :
    Bool → Text → List ImportPack → List Pack → List ImportPack → Result (List ImportPack)
insert_packs fk sid [] packs table = ok table
insert_packs fk sid (p ∷ rest) packs table = do
  check (affects (is_import_pack sid p.pack_id) table) Err.other
  check (fk && not (affects (is_pack p.pack_id) packs)) Err.other
  insert_packs fk sid rest packs (record p { session_id = sid } ∷ table)

unfoldable pub activate : Text → ℕ → SourceState → SourceState
activate epoch at v = record v { active_epoch_id = epoch; updated_at = at }

-- What follows if the request is new.
unfoldable pub open_session :
    Bool
    → BatchDescriptor
    → ImportSession
    → List ImportPack
    → Database
    → Result (ImportSession × Database)
open_session fk d session packs db = do
  check (affects (λ x. beq x.id session.id) db.store.sessions) Err.other
  check (fk && not (affects (is_source d.source_id) db.sources)) Err.other
  table ← insert_packs fk session.id packs db.store.packs db.store.import_packs
  check (epoch_blocked d.source_id d.epoch_id db) Err.conflict
  ok (
    session,
    record db {
      store = record db.store {
        sessions = session_row d session ∷ db.store.sessions;
        import_packs = table;
      };
      states = modify (state_of d.source_id) (activate d.epoch_id session.updated_at) db.states;
    },
  )

unfoldable pub register_session :
    Bool
    → BatchDescriptor
    → ImportSession
    → List ImportPack
    → Database
    → Result (ImportSession × Database)
register_session fk d session packs db =
    elim (get_import_session_by_request session.request_id db.store) [
      | some v ↦ check (other_bundle v d) Err.conflict >> ok (v, db)
      | none ↦ open_session fk d session packs db
    ]

unfoldable pub bad_descriptor : BatchDescriptor → Bool
bad_descriptor d =
    beq d.source_id []
    || beq d.epoch_id []
    || beq d.batch_id []
    || le64 d.epoch_total_batches 0
    || lt64 d.epoch_publish_unit_count 0

unfoldable pub register_import_bundle :
    Bool
    → BatchDescriptor
    → ImportSession
    → List ImportPack
    → Database
    → Result (ImportSession × Database)
register_import_bundle fk d session packs db = do
  check (not (d.schema_version == bundle_schema_version)) Err.invalid
  check (bad_descriptor d) Err.invalid
  check (not (length d.packs == length packs)) Err.invalid
  st ← found (find (state_of d.source_id) db.states)
  check (not (cursor_equal st.live_cursor d.base_cursor)) Err.conflict
  check (busy st && not (beq st.active_epoch_id d.epoch_id)) Err.conflict
  db1 ← register_epoch fk d db
  db2 ← register_batch fk d db1
  rows ← register_packs d d.packs db2.store.packs
  register_session fk d session packs (with_packs rows db2)

unfoldable pub mark_row : ImportPack → ImportPack
mark_row p = record p { status = PackStatus.imported }

unfoldable pub mark_pack : Pack → Pack
mark_pack p = record p { status = PackStatus.imported; uploaded_size = p.size }

unfoldable pub mark_import_pack_committed : Text → Text → Database → Result Database
unfolding mark_row mark_pack
mark_import_pack_committed sid pid db = do
  check (not (affects (is_import_pack sid pid) db.store.import_packs)) Err.not_found
  ok (record db {
    store = record db.store {
      import_packs = modify (is_import_pack sid pid) mark_row db.store.import_packs;
      packs = modify (is_pack pid) mark_pack db.store.packs;
    };
  })
