-- ===== src/Database/Epochs.antt =====
-- internal/storage/sqlite/server_epoch_batch_pack.go, but for its listings of epochs, and
-- internal/storage/sqlite/server_epoch_complete.go.
use airgap_mirror.Prelude.{
  ℕ, Bool, true, false, ◌&&◌, ◌||◌, not, List, [], ◌∷◌, beq, if◌then◌else◌, none, some, ◌==◌, ◌+◌,
}
use airgap_mirror.Prelude.Tables.{find, modify, affects, count}
use airgap_mirror.Domain.Status.{
  Text, EpochStatus, BatchStatus, PublishUnitStatus, epoch_eq, batch_eq,
}
use airgap_mirror.Domain.Types.{Cursor, SourceState, Epoch, Batch, Pack, PublishUnit, CatalogStats}
use airgap_mirror.Domain.Transitions.{Err, validate_epoch_transition, validate_batch_transition}
use airgap_mirror.Domain.Result.{Result, ok, ◌>>=◌, ◌>>◌, check, pass, found}
use airgap_mirror.Database.{Database}
use airgap_mirror.Database.Sources.{is_source, state_of}
use airgap_mirror.Database.Jobs.{coalesce}

unfoldable pub is_epoch : Text → Epoch → Bool
is_epoch id e = beq e.id id

-- status NOT IN('COMPLETE','FAILED','CANCELLED')
unfoldable pub epoch_open : EpochStatus → Bool
epoch_open EpochStatus.complete = false
epoch_open EpochStatus.failed = false
epoch_open EpochStatus.cancelled = false
epoch_open _ = true

-- The index ux_epochs_active_source refuses a row of `source`, if another row is open.
unfoldable pub second_open : Text → Text → EpochStatus → Database → Bool
unfolding epoch_open is_epoch
second_open id source status db =
    epoch_open status
    && affects (λ e. not (is_epoch id e) && beq e.source_id source && epoch_open e.status) db.epochs

-- completed_at is no column of the INSERT.
unfoldable pub create_epoch : Bool → Epoch → Database → Result Database
unfolding second_open
create_epoch fk v db = do
  check (affects (is_epoch v.id) db.epochs || second_open v.id v.source_id v.status db) Err.other
  check (fk && not (affects (is_source v.source_id) db.sources)) Err.other
  ok (record db { epochs = record v { completed_at = none } ∷ db.epochs })

unfoldable pub get_epoch : Text → Database → Result Epoch
get_epoch id db = found (find (is_epoch id) db.epochs)

unfoldable pub set_epoch_status : EpochStatus → Text → ℕ → Epoch → Epoch
set_epoch_status to msg now e = record e {
  status = to;
  completed_at =
      coalesce (if epoch_eq to EpochStatus.complete then some now else none) e.completed_at;
  error_text = msg;
}

unfoldable pub transition_epoch : ℕ → Text → EpochStatus → Text → Database → Result Database
unfolding set_epoch_status second_open
transition_epoch now id to msg db = do
  e ← found (find (is_epoch id) db.epochs)
  pass (validate_epoch_transition e.status to)
  check (second_open id e.source_id to db) Err.other
  ok (record db { epochs = modify (is_epoch id) (set_epoch_status to msg now) db.epochs })

unfoldable pub is_batch : Text → Batch → Bool
is_batch id b = beq b.id id

-- UNIQUE(epoch_id,sequence)
unfoldable pub same_place : Text → ℕ → Batch → Bool
same_place epoch sequence b = beq b.epoch_id epoch && (b.sequence == sequence)

-- imported_at is no column of the INSERT.
unfoldable pub create_batch : Bool → Batch → Database → Result Database
unfolding is_batch same_place
create_batch fk v db = do
  check (affects (is_batch v.id) db.batches) Err.other
  check (affects (same_place v.epoch_id v.sequence) db.batches) Err.other
  check (fk && not (affects (is_epoch v.epoch_id) db.epochs)) Err.other
  check (fk && not (affects (is_source v.source_id) db.sources)) Err.other
  ok (record db { batches = record v { imported_at = none } ∷ db.batches })

unfoldable pub get_batch : Text → Database → Result Batch
get_batch id db = found (find (is_batch id) db.batches)

unfoldable pub set_batch_status : BatchStatus → Text → ℕ → Batch → Batch
set_batch_status to msg now b = record b {
  status = to;
  imported_at =
      coalesce (if batch_eq to BatchStatus.imported then some now else none) b.imported_at;
  error_text = msg;
}

unfoldable pub transition_batch : ℕ → Text → BatchStatus → Text → Database → Result Database
unfolding set_batch_status
transition_batch now id to msg db = do
  b ← found (find (is_batch id) db.batches)
  pass (validate_batch_transition b.status to)
  ok (record db { batches = modify (is_batch id) (set_batch_status to msg now) db.batches })

unfoldable pub is_pack : Text → Pack → Bool
is_pack id p = beq p.id id

-- UNIQUE(batch_id,sequence)
unfoldable pub same_slot : Text → ℕ → Pack → Bool
same_slot batch sequence p = beq p.batch_id batch && (p.sequence == sequence)

unfoldable pub refresh_pack : Pack → Pack → Pack
refresh_pack v x = record x {
  uploaded_size = v.uploaded_size;
  file_path = v.file_path;
  status = v.status;
}

unfoldable pub with_packs : List Pack → Database → Database
with_packs packs db = record db { store = record db.store { packs = packs } }

-- UpsertPack
unfoldable pub upsert_pack : Bool → Pack → Database → Result Database
unfolding is_pack same_slot refresh_pack with_packs
upsert_pack fk v db =
    if affects (is_pack v.id) db.store.packs
    then ok (with_packs (modify (is_pack v.id) (refresh_pack v) db.store.packs) db)
    else (do
      check (affects (same_slot v.batch_id v.sequence) db.store.packs) Err.other
      check (fk && not (affects (is_epoch v.epoch_id) db.epochs)) Err.other
      check (fk && not (affects (is_batch v.batch_id) db.batches)) Err.other
      ok (with_packs (v ∷ db.store.packs) db))

unfoldable pub get_pack : Text → Database → Result Pack
get_pack id db = found (find (is_pack id) db.store.packs)

-- epoch_id=? AND status=?
unfoldable pub imported_of : Text → Batch → Bool
imported_of id b = beq b.epoch_id id && batch_eq b.status BatchStatus.imported

unfoldable pub is_published : PublishUnitStatus → Bool
is_published PublishUnitStatus.published = true
is_published _ = false

unfoldable pub published_of : Text → PublishUnit → Bool
unfolding is_published
published_of id u = beq u.epoch_id id && is_published u.status

unfoldable pub count_imported_batches : Text → Database → ℕ
count_imported_batches id db = count (imported_of id) db.batches

unfoldable pub count_published_units : Text → Database → ℕ
count_published_units id db = count (published_of id) db.imports.units

-- active_epoch_id=?, which holds for no row if the column is NULL.
unfoldable pub holds_epoch : Text → Text → SourceState → Bool
unfolding state_of
holds_epoch source id v =
    state_of source v && not (beq v.active_epoch_id []) && beq v.active_epoch_id id

-- SQLite's + does not wrap: a catalog_version beyond int64 stands for the REAL that it gives then.
unfoldable pub advance : Cursor → CatalogStats → ℕ → SourceState → SourceState
advance cursor stats at v = record v {
  live_cursor = cursor;
  catalog_version = v.catalog_version + 1;
  live_bytes = stats.bytes;
  live_objects = stats.objects;
  active_epoch_id = [];
  updated_at = at;
}

unfoldable pub finish_epoch : ℕ → Epoch → Epoch
finish_epoch at e = record e {
  status = EpochStatus.complete;
  completed_at = some at;
  error_text = [];
}

unfoldable pub complete_epoch : Text → CatalogStats → ℕ → Database → Result Database
unfolding holds_epoch advance finish_epoch
complete_epoch id stats at db = do
  e ← found (find (is_epoch id) db.epochs)
  check (not (epoch_eq e.status EpochStatus.published)) Err.conflict
  check
      (not (count_imported_batches id db == e.total_batches)
        || not (count_published_units id db == e.publish_unit_count))
      Err.conflict
  check (not (count (holds_epoch e.source_id id) db.states == 1)) Err.conflict
  ok (record db {
    epochs = modify (is_epoch id) (finish_epoch at) db.epochs;
    states = modify (holds_epoch e.source_id id) (advance e.target_cursor stats at) db.states;
  })
