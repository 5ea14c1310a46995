-- ===== src/Database/Exclusion/Runs.antt =====
-- Runs of the queries of internal/storage/sqlite on the server's tables. A query that returns an error
-- changes nothing, so it is no step. The connection enforces REFERENCES.
use airgap_mirror.Prelude.{ℕ, ◌+◌, ◌≤◌, ◌≡◌, List, [], arith, false, true}
use airgap_mirror.Prelude.Tables.{count}
use airgap_mirror.Domain.Status.{Text, EpochStatus, BatchStatus, MaintenanceStatus}
use airgap_mirror.Domain.Types.{
  Source, SourceState, MaintenanceJob, Epoch, Batch, Pack, PublishUnit, CatalogEntry, CatalogStats,
  BatchDescriptor, ImportSession, ImportPack,
}
use airgap_mirror.Domain.Result.{ok}
use airgap_mirror.Store.{Store}
use airgap_mirror.Store.Commit.{Imports}
use airgap_mirror.Database.{Database}
use airgap_mirror.Database.Sources.{
  create_source, update_source, put_state, active_job, active_state,
}
use airgap_mirror.Database.Jobs.{
  Progress, create_maintenance_job, transition_maintenance_job, update_maintenance_progress,
  set_maintenance_catalog_path, recover_interrupted,
}
use airgap_mirror.Database.Epochs.{
  create_epoch, transition_epoch, create_batch, transition_batch, upsert_pack, complete_epoch,
}
use airgap_mirror.Database.Units.{declare_publish_unit, mark_published, upsert_entry, delete_entry}
use airgap_mirror.Database.Register.{register_import_bundle, mark_import_pack_committed}
use airgap_mirror.Database.Replace.{replace_catalog}
use airgap_mirror.Database.Exclusion.{
  Exclusive, create_source-Exclusive, update_source-Exclusive, put_state-Exclusive,
}
use airgap_mirror.Database.Exclusion.Jobs.{
  create_job-Exclusive, transition_job-Exclusive, progress-Exclusive, catalog_path-Exclusive,
  recover-Exclusive,
}
use airgap_mirror.Database.Exclusion.Imports.{
  elsewhere, create_epoch-Exclusive, transition_epoch-Exclusive, create_batch-Exclusive,
  transition_batch-Exclusive, upsert_pack-Exclusive, declare_unit-Exclusive,
  mark_published-Exclusive, upsert_entry-Exclusive, delete_entry-Exclusive,
  mark_committed-Exclusive, complete_epoch-Exclusive, replace_catalog-Exclusive,
}
use airgap_mirror.Database.Exclusion.Bundles.{register-Exclusive}

-- `imported` stands for the queries of Store and of Store.Commit, which write only `store` and `imports`.
pub data Query (db : Database) : Database → Type 0 where
  new_source : {t : Database} (v : Source) → create_source v db ≡ ok t → Query db t
  edit_source : {t : Database} (v : Source) → update_source v db ≡ ok t → Query db t
  write_state : {t : Database} (v : SourceState) → put_state true v db ≡ ok t → Query db t
  new_job :
      {t : Database} (j : MaintenanceJob) → create_maintenance_job true j db ≡ ok t → Query db t
  move_job :
      {t : Database} (id : Text) (to : MaintenanceStatus) (msg : Text) (at : ℕ)
      → transition_maintenance_job id to msg at db ≡ ok t
      → Query db t
  progress :
      {t : Database} (id : Text) (p : Progress)
      → update_maintenance_progress id p db ≡ ok t
      → Query db t
  catalog_path :
      {t : Database} (trim : Text → Text) (id path : Text)
      → set_maintenance_catalog_path trim id path db ≡ ok t
      → Query db t
  recover : (at : ℕ) (msg : Text) → Query db (recover_interrupted at msg db)
  new_epoch : {t : Database} (v : Epoch) → create_epoch true v db ≡ ok t → Query db t
  move_epoch :
      {t : Database} (now : ℕ) (id : Text) (to : EpochStatus) (msg : Text)
      → transition_epoch now id to msg db ≡ ok t
      → Query db t
  new_batch : {t : Database} (v : Batch) → create_batch true v db ≡ ok t → Query db t
  move_batch :
      {t : Database} (now : ℕ) (id : Text) (to : BatchStatus) (msg : Text)
      → transition_batch now id to msg db ≡ ok t
      → Query db t
  write_pack : {t : Database} (v : Pack) → upsert_pack true v db ≡ ok t → Query db t
  complete :
      {t : Database} (id : Text) (s : CatalogStats) (at : ℕ)
      → complete_epoch id s at db ≡ ok t
      → Query db t
  declare : {t : Database} (u : PublishUnit) → declare_publish_unit true u db ≡ ok t → Query db t
  publish : {t : Database} (id : Text) (at : ℕ) → mark_published id at db ≡ ok t → Query db t
  write_entry : {t : Database} (v : CatalogEntry) → upsert_entry true v db ≡ ok t → Query db t
  drop_entry : (source path : Text) → Query db (delete_entry source path db)
  register :
      {t : Database} {out : ImportSession} (d : BatchDescriptor) (v : ImportSession)
      (packs : List ImportPack)
      → register_import_bundle true d v packs db ≡ ok (out, t)
      → Query db t
  commit_pack :
      {t : Database} (sid pid : Text) → mark_import_pack_committed sid pid db ≡ ok t → Query db t
  replace :
      {t : Database} (source path : Text) (rebuild : List CatalogEntry) (s : CatalogStats) (at : ℕ)
      → replace_catalog true source path rebuild s at db ≡ ok t
      → Query db t
  imported :
      (store : Store) (imports : Imports)
      → Query db (record db { store = store; imports = imports })

-- The tables of a new database.
abbrev pub empty_database : Database
empty_database = record {
  sources = [];
  states = [];
  jobs = [];
  epochs = [];
  batches = [];
  store = record { sessions = []; import_packs = []; packs = [] };
  imports = record { entries = []; metadata = []; catalog = []; units = []; has_operation = false };
}

pub data Reached : Database → Type 0 where
  fresh : Reached empty_database
  next : {db t : Database} → Reached db → Query db t → Reached t

query-Exclusive : {db t : Database} → Query db t → Exclusive db → Exclusive t
query-Exclusive {db} (new_source v e) x = (create_source-Exclusive v db x).holds _ e
query-Exclusive {db} (edit_source v e) x = (update_source-Exclusive v db x).holds _ e
query-Exclusive {db} (write_state v e) x = (put_state-Exclusive v db x).holds _ e
query-Exclusive {db} (new_job j e) x = (create_job-Exclusive j db x).holds _ e
query-Exclusive {db} (move_job id to msg at e) x =
    (transition_job-Exclusive id to msg at db x).holds _ e
query-Exclusive {db} (progress id p e) x = (progress-Exclusive id p db x).holds _ e
query-Exclusive {db} (catalog_path trim id path e) x =
    (catalog_path-Exclusive trim id path db x).holds _ e
query-Exclusive {db} (recover at msg) x = recover-Exclusive at msg db x
query-Exclusive {db} (new_epoch v e) x = (create_epoch-Exclusive v db x).holds _ e
query-Exclusive {db} (move_epoch now id to msg e) x =
    (transition_epoch-Exclusive now id to msg db x).holds _ e
query-Exclusive {db} (new_batch v e) x = (create_batch-Exclusive v db x).holds _ e
query-Exclusive {db} (move_batch now id to msg e) x =
    (transition_batch-Exclusive now id to msg db x).holds _ e
query-Exclusive {db} (write_pack v e) x = (upsert_pack-Exclusive v db x).holds _ e
query-Exclusive {db} (complete id s at e) x = (complete_epoch-Exclusive id s at db x).holds _ e
query-Exclusive {db} (declare u e) x = (declare_unit-Exclusive u db x).holds _ e
query-Exclusive {db} (publish id at e) x = (mark_published-Exclusive id at db x).holds _ e
query-Exclusive {db} (write_entry v e) x = (upsert_entry-Exclusive v db x).holds _ e
query-Exclusive {db} (drop_entry source path) x = delete_entry-Exclusive source path db x
query-Exclusive {db} (register d v packs e) x = (register-Exclusive d v packs db x).holds _ e
query-Exclusive {db} (commit_pack sid pid e) x = (mark_committed-Exclusive sid pid db x).holds _ e
query-Exclusive {db} (replace source path rebuild s at e) x =
    (replace_catalog-Exclusive source path rebuild s at db x).holds _ e
query-Exclusive {db} (imported store imports) x = elsewhere db db.epochs db.batches store imports x

reached-Exclusive : {db : Database} → Reached db → Exclusive db
unfolding count
reached-Exclusive fresh = record {
  one_state = λ sid. omega arith;
  stated = λ sid. omega arith;
  known = λ sid. omega arith;
  apart = λ sid. omega arith;
}
reached-Exclusive (next r q) = query-Exclusive q (reached-Exclusive r)

-- In every database that the queries reach from a new one, with REFERENCES enforced, the active
-- maintenance jobs of a source and the rows of its state that have an active epoch are together at most
-- one: never two active jobs, and never an active job beside an active epoch.
pub reached-excludes :
    {db : Database}
    → Reached db
    → (sid : Text) → count (active_job sid) db.jobs + count (active_state sid) db.states ≤ 1
reached-excludes r sid = (reached-Exclusive r).apart sid
