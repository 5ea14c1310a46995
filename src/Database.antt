-- ===== src/Database.antt =====
-- The tables of internal/storage/sqlite/server_schema.sql and maintenance_schema.sql. The newest row of
-- a table stands first. A NULL in active_epoch_id is the empty text, which the queries take for the same.
-- A statement that the database refuses gives `Err.other`, unless the code reads its message. A
-- connection enforces REFERENCES only where the pragma foreign_keys was set on it: the argument `fk`.
pub mod Sources
pub mod Jobs
pub mod Epochs
pub mod Units
pub mod Register
pub mod Replace
pub mod Exclusion
pub mod Completion
pub mod Catalog
pub mod Manifest
use airgap_mirror.Prelude.{Bool, true, ◌&&◌, ◌||◌, not, List, [], beq, if◌then◌else◌}
use airgap_mirror.Prelude.Tables.{affects}
use airgap_mirror.Domain.Status.{Text}
use airgap_mirror.Domain.Types.{Source, SourceState, MaintenanceJob, Epoch, Batch}
use airgap_mirror.Store.{Store}
use airgap_mirror.Store.Commit.{Imports}

pub record Database : Type 0 where
  pub sources : List Source
  pub states : List SourceState
  pub jobs : List MaintenanceJob
  pub epochs : List Epoch
  pub batches : List Batch
  pub store : Store
  pub imports : Imports
