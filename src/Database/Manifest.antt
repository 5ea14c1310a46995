-- ===== src/Database/Manifest.antt =====
-- RegisterManifest of internal/storage/sqlite/server_manifest.go, and CompleteManifest of
-- internal/service/transfer.go, which calls it.
pub mod Linked
pub mod Accepted
use airgap_mirror.Prelude.{
  ℕ, ◌+◌, Bool, true, false, not, ◌&&◌, ◌||◌, List, [], ◌∷◌, Option, none, some, beq, length, ltb,
  leb, if◌then◌else◌, ◌==◌,
}
use airgap_mirror.Prelude.Int64.{lt64, le64}
use airgap_mirror.Prelude.Tables.{find, modify, affects, count}
use airgap_mirror.Prelude.Texts.{codes, to_lower}
use airgap_mirror.Domain.Status.{Text, SessionStatus, ArtifactOperation, PublishUnitStatus}
use airgap_mirror.Domain.Types.{Batch, Epoch, Pack, PublishUnit, ImportSession}
use airgap_mirror.Domain.Transitions.{Err}
use airgap_mirror.Domain.Result.{Result, ok, err, ◌>>=◌, ◌>>◌, check, found}
use airgap_mirror.Store.{Store, get_import_session}
use airgap_mirror.Transfer.{Files, file_sha256}
use airgap_mirror.Database.{Database}
use airgap_mirror.Database.Sources.{is_source}
use airgap_mirror.Database.Epochs.{get_epoch, get_batch}
use airgap_mirror.Database.Units.{is_unit, same_key}

-- The rows of the attached database. Nothing checks the schema of that file, so that a column can be
-- NULL (`none`); one that is not has a value of the type that the queries take it for. That an id of a
-- unit is NULL, which SQLite lets in as a primary key, is not modelled.
pub record UnitRow : Type 0 where
  pub id : Text
  pub epoch_id : Option Text
  pub source_id : Option Text
  pub key : Option Text
  pub required : Option ℕ
  pub metadata_path : Option Text

pub record EntryRow : Type 0 where
  pub pack_id : Option Text
  pub pack_offset : Option ℕ
  pub record_length : Option ℕ
  pub source_id : Option Text
  pub epoch_id : Option Text
  pub logical_path : Option Text
  pub size : Option ℕ
  pub sha256 : Option Text
  pub operation : Option ArtifactOperation
  pub publish_unit_id : Option Text
  pub metadata : Option ℕ

-- manifest_meta, publish_units and entries.
pub record Incoming : Type 0 where
  pub meta : List (Text × Option Text)
  pub units : List UnitRow
  pub entries : List EntryRow

-- An error of the driver or of the file.
unfoldable pub or_other {ℓ} : {A : Type ℓ} → Option A → Result A
or_other none = err Err.other
or_other (some a) = ok a

-- ManifestSchemaVersion, printed.
abbrev pub manifest_schema_version : Text
manifest_schema_version = codes "1"

-- A value that is NULL cannot be scanned.
unfoldable pub meta_value : Text → List (Text × Option Text) → Result Text
meta_value key [] = err Err.other
meta_value key ((k, v) ∷ rest) = let r = meta_value key rest in if beq k key then or_other v else r

-- SQLite's length(): the characters before the first NUL.
unfoldable pub sql_length : Text → ℕ
sql_length [] = 0
sql_length (c ∷ cs) =
    let n = sql_length cs in if c == 0 then 0 else if leb 128 c && ltb c 192 then n else n + 1

-- Comparisons of SQL: with NULL they are not true.
unfoldable pub unequal : Option Text → Text → Bool
unequal none t = false
unequal (some s) t = not (beq s t)

unfoldable pub unequal_number : Option ℕ → ℕ → Bool
unequal_number none n = false
unequal_number (some m) n = not (m == n)

unfoldable pub less : Option ℕ → ℕ → Bool
less none n = false
less (some m) n = lt64 m n

unfoldable pub at_most : Option ℕ → ℕ → Bool
at_most none n = false
at_most (some m) n = le64 m n

unfoldable pub is_text : Text → Option Text → Bool
is_text t none = false
is_text t (some s) = beq s t

-- length(sha256)<>64
unfoldable pub wrong_length : Option Text → Bool
unfolding sql_length
wrong_length none = false
wrong_length (some t) = not (sql_length t == 64)

-- operation NOT IN('ADD','UPDATE','DELETE')
unfoldable pub unknown_operation : Option ArtifactOperation → Bool
unknown_operation (some (ArtifactOperation.other _)) = true
unknown_operation _ = false

unfoldable pub sql_delete : Option ArtifactOperation → Bool
sql_delete (some ArtifactOperation.delete) = true
sql_delete _ = false

unfoldable pub sql_lower : Option Text → Option Text
sql_lower none = none
sql_lower (some t) = some (to_lower t)

abbrev tombstone_sha256 : Text
tombstone_sha256 = codes "e3b0c44298fc1c149afbf4c8996fb92427ae41e4649b934ca495991b7852b855"

-- The conditions of the checks, in their order.
unfoldable pub bad_unit : ImportSession → UnitRow → Bool
bad_unit v u = unequal u.epoch_id v.epoch_id || unequal u.source_id v.source_id || less u.required 0

unfoldable pub bad_entry : ImportSession → EntryRow → Bool
unfolding wrong_length unknown_operation sql_delete sql_lower
bad_entry v e =
    unequal e.epoch_id v.epoch_id
    || unequal e.source_id v.source_id
    || less e.size 0
    || wrong_length e.sha256
    || unknown_operation e.operation
    || (sql_delete e.operation
        && (unequal_number e.metadata 1
            || unequal_number e.size 0
            || unequal (sql_lower e.sha256) tombstone_sha256))
    || less e.pack_offset 128
    || at_most e.record_length 0

unfoldable pub unit_of : EntryRow → UnitRow → Bool
unit_of e u = is_text u.id e.publish_unit_id

unfoldable pub no_unit : List UnitRow → EntryRow → Bool
no_unit units e = not (affects (unit_of e) units)

unfoldable pub pack_of : ImportSession → EntryRow → Pack → Bool
pack_of v e p = is_text p.id e.pack_id && beq p.batch_id v.batch_id

unfoldable pub no_pack : ImportSession → List Pack → EntryRow → Bool
no_pack v packs e = not (affects (pack_of v e) packs)

-- GROUP BY takes NULLs for one value.
unfoldable pub at_path : Option Text → EntryRow → Bool
at_path none e = elim e.logical_path [ none ↦ true | some _ ↦ false ]
at_path (some path) e = is_text path e.logical_path

unfoldable pub repeated_path : List EntryRow → EntryRow → Bool
repeated_path entries e = ltb 1 (count (at_path e.logical_path) entries)

unfoldable pub of_unit : Text → EntryRow → Bool
of_unit id e = is_text id e.publish_unit_id

unfoldable pub too_few : List EntryRow → UnitRow → Bool
too_few entries u = less u.required (count (of_unit u.id) entries)

unfoldable pub in_pack : Text → EntryRow → Bool
in_pack id e = is_text id e.pack_id

unfoldable pub miscounted : ImportSession → List EntryRow → Pack → Bool
miscounted v entries p =
    beq p.batch_id v.batch_id && not (p.entry_count == count (in_pack p.id) entries)

-- The checks before the transaction.
unfoldable pub check_manifest : ImportSession → Epoch → Incoming → Database → Result (Unit {0})
check_manifest v ep i db = do
  source ← meta_value (codes "source_id") i.meta
  epoch ← meta_value (codes "epoch_id") i.meta
  batch ← meta_value (codes "batch_id") i.meta
  check (not (beq source v.source_id) || not (beq epoch v.epoch_id) || not (beq batch v.batch_id))
      Err.conflict
  version ← meta_value (codes "schema_version") i.meta
  check (not (beq version manifest_schema_version)) Err.invalid
  b ← get_batch v.batch_id db
  check (affects (bad_unit v) i.units) Err.conflict
  check (affects (bad_entry v) i.entries) Err.conflict
  check (affects (no_unit i.units) i.entries) Err.conflict
  check (affects (no_pack v db.store.packs) i.entries) Err.conflict
  check (affects (repeated_path i.entries) i.entries) Err.conflict
  check (affects (too_few i.entries) i.units) Err.conflict
  check (not (length i.entries == b.object_count)) Err.conflict
  check (affects (miscounted v i.entries) db.store.packs) Err.conflict
  check (not (length i.units == ep.publish_unit_count)) Err.conflict
  ok tt

-- A row of the same id with another declaration.
unfoldable pub declares_other : UnitRow → PublishUnit → Bool
declares_other u p =
    beq p.id u.id
    && (unequal u.epoch_id p.epoch_id
        || unequal u.source_id p.source_id
        || unequal u.key p.key
        || unequal_number u.required p.required
        || unequal u.metadata_path p.metadata_path)

unfoldable pub redeclared : List PublishUnit → UnitRow → Bool
redeclared rows u = affects (declares_other u) rows

-- A row of the same epoch and key with another id.
unfoldable pub takes_key : UnitRow → PublishUnit → Bool
takes_key u p = is_text p.epoch_id u.epoch_id && is_text p.key u.key && not (beq p.id u.id)

unfoldable pub key_taken : List PublishUnit → UnitRow → Bool
key_taken rows u = affects (takes_key u) rows

-- The row that is inserted, if no column is NULL that must not be.
insertable :
    Text → Option Text → Option Text → Option Text → Option ℕ → Option Text → Option PublishUnit
insertable id (some epoch) (some source) (some key) (some required) (some path) = some (record {
  id = id;
  epoch_id = epoch;
  source_id = source;
  key = key;
  status = PublishUnitStatus.waiting;
  required = required;
  imported = 0;
  metadata_path = path;
  published_at = none;
})
insertable id _ _ _ _ _ = none

unfoldable pub inserted_row : UnitRow → Option PublishUnit
unfolding insertable
inserted_row u = insertable u.id u.epoch_id u.source_id u.key u.required u.metadata_path

-- No row has its id, or its epoch and key.
unfoldable pub is_new : List PublishUnit → PublishUnit → Bool
is_new rows u = not (affects (is_unit u.id) rows) && not (affects (same_key u.epoch_id u.key) rows)

unfoldable pub adds : List PublishUnit → UnitRow → Bool
adds rows u = elim (inserted_row u) [ none ↦ false | some x ↦ is_new rows x ]

-- OR IGNORE passes over a row that a NOT NULL or a UNIQUE refuses.
unfoldable pub insert_unit : Option PublishUnit → List PublishUnit → List PublishUnit
insert_unit none rows = rows
insert_unit (some u) rows = if is_new rows u then u ∷ rows else rows

unfoldable pub insert_units : List UnitRow → List PublishUnit → List PublishUnit
insert_units [] rows = rows
insert_units (u ∷ us) rows = insert_units us (insert_unit (inserted_row u) rows)

unfoldable pub manifest_ready : ℕ → ImportSession → ImportSession
manifest_ready now x = record x { status = SessionStatus.manifest_ready; updated_at = now }

unfoldable pub register_manifest :
    Bool → (Text → Option Incoming) → ℕ → Text → Database → Result Database
register_manifest fk attach now id db = do
  v ← found (get_import_session id db.store)
  ep ← get_epoch v.epoch_id db
  i ← or_other (attach v.manifest_path)
  check_manifest v ep i db
  check (affects (redeclared db.imports.units) i.units) Err.conflict
  check (affects (key_taken db.imports.units) i.units) Err.conflict
  check
      (fk
        && affects (adds db.imports.units) i.units
        && not (affects (is_source v.source_id) db.sources))
      Err.other
  ok (record db {
    imports = record db.imports { units = insert_units i.units db.imports.units };
    store = record db.store {
      sessions = modify (λ x. beq x.id id) (manifest_ready now) db.store.sessions;
    };
  })

-- CompleteManifest
unfoldable pub complete_manifest :
    (List ℕ → List ℕ)
    → Files
    → Bool
    → (Text → Option Incoming)
    → ℕ
    → Text
    → Database
    → Result Database
complete_manifest sha256 files fk attach now id db = do
  v ← found (get_import_session id db.store)
  (h, n) ← or_other (file_sha256 sha256 v.manifest_path files)
  check (not (n == v.manifest_size) || not (beq h v.manifest_sha256)) Err.conflict
  register_manifest fk attach now id db
