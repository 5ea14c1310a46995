-- ===== src/Database/Units.antt =====
-- internal/storage/sqlite/server_publish_catalog.go: publish units and the catalog.
pub mod Full
use airgap_mirror.Prelude.{
  ℕ, Bool, true, false, ◌&&◌, ◌||◌, not, List, [], ◌∷◌, beq, if◌then◌else◌, none, some, Option,
  ◌==◌, ◌+◌, ltb, leb, length,
}
use airgap_mirror.Prelude.Int64.{add64, lt64, two63}
use airgap_mirror.Prelude.Tables.{find, modify, affects, rows, remove}
use airgap_mirror.Domain.Status.{Text, PublishUnitStatus}
use airgap_mirror.Domain.Types.{PublishUnit, CatalogEntry, CatalogStats}
use airgap_mirror.Domain.Transitions.{Err}
use airgap_mirror.Domain.Result.{Result, ok, err, ◌>>=◌, ◌>>◌, check, found}
use airgap_mirror.Store.Commit.{Imports, upsert, set_catalog}
use airgap_mirror.Database.{Database}
use airgap_mirror.Database.Sources.{is_source}
use airgap_mirror.Database.Epochs.{is_epoch}

unfoldable pub is_unit : Text → PublishUnit → Bool
is_unit id u = beq u.id id

unfoldable pub with_units : List PublishUnit → Database → Database
with_units units db = record db { imports = record db.imports { units = units } }

unfoldable pub declared_otherwise : PublishUnit → PublishUnit → Bool
declared_otherwise r u =
    not (beq r.epoch_id u.epoch_id)
    || not (beq r.source_id u.source_id)
    || not (beq r.key u.key)
    || not (r.required == u.required)

unfoldable pub declared_unit : PublishUnit → PublishUnit
declared_unit u = record u { status = PublishUnitStatus.waiting; imported = 0; published_at = none }

-- UNIQUE(epoch_id,unit_key)
unfoldable pub same_key : Text → Text → PublishUnit → Bool
same_key epoch key u = beq u.epoch_id epoch && beq u.key key

-- DeclarePublishUnit
unfoldable pub declare_publish_unit : Bool → PublishUnit → Database → Result Database
unfolding is_unit declared_otherwise declared_unit same_key with_units
declare_publish_unit fk u db = elim (find (is_unit u.id) db.imports.units) [
  | some r ↦ check (declared_otherwise r u) Err.conflict >> ok db
  | none ↦ (do
    check (affects (same_key u.epoch_id u.key) db.imports.units) Err.other
    check (fk && not (affects (is_epoch u.epoch_id) db.epochs)) Err.other
    check (fk && not (affects (is_source u.source_id) db.sources)) Err.other
    ok (with_units (declared_unit u ∷ db.imports.units) db))
]

unfoldable pub get_publish_unit : Text → Database → Result PublishUnit
get_publish_unit id db = found (find (is_unit id) db.imports.units)

-- id=? AND imported_count=required_count
unfoldable pub full_unit : Text → PublishUnit → Bool
full_unit id u = is_unit id u && (u.imported == u.required)

unfoldable pub publish : ℕ → PublishUnit → PublishUnit
publish at u = record u { status = PublishUnitStatus.published; published_at = some at }

-- MarkPublished
unfoldable pub mark_published : Text → ℕ → Database → Result Database
unfolding full_unit publish with_units
mark_published id at db = do
  check (not (affects (full_unit id) db.imports.units)) Err.conflict
  ok (with_units (modify (full_unit id) (publish at) db.imports.units) db)

-- source_id=? AND logical_path=?
unfoldable pub is_entry_at : Text → Text → CatalogEntry → Bool
is_entry_at source path x = beq x.source_id source && beq x.logical_path path

unfoldable pub with_catalog : List CatalogEntry → Database → Database
with_catalog catalog db = record db { imports = record db.imports { catalog = catalog } }

-- Get of the catalog.
unfoldable pub get_entry : Text → Text → Database → Result CatalogEntry
get_entry source path db = found (find (is_entry_at source path) db.imports.catalog)

-- Upsert of the catalog.
unfoldable pub upsert_entry : Bool → CatalogEntry → Database → Result Database
unfolding with_catalog
upsert_entry fk v db = do
  check
      (fk
        && not (affects (is_entry_at v.source_id v.logical_path) db.imports.catalog)
        && not (affects (is_source v.source_id) db.sources))
      Err.other
  ok (
      with_catalog
        (upsert (is_entry_at v.source_id v.logical_path) (set_catalog v) v db.imports.catalog) db)

-- Delete of the catalog.
unfoldable pub delete_entry : Text → Text → Database → Database
unfolding with_catalog
delete_entry source path db = with_catalog (remove (is_entry_at source path) db.imports.catalog) db

-- SUM in SQLite: an error if the sum leaves the int64.
unfoldable pub sum_checked : ℕ → ℕ → Option ℕ
sum_checked a b =
    let s = add64 a b in
    if lt64 a 0
    then if lt64 b 0 && not (lt64 s 0) then none else some s
    else if not (lt64 b 0) && lt64 s 0
    then none
    else some s

unfoldable pub sum_sizes : ℕ → List CatalogEntry → Option ℕ
unfolding sum_checked
sum_sizes acc [] = some acc
sum_sizes acc (x ∷ xs) = elim (sum_checked acc x.size) [ none ↦ none | some s ↦ sum_sizes s xs ]

unfoldable pub entry_of : Text → CatalogEntry → Bool
entry_of source x = beq x.source_id source

-- Stats of the catalog; `none` of the sum is the error of SUM.
unfoldable pub stats : Text → Database → Result CatalogStats
unfolding entry_of
stats source db = elim (sum_sizes 0 (rows (entry_of source) db.imports.catalog)) [
  | none ↦ err Err.other
  | some n ↦ ok (record {
    source_id = source;
    bytes = n;
    objects = length (rows (entry_of source) db.imports.catalog);
  })
]
