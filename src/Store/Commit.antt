-- ===== src/Store/Commit.antt =====
-- CommitImportedEntry of internal/storage/sqlite/server_import_commit.go. The newest row of a table
-- stands first; `has_operation` says whether publish_metadata_entries has the column `operation`.
pub mod Repeats
use airgap_mirror.Prelude.{
  ℕ, ◌+◌, ◌≤◌, ◌<◌, ◌≡◌, refl, sym, ap, ◌∙◌, Bool, true, false, not, ◌&&◌, ◌||◌, List, [], ◌∷◌, All,
  Option, none, some, ltb, ltb→lt, ◌==◌, beq, beq_refl, if◌then◌else◌, Bool-cases, Option-cases,
  inl, inr, arith, &&-true,
}
use airgap_mirror.Prelude.Int64.{add64, lt64}
use airgap_mirror.Prelude.Tables.{find, modify, affects}
use airgap_mirror.Domain.Status.{Text, PublishUnitStatus, ArtifactOperation}
use airgap_mirror.Domain.Transitions.{Err}
use airgap_mirror.Domain.Types.{
  Artifact, ManifestEntry, CatalogEntry, Source, PublishMetadataEntry, PublishUnit,
}

pub record ImportedEntry : Type 0 where
  pub epoch_id : Text
  pub entry_id : Text
  pub source_id : Text
  pub logical_path : Text
  pub sha256 : Text
  pub publish_unit_id : Text
  pub metadata : Bool
  pub imported_at : ℕ

pub record Imports : Type 0 where
  pub entries : List ImportedEntry
  pub metadata : List PublishMetadataEntry
  pub catalog : List CatalogEntry
  pub units : List PublishUnit
  pub has_operation : Bool

bool_eq : Bool → Bool → Bool
bool_eq true b = b
bool_eq false b = not b

is_entry : ManifestEntry → ImportedEntry → Bool
is_entry m r = beq r.epoch_id m.artifact.epoch_id && beq r.entry_id m.entry_id

same_entry : Artifact → ImportedEntry → Bool
unfolding bool_eq
same_entry a r = not (
    not (beq r.source_id a.source_id)
    || not (beq r.logical_path a.logical_path)
    || not (beq r.sha256 a.sha256)
    || not (beq r.publish_unit_id a.publish_unit_id)
    || not (bool_eq r.metadata a.metadata))

imported_entry : ℕ → ManifestEntry → ImportedEntry
imported_entry now m = record {
  epoch_id = m.artifact.epoch_id;
  entry_id = m.entry_id;
  source_id = m.artifact.source_id;
  logical_path = m.artifact.logical_path;
  sha256 = m.artifact.sha256;
  publish_unit_id = m.artifact.publish_unit_id;
  metadata = m.artifact.metadata;
  imported_at = now;
}

metadata_entry : ManifestEntry → Text → PublishMetadataEntry
metadata_entry m staged = record {
  entry_id = m.entry_id;
  publish_unit_id = m.artifact.publish_unit_id;
  source_id = m.artifact.source_id;
  logical_path = m.artifact.logical_path;
  size = m.artifact.size;
  sha256 = m.artifact.sha256;
  operation = m.artifact.operation;
  staged_path = staged;
  package_key = m.artifact.package_key;
  version = m.artifact.version;
  attributes = m.artifact.attributes;
}

-- INSERT ... ON CONFLICT DO UPDATE, by the key that `same` tests.
unfoldable pub upsert {ℓ} : {A : Type ℓ} → (A → Bool) → (A → A) → A → List A → List A
upsert same set new rows = if affects same rows then modify same set rows else new ∷ rows

set_metadata : PublishMetadataEntry → PublishMetadataEntry → PublishMetadataEntry
set_metadata v x = record x {
  operation = v.operation;
  staged_path = v.staged_path;
  package_key = v.package_key;
  version = v.version;
  attributes = v.attributes;
}

unfoldable pub set_catalog : CatalogEntry → CatalogEntry → CatalogEntry
set_catalog c x = record x {
  size = c.size;
  sha256 = c.sha256;
  package_key = c.package_key;
  version = c.version;
  attributes = c.attributes;
  updated_at = c.updated_at;
}

-- PRIMARY KEY(source_id,logical_path)
unfoldable pub at_place : CatalogEntry → CatalogEntry → Bool
at_place c x = beq x.source_id c.source_id && beq x.logical_path c.logical_path

-- A new row of the catalog without its source, where REFERENCES is enforced.
unfoldable pub no_source : Bool → List Source → CatalogEntry → List CatalogEntry → Bool
unfolding at_place
no_source fk sources c rows =
    fk && not (affects (at_place c) rows) && not (affects (λ x. beq x.id c.source_id) sources)

-- A new row of the metadata that UNIQUE(publish_unit_id,logical_path) or REFERENCES refuses.
unfoldable pub refused_metadata : Bool → PublishMetadataEntry → Imports → Bool
refused_metadata fk v s =
    not (affects (λ x. beq x.entry_id v.entry_id) s.metadata)
    && (affects (λ x. beq x.publish_unit_id v.publish_unit_id && beq x.logical_path v.logical_path)
          s.metadata
        || (fk && not (affects (λ u. beq u.id v.publish_unit_id) s.units)))

-- The entry's row, and that of its metadata or of the catalog; `none` is a refused statement.
write_entry :
    Bool → List Source → ℕ → ManifestEntry → CatalogEntry → Text → Imports → Option Imports
unfolding imported_entry metadata_entry upsert set_metadata set_catalog at_place no_source
    refused_metadata
write_entry fk sources now m c staged s =
    if not m.artifact.metadata
    then if no_source fk sources c s.catalog
      then none
      else some (record s {
        entries = imported_entry now m ∷ s.entries;
        catalog = upsert (at_place c) (set_catalog c) c s.catalog;
      })
    else if not s.has_operation || refused_metadata fk (metadata_entry m staged) s
    then none
    else some (record s {
      entries = imported_entry now m ∷ s.entries;
      metadata =
          upsert (λ x. beq x.entry_id m.entry_id) (set_metadata (metadata_entry m staged))
            (metadata_entry m staged) s.metadata;
    })

-- WHERE id=? AND imported_count<required_count
unfoldable pub open_unit : Text → PublishUnit → Bool
open_unit id u = beq u.id id && lt64 u.imported u.required

unfoldable pub count_entry : PublishUnit → PublishUnit
count_entry u = record u {
  imported = add64 u.imported 1;
  status = if add64 u.imported 1 == u.required then PublishUnitStatus.ready else u.status;
}

-- The update of the unit, whose id is the primary key, so that at most one row is affected; `s` is what
-- stays if the transaction is rolled back.
count_unit : Text → Imports → Option Imports → (Bool × Option Err) × Imports
unfolding open_unit count_entry
count_unit id s none = ((false, some Err.other), s)
count_unit id s (some t) =
    if not (affects (open_unit id) t.units)
    then ((false, some Err.conflict), s)
    else ((true, none), record t { units = modify (open_unit id) count_entry t.units })

-- `fk` says whether the connection enforces REFERENCES, and `sources` are the rows of that table.
unfoldable pub commit_imported_entry :
    Bool
    → List Source
    → ℕ
    → ManifestEntry
    → CatalogEntry
    → Text
    → Imports
    → (Bool × Option Err) × Imports
unfolding is_entry same_entry write_entry count_unit
commit_imported_entry fk sources now m c staged s = elim (find (is_entry m) s.entries) [
  | some r ↦
      if not (same_entry m.artifact r) then ((false, some Err.conflict), s) else ((false, none), s)
  | none ↦ count_unit m.artifact.publish_unit_id s (write_entry fk sources now m c staged s)
]
