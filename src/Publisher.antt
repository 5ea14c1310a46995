-- ===== src/Publisher.antt =====
-- internal/service/publisher.go, and ListPublishUnits and ListPublishMetadata of
-- internal/storage/sqlite. A call returns its error, if any, and what it leaves. The clock stands still
-- during a call.
pub mod Metadata
pub mod Keeps
use airgap_mirror.Prelude.{
  ℕ, Bool, true, false, not, ◌&&◌, ◌||◌, List, [], ◌∷◌, ◌++◌, Option, none, some, beq, length,
  if◌then◌else◌, ◌==◌, ltb,
}
use airgap_mirror.Prelude.Tables.{rows}
use airgap_mirror.Prelude.Texts.{codes, text_lt, ends_with, includes, to_lower}
use airgap_mirror.Domain.Status.{Text, SourceType, ArtifactOperation, PublishUnitStatus}
use airgap_mirror.Domain.Types.{
  Source, Epoch, PublishUnit, PublishMetadataEntry, CatalogEntry, ManifestEntry,
}
use airgap_mirror.Domain.Transitions.{Err}
use airgap_mirror.Domain.Result.{Result, ok, err, ◌>>=◌, ◌>>◌, check, pass, found}
use airgap_mirror.Pack.Clean.{split}
use airgap_mirror.Store.Commit.{Imports}
use airgap_mirror.Database.{Database}
use airgap_mirror.Database.Sources.{get_source}
use airgap_mirror.Database.Epochs.{get_epoch, is_published}
use airgap_mirror.Database.Units.{upsert_entry, delete_entry, mark_published}
use airgap_mirror.Site.{
  Site, Lstat, safe_target, reject_symlink_parents, hash_file, rename, remove_file,
}

-- What stands outside: SHA-256, filepath.Abs, os.Lstat, whether the connection enforces REFERENCES, and
-- the adapter's ValidatePublish, or no test where there is no registry; and the rows of an uploaded
-- manifest, if it can be opened, none of which has a NULL that cannot be scanned.
pub record Outside : Type 0 where
  pub sha256 : List ℕ → List ℕ
  pub abs : Text → Text
  pub lstat : Text → Lstat
  pub enforced : Bool
  pub validate : Source → Epoch → PublishUnit → Database → Option Err
  pub manifest : Text → Option (List ManifestEntry)

abbrev pub empty_sha256 : Text
empty_sha256 = codes "e3b0c44298fc1c149afbf4c8996fb92427ae41e4649b934ca495991b7852b855"

-- The last segment that is not empty.
last_name : Text → List Text → Text
last_name best [] = best
last_name best (s ∷ ss) = last_name (if beq s [] then best else s) ss

-- filepath.Base
unfoldable pub base : Text → Text
unfolding last_name
base p = if beq p [] then codes "." else last_name (codes "/") (split p)

apt_priority : Text → Text → ℕ
apt_priority name path =
    if beq name (codes "Release")
    then 90
    else if beq name (codes "Release.gpg")
    then 95
    else if beq name (codes "InRelease")
    then 100
    else if includes path (codes "/by-hash/")
    then 20
    else 10

maven_priority : Text → ℕ
maven_priority name =
    if ends_with (to_lower name) (codes ".sha1")
      || ends_with (to_lower name) (codes ".sha256")
      || ends_with (to_lower name) (codes ".sha512")
      || ends_with (to_lower name) (codes ".md5")
    then 20
    else if beq name (codes "maven-metadata.xml")
    then 100
    else 10

unfoldable pub publish_priority : SourceType → Text → ℕ
unfolding apt_priority maven_priority
publish_priority SourceType.apt path = apt_priority (base path) path
publish_priority SourceType.maven path = maven_priority (base path)
publish_priority _ path = 10

-- The comparison of sort.Slice.
unfoldable pub published_first : SourceType → PublishMetadataEntry → PublishMetadataEntry → Bool
published_first t a b =
    let i = publish_priority t a.logical_path in
    let j = publish_priority t b.logical_path in
    if not (i == j) then ltb i j else text_lt a.logical_path b.logical_path

module _ {A : Type 0} (less : A → A → Bool) where
  insert_sorted : A → List A → List A
  insert_sorted x [] = x ∷ []
  insert_sorted x (y ∷ ys) = if less y x then y ∷ insert_sorted x ys else x ∷ y ∷ ys

  -- sort.Slice, and ORDER BY.
  unfoldable pub sort : List A → List A
  unfolding insert_sorted
  sort [] = []
  sort (x ∷ xs) = insert_sorted x (sort xs)

-- The row that publishMetadata writes into the catalog.
unfoldable pub catalog_row : ℕ → PublishMetadataEntry → CatalogEntry
catalog_row now m = record {
  source_id = m.source_id;
  logical_path = m.logical_path;
  size = m.size;
  sha256 = m.sha256;
  package_key = m.package_key;
  version = m.version;
  attributes = m.attributes;
  updated_at = now;
}

-- The error that a call returns, and what it leaves.
abbrev pub Done : Type 0
Done = Option Err × Site

unfoldable pub to_catalog : Outside → ℕ → PublishMetadataEntry → Site → Done
unfolding catalog_row
to_catalog o now m s = elim (upsert_entry o.enforced (catalog_row now m) s.db) [
  | err e ↦ (some e, s)
  | ok db ↦ (none, record s { db = db })
]

-- h != m.SHA256 || n != m.Size
unfoldable pub differs : Text × ℕ → PublishMetadataEntry → Bool
differs (h, n) m = not (beq h m.sha256) || not (n == m.size)

-- The file that was published before an interruption.
unfoldable pub published_before : Outside → ℕ → PublishMetadataEntry → Text → Site → Done
published_before o now m target s = elim (hash_file o.sha256 target s.files) [
  | none ↦ (some Err.other, s)
  | some at ↦ if differs at m then (some Err.conflict, s) else to_catalog o now m s
]

-- The staged file, moved to its place.
unfoldable pub move_staged : Outside → ℕ → Source → PublishMetadataEntry → Text → Site → Done
move_staged o now source m target s =
    elim (reject_symlink_parents o.abs o.lstat source.root_path target) [
      | err e ↦ (some e, s)
      | ok _ ↦ to_catalog o now m (record s { files = rename m.staged_path target s.files })
    ]

unfoldable pub publish_content : Outside → ℕ → Source → PublishMetadataEntry → Text → Site → Done
publish_content o now source m target s = elim (hash_file o.sha256 m.staged_path s.files) [
  | some staged ↦
      if differs staged m then (some Err.conflict, s) else move_staged o now source m target s
  | none ↦ published_before o now m target s
]

unfoldable pub drop_content : PublishMetadataEntry → Source → Text → Site → Done
drop_content m source target s =
    if not (m.size == 0) || not (beq m.sha256 empty_sha256) || not (beq m.staged_path [])
    then (some Err.invalid, s)
    else (
      none,
      record {
        db = delete_entry source.id m.logical_path s.db;
        files = remove_file target s.files;
      },
    )

-- What publishMetadata does with the operation, once it has the target.
unfoldable pub publish_at :
    Outside → ℕ → Source → PublishMetadataEntry → Text → ArtifactOperation → Site → Done
publish_at o now source m target ArtifactOperation.delete s = drop_content m source target s
publish_at o now source m target (ArtifactOperation.other _) s = (some Err.invalid, s)
publish_at o now source m target _ s =
    if beq m.staged_path [] then (some Err.invalid, s) else publish_content o now source m target s

-- The tests before it: the target, or an error.
unfoldable pub target_of : Outside → Source → PublishMetadataEntry → Result Text
target_of o source m = do
  check (not (beq m.source_id source.id)) Err.conflict
  target ← safe_target o.abs source.root_path m.logical_path
  reject_symlink_parents o.abs o.lstat source.root_path target
  ok target

unfoldable pub publish_metadata : Outside → ℕ → Source → PublishMetadataEntry → Site → Done
publish_metadata o now source m s = elim (target_of o source m) [
  | err e ↦ (some e, s)
  | ok target ↦ publish_at o now source m target m.operation s
]

-- if err != nil { return err }
unfoldable pub and_then : Done → (Site → Done) → Done
and_then (some e, t) k = (some e, t)
and_then (none, t) k = k t

-- The inner loop; an error ends it.
unfoldable pub publish_all : Outside → ℕ → Source → List PublishMetadataEntry → Site → Done
publish_all o now source [] s = (none, s)
publish_all o now source (m ∷ rest) s =
    and_then (publish_metadata o now source m s) (λ t. publish_all o now source rest t)

-- ListPublishMetadata, which fails if the column `operation` is missing.
unfoldable pub list_publish_metadata : Text → Imports → Result (List PublishMetadataEntry)
list_publish_metadata id s = do
  check (not s.has_operation) Err.other
  ok (
      sort (λ a b. text_lt a.logical_path b.logical_path)
        (rows (λ m. beq m.publish_unit_id id) s.metadata))

-- ListPublishUnits
unfoldable pub list_publish_units : Text → Database → List PublishUnit
list_publish_units id db =
    sort (λ a b. text_lt a.key b.key) (rows (λ u. beq u.epoch_id id) db.imports.units)

unfoldable pub mark_unit : ℕ → PublishUnit → Site → Done
mark_unit now u s = elim (mark_published u.id now s.db) [
  | err e ↦ (some e, s)
  | ok db ↦ (none, record s { db = db })
]

-- The metadata of a unit, in the order of the priorities, and its mark.
unfoldable pub publish_entries : Outside → ℕ → Source → PublishUnit → Site → Done
publish_entries o now source u s = elim (list_publish_metadata u.id s.db.imports) [
  | err e ↦ (some e, s)
  | ok entries ↦
      and_then (publish_all o now source (sort (published_first source.type) entries) s)
        (λ t. mark_unit now u t)
]

-- u.Status != PUBLISH_READY && u.Status != WAITING
unfoldable pub unexpected : PublishUnitStatus → Bool
unexpected PublishUnitStatus.ready = false
unexpected PublishUnitStatus.waiting = false
unexpected _ = true

unfoldable pub publish_unit : Outside → ℕ → Source → Epoch → PublishUnit → Site → Done
publish_unit o now source ep u s =
    if is_published u.status || not (u.imported == u.required)
    then (none, s)
    else if unexpected u.status
    then (some Err.conflict, s)
    else elim (o.validate source ep u s.db) [
      | some e ↦ (some e, s)
      | none ↦ publish_entries o now source u s
    ]

unfoldable pub publish_units : Outside → ℕ → Source → Epoch → List PublishUnit → Site → Done
publish_units o now source ep [] s = (none, s)
publish_units o now source ep (u ∷ rest) s =
    and_then (publish_unit o now source ep u s) (λ t. publish_units o now source ep rest t)

unfoldable pub epoch_and_source : Text → Database → Result (Epoch × Source)
epoch_and_source id db = do
  ep ← get_epoch id db
  source ← get_source ep.source_id db
  ok (ep, source)

unfoldable pub publish_ready : Outside → ℕ → Text → Site → Done
publish_ready o now id s = elim (epoch_and_source id s.db) [
  | err e ↦ (some e, s)
  | ok (ep, source) ↦ publish_units o now source ep (list_publish_units id s.db) s
]
