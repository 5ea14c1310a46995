-- ===== src/Importer/Packs.antt =====
-- CommitPack of internal/service/importer.go, with WalkPack of internal/service/manifest_reader.go and
-- FileInstaller of internal/service/installer.go. The audit log is not modelled.
use airgap_mirror.Prelude.{
  ℕ, ◌+◌, Bool, true, false, not, ◌&&◌, ◌||◌, List, [], ◌∷◌, Option, none, some, beq, length,
  if◌then◌else◌, ◌==◌,
}
use airgap_mirror.Prelude.Int64.{lt64}
use airgap_mirror.Prelude.Tables.{rows}
use airgap_mirror.Prelude.Texts.{codes}
use airgap_mirror.Domain.Status.{
  Text, SessionStatus, BatchStatus, PackStatus, ArtifactOperation, session_eq, batch_eq, pack_eq,
}
use airgap_mirror.Domain.Types.{
  Source, Pack, PackHeader, PackRecord, ImportSession, ImportPack, ManifestEntry, CatalogEntry,
}
use airgap_mirror.Domain.Transitions.{Err}
use airgap_mirror.Domain.Result.{Result, ok, err, found}
use airgap_mirror.Pack.Reader.{Reader, ReadErr, opened, refused, Next, stop, item, new_reader, next}
use airgap_mirror.Store.{get_import_session, get_import_pack}
use airgap_mirror.Store.Commit.{Imports, commit_imported_entry}
use airgap_mirror.Transfer.{Files, verify_uploaded_pack}
use airgap_mirror.Database.Sources.{get_source}
use airgap_mirror.Database.Epochs.{get_batch, get_pack, transition_batch}
use airgap_mirror.Database.Register.{mark_import_pack_committed}
use airgap_mirror.Site.{join_path, Site, safe_target, write_verified, remove_file}
use airgap_mirror.Publisher.{Outside, Done, and_then, empty_sha256, publish_ready, sort}
use airgap_mirror.Importer.{get_then, put_then, put_session}

scan_entries : List ManifestEntry → List ManifestEntry
scan_entries [] = []
scan_entries (m ∷ rest) =
    record m { artifact = record m.artifact { id = m.entry_id } } ∷ scan_entries rest

-- WalkPack's rows: WHERE pack_id=? ORDER BY pack_offset; the id of an artifact is that of its entry.
unfoldable pub walk_pack : Text → List ManifestEntry → List ManifestEntry
unfolding scan_entries
walk_pack pid manifest =
    scan_entries
      (sort (λ a b. lt64 a.pack_offset b.pack_offset) (rows (λ m. beq m.pack_id pid) manifest))

-- The header is of this pack, epoch and batch.
unfoldable pub other_header : ImportSession → Text → PackHeader → Bool
other_header v pid h =
    not (beq h.pack_id pid) || not (beq h.epoch_id v.epoch_id) || not (beq h.batch_id v.batch_id)

unfoldable pub mismatch : ImportSession → Text → ManifestEntry → PackRecord → Bool
mismatch v pid m rec =
    not (beq m.pack_id pid)
    || not (beq m.entry_id rec.entry_id)
    || not (m.pack_offset == rec.offset)
    || not (m.record_length == rec.record_length)
    || not (beq m.artifact.logical_path rec.logical_path)
    || not (m.artifact.size == rec.content_length)
    || not (beq m.artifact.sha256 rec.sha256)
    || not (beq m.artifact.source_id v.source_id)
    || not (beq m.artifact.epoch_id v.epoch_id)

unfoldable pub deletes : ArtifactOperation → Bool
deletes ArtifactOperation.delete = true
deletes _ = false

unfoldable pub staging_logical : ImportSession → ManifestEntry → Text
staging_logical v m = join_path (
    codes ".airgap-staging"
    ∷ v.epoch_id
    ∷ m.artifact.publish_unit_id
    ∷ m.artifact.logical_path
    ∷ [])

-- The path of the staged metadata, or the error, and the files.
abbrev pub Placed : Type 0
Placed = Result Text × Files

staged_as : Text → Result Bool × Files → Placed
staged_as path (ok _, files) = (ok path, files)
staged_as path (err e, files) = (err e, files)

-- safeTarget and writeVerified, for the metadata at its staging path.
unfoldable pub stage :
    Outside → Source → ImportSession → ManifestEntry → PackRecord → List ℕ → Files → Placed
unfolding staged_as
stage o source v m rec body files =
    elim (safe_target o.abs source.root_path (staging_logical v m)) [
      | err e ↦ (err e, files)
      | ok target ↦ staged_as target (
          write_verified o.sha256 o.abs o.lstat source.root_path target rec.content_length
            rec.sha256 body false files)
    ]

-- FileInstaller.Install; an artifact has no staged path.
unfoldable pub install : Outside → Source → PackRecord → List ℕ → Files → Placed
unfolding staged_as
install o source rec body files = elim (safe_target o.abs source.root_path rec.logical_path) [
  | err e ↦ (err e, files)
  | ok target ↦ staged_as [] (
      write_verified o.sha256 o.abs o.lstat source.root_path target rec.content_length rec.sha256
        body false files)
]

unfoldable pub tombstone : PackRecord → List ℕ → Files → Placed
tombstone rec body files =
    if not (rec.content_length == 0) || not (beq rec.sha256 empty_sha256)
    then (err Err.invalid, files)
    else if not (length body == 0)
    then (err Err.conflict, files)
    else (ok [], files)

-- The switch over the kinds of entries.
unfoldable pub put_entry :
    Outside → Source → ImportSession → ManifestEntry → PackRecord → List ℕ → Files → Placed
put_entry o source v m rec body files =
    if m.artifact.metadata && deletes m.artifact.operation
    then tombstone rec body files
    else if m.artifact.metadata
    then stage o source v m rec body files
    else install o source rec body files

unfoldable pub entry_row : ℕ → ManifestEntry → CatalogEntry
entry_row now m = record {
  source_id = m.artifact.source_id;
  logical_path = m.artifact.logical_path;
  size = m.artifact.size;
  sha256 = m.artifact.sha256;
  package_key = m.artifact.package_key;
  version = m.artifact.version;
  attributes = m.artifact.attributes;
  updated_at = now;
}

-- CommitImportedEntry, with the files that are there by then.
unfoldable pub recorded : (Bool × Option Err) × Imports → Site → Done
recorded ((_, e), imports) s = (e, record s { db = record s.db { imports = imports } })

unfoldable pub record_entry : Bool → ℕ → ManifestEntry → Placed → Site → Done
unfolding recorded entry_row
record_entry fk now m (err e, files) s = (some e, record s { files = files })
record_entry fk now m (ok staged, files) s =
    recorded (commit_imported_entry fk s.db.sources now m (entry_row now m) staged s.db.imports)
      (record s { files = files })

-- The callback of WalkPack, on the record that Next has given.
unfoldable pub commit_record :
    Outside → ℕ → Source → ImportSession → Text → ManifestEntry → PackRecord → List ℕ → Site → Done
commit_record o now source v pid m rec body s =
    if mismatch v pid m rec
    then (some Err.conflict, s)
    else if deletes m.artifact.operation && not m.artifact.metadata
    then (some Err.invalid, s)
    else record_entry o.enforced now m (put_entry o source v m rec body s.files) s

-- Whether Next gives io.EOF.
unfoldable pub is_eof : Next → Bool
is_eof (stop ReadErr.eof) = true
is_eof _ = false

-- WalkPack, the count of its entries, and what follows it; `k` is what comes after the last check.
unfoldable pub walk :
    Outside
    → ℕ
    → Source
    → ImportSession
    → Text
    → ℕ
    → List ManifestEntry
    → ℕ
    → Reader
    → Site
    → (Site → Done)
    → Done
walk o now source v pid expected [] count r s k =
    if not (count == expected) || not (is_eof (next r)) then (some Err.conflict, s) else k s
walk o now source v pid expected (m ∷ rest) count r s k = elim (next r) [
  | stop _ ↦ (some Err.other, s)
  | item rec body r' ↦
      and_then (commit_record o now source v pid m rec body s)
        (λ t. walk o now source v pid expected rest (count + 1) r' t k)
]

-- MarkImportPackCommitted, the removal of the pack's file, and PublishReady.
unfoldable pub close_pack : Outside → ℕ → ImportSession → ImportPack → Text → Text → Site → Done
close_pack o now v ip sid pid s =
    put_then (mark_import_pack_committed sid pid s.db) s (λ t.
      publish_ready o now v.epoch_id (record t { files = remove_file ip.staging_path t.files }))

-- From the transition of the batch on.
unfoldable pub walk_manifest :
    Outside → ℕ → Source → ImportSession → ImportPack → Text → Text → Pack → Reader → Site → Done
walk_manifest o now source v ip sid pid p r s =
    put_then (put_session (record v { status = SessionStatus.importing; updated_at = now }) s.db) s
      (λ t. elim (o.manifest v.manifest_path) [
        | none ↦ (some Err.other, t)
        | some rows ↦
            walk o now source v pid p.entry_count (walk_pack pid rows) 0 r t
              (λ u. close_pack o now v ip sid pid u)
      ])

unfoldable pub import_opened :
    Outside → ℕ → Source → ImportSession → ImportPack → Text → Text → Pack → Reader → Site → Done
import_opened o now source v ip sid pid p r s =
    if other_header v pid r.header
    then (some Err.conflict, s)
    else get_then (get_batch v.batch_id s.db) s (λ b.
      if batch_eq b.status BatchStatus.transferring
      then put_then (transition_batch now b.id BatchStatus.importing [] s.db) s
          (λ t. walk_manifest o now source v ip sid pid p r t)
      else walk_manifest o now source v ip sid pid p r s)

-- pack.Open
unfoldable pub pack_open : Text → Files → Result Reader
pack_open path files = elim (files path) [
  | none ↦ err Err.other
  | some c ↦ elim (new_reader c) [ refused _ ↦ err Err.other | opened r ↦ ok r ]
]

-- From the check of the uploaded file on.
unfoldable pub import_uploaded :
    Outside → ℕ → ImportSession → ImportPack → Text → Text → Site → Done
import_uploaded o now v ip sid pid s = elim (verify_uploaded_pack o.sha256 ip s.files) [
  | some e ↦ (some e, s)
  | none ↦ get_then (get_pack pid s.db) s (λ p. get_then (get_source v.source_id s.db) s (λ source.
      get_then (pack_open ip.staging_path s.files) s
        (λ r. import_opened o now source v ip sid pid p r s)))
]

unfoldable pub ready_to_import : SessionStatus → Bool
ready_to_import status =
    session_eq status SessionStatus.manifest_ready || session_eq status SessionStatus.importing

unfoldable pub commit_pack : Outside → ℕ → Text → Text → Site → Done
commit_pack o now sid pid s = get_then (found (get_import_session sid s.db.store)) s (λ v.
    get_then (found (get_import_pack sid pid s.db.store)) s (λ ip.
      if pack_eq ip.status PackStatus.imported
      then (none, s)
      else if not (ready_to_import v.status)
      then (some Err.conflict, s)
      else if not (pack_eq ip.status PackStatus.uploaded)
      then (some Err.conflict, s)
      else import_uploaded o now v ip sid pid s))
