-- ===== src/Examples/Commits.antt =====
-- A pack of one entry that is imported, and a batch that completes its epoch.
use airgap_mirror.Store.Commit.{commit_imported_entry}
use airgap_mirror.Prelude.Int64.{add64, lt64}
use airgap_mirror.Pack.Clean.{clean, validate_logical_path}
use airgap_mirror.Database.Units.{is_unit, mark_published, sum_sizes, stats}
use airgap_mirror.Pack.Reader.{new_reader, read_full, next}
use airgap_mirror.Database.Sources.{get_source, is_source, initial_state}
use airgap_mirror.Domain.Transitions.{
  can_transition_batch, validate_batch_transition, validate_epoch_transition, can_transition_epoch,
}
use airgap_mirror.Pack.Format.{header_bytes, record_bytes}
use airgap_mirror.Database.Epochs.{
  get_batch, is_batch, get_epoch, is_pack, get_pack, transition_batch, is_epoch,
  count_imported_batches, is_published, count_published_units, imported_of, published_of,
  complete_epoch, transition_epoch,
}
use airgap_mirror.Prelude.Tables.{affects, find, count, rows, modify}
use airgap_mirror.Domain.Result.{found, ◌>>=◌, ◌>>◌, pass, check}
use airgap_mirror.Prelude.{
  ◌≡◌, refl, true, false, none, some, [], ◌∷◌, ℕ, beq, replicate, if◌then◌else◌,
}
use airgap_mirror.Domain.Status.{
  ArtifactOperation, BatchStatus, SessionStatus, PackStatus, PublishUnitStatus, pack_eq, batch_eq,
  session_eq, epoch_eq,
}
use airgap_mirror.Domain.Types.{Artifact, ManifestEntry, ImportSession}
use airgap_mirror.Pack.Bytes.{hex_encode, put16, put64, put32, le_bytes, from_le}
use airgap_mirror.Pack.Uuid.{uuid_string}
use airgap_mirror.Pack.Spec.{pack_file, encode, encode_all}
use airgap_mirror.Transfer.{verify_uploaded_pack}
use airgap_mirror.Store.{get_import_session, get_import_pack, update_import_session}
use airgap_mirror.Database.{Database}
use airgap_mirror.Database.Register.{
  bundle_batch, bundle_epoch, bundle_pack, activate, mark_import_pack_committed,
}
use airgap_mirror.Site.{
  Site, reject_symlink_parents, write_checked, safe_target, write_verified, limit_reader,
}
use airgap_mirror.Publisher.{
  Outside, epoch_and_source, and_then, publish_ready, publish_all, list_publish_units, mark_unit,
  publish_units, unexpected, sort, list_publish_metadata, publish_entries, publish_unit,
}
use airgap_mirror.Importer.{
  complete_batch, missing_pack, to_imported, import_batch, to_importing, get_then, put_session,
  put_then, finish_batch, to_publishable, to_published, end_epoch,
}
use airgap_mirror.Importer.Completes.{Completed, complete_batch-Completed}
use airgap_mirror.Importer.Packs.{
  commit_pack, import_uploaded, ready_to_import, pack_open, import_opened, other_header,
  walk_manifest, walk_pack, walk, record_entry, deletes, install, put_entry, commit_record,
  mismatch, is_eof, close_pack,
}
use airgap_mirror.Importer.Again.{PackImported, commit_pack_repeats}
use airgap_mirror.Examples.Bundles.{after, bundle, import_pack, session, spec, unit}
use airgap_mirror.Examples.Packs.{a_b, entry, ids}
use airgap_mirror.Examples.Sites.{outside}
use airgap_mirror.Examples.Sites

abbrev ready : Database
ready = record after {
  batches = record (bundle_batch bundle) { status = BatchStatus.importing } ∷ [];
  store = record {
    sessions = record session { status = SessionStatus.importing } ∷ [];
    import_packs = record import_pack { status = PackStatus.imported } ∷ [];
    packs = record (bundle_pack bundle spec) { status = PackStatus.imported } ∷ [];
  };
  imports = record after.imports { units = unit ∷ []; has_operation = true };
}

abbrev site : Site
site = record { db = ready; files = λ path. none }

completes :
    complete_batch outside 9 (105 ∷ []) site ≡ (none, (complete_batch outside 9 (105 ∷ []) site).1)
unfolding complete_batch get_then found get_import_session find beq session_eq import_batch affects
    missing_pack bundle_pack pack_eq get_batch is_batch bundle_batch to_importing batch_eq
    to_imported put_then transition_batch ◌>>=◌ ◌>>◌ pass validate_batch_transition
    can_transition_batch put_session update_import_session and_then publish_ready epoch_and_source
    get_epoch is_epoch bundle_epoch get_source is_source publish_units list_publish_units sort rows
    publish_unit is_published unexpected publish_entries list_publish_metadata check publish_all
    mark_unit mark_published is_unit finish_batch count_imported_batches count modify imported_of
    count_published_units published_of to_publishable epoch_eq transition_epoch
    validate_epoch_transition can_transition_epoch to_published end_epoch stats sum_sizes
    complete_epoch activate initial_state
completes = refl

complete_batch-Completed_example :
    (v : ImportSession) × (get_import_session (105 ∷ []) ready.store ≡ some v)
    × Completed v.epoch_id (complete_batch outside 9 (105 ∷ []) site).1
complete_batch-Completed_example =
    complete_batch-Completed outside 9 (105 ∷ []) site (complete_batch outside 9 (105 ∷ []) site).1
      completes

-- The artifact of the entry in the manifest; each SHA-256 is the same here.
abbrev pub artifact : Artifact
artifact = record {
  id = [];
  epoch_id = uuid_string ids.epoch;
  source_id = 115 ∷ [];
  logical_path = a_b;
  size = 3;
  sha256 = hex_encode (replicate 32 171);
  upstream_url = [];
  upstream_integrity = [];
  local_source_path = [];
  operation = ArtifactOperation.add;
  publish_unit_id = 117 ∷ [];
  package_key = [];
  version = [];
  metadata = false;
  attributes = [];
}

abbrev pub row : ManifestEntry
row = record {
  entry_id = uuid_string entry.id;
  artifact = artifact;
  pack_id = uuid_string ids.pack;
  pack_offset = 128;
  record_length = 86;
}

abbrev with_manifest : Outside
with_manifest = record outside {
  sha256 = λ c. replicate 32 171;
  manifest = λ path. some (row ∷ []);
}

abbrev uploaded : Site
uploaded = record {
  db = record after {
    sources = Sites.source ∷ [];
    epochs = record (bundle_epoch bundle) { id = uuid_string ids.epoch } ∷ [];
    batches = record (bundle_batch bundle) { id = uuid_string ids.batch } ∷ [];
    store = record {
      sessions =
          record session {
            epoch_id = uuid_string ids.epoch;
            batch_id = uuid_string ids.batch;
            status = SessionStatus.manifest_ready;
          }
          ∷ [];
      import_packs =
          record import_pack {
            pack_id = uuid_string ids.pack;
            expected_size = 214;
            expected_sha256 = hex_encode (replicate 32 171);
            uploaded_size = 214;
            staging_path = 120 ∷ [];
            status = PackStatus.uploaded;
          }
          ∷ [];
      packs = record (bundle_pack bundle spec) { id = uuid_string ids.pack } ∷ [];
    };
    imports = record after.imports {
      units =
          record unit {
            epoch_id = uuid_string ids.epoch;
            status = PublishUnitStatus.waiting;
            required = 2;
            imported = 0;
          }
          ∷ [];
      has_operation = true;
    };
  };
  files = λ path. if beq path (120 ∷ []) then some (pack_file ids 5 (entry ∷ [])) else none;
}

commits :
    commit_pack with_manifest 9 (105 ∷ []) (uuid_string ids.pack) uploaded
    ≡ (none, (commit_pack with_manifest 9 (105 ∷ []) (uuid_string ids.pack) uploaded).1)
unfolding commit_pack get_then found get_import_session find beq get_import_pack uuid_string
    hex_encode pack_eq ready_to_import session_eq import_uploaded verify_uploaded_pack pack_file
    header_bytes put16 le_bytes put32 put64 encode_all encode record_bytes get_pack is_pack
    get_source is_source pack_open new_reader read_full from_le import_opened other_header get_batch
    is_batch batch_eq bundle_batch put_then transition_batch ◌>>=◌ ◌>>◌ pass
    validate_batch_transition can_transition_batch walk_manifest put_session update_import_session
    affects walk walk_pack sort rows next validate_logical_path clean and_then commit_record
    mismatch add64 deletes record_entry put_entry install safe_target check write_verified
    reject_symlink_parents write_checked limit_reader lt64 commit_imported_entry bundle_pack is_eof
    close_pack mark_import_pack_committed publish_ready epoch_and_source get_epoch is_epoch
    bundle_epoch publish_units list_publish_units modify publish_unit is_published
commits = refl

commit_pack_repeats_example :
    PackImported
      (105 ∷ [])
      (uuid_string ids.pack)
      (commit_pack with_manifest 9 (105 ∷ []) (uuid_string ids.pack) uploaded).1.db.store
    × ((o : Outside) (later : ℕ)
        → commit_pack o later
            (105 ∷ [])
            (uuid_string ids.pack)
            (commit_pack with_manifest 9 (105 ∷ []) (uuid_string ids.pack) uploaded).1
          ≡ (none, (commit_pack with_manifest 9 (105 ∷ []) (uuid_string ids.pack) uploaded).1))
commit_pack_repeats_example =
    commit_pack_repeats with_manifest 9 (105 ∷ []) (uuid_string ids.pack) uploaded
      (commit_pack with_manifest 9 (105 ∷ []) (uuid_string ids.pack) uploaded).1 commits
