-- ===== src/Examples/Bundles.antt =====
-- A bundle of one batch that is registered twice, and an epoch of one batch and one unit that completes.
use airgap_mirror.Store.{get_import_session_by_request, is_import_pack}
use airgap_mirror.Prelude.Int64.{le64, lt64}
use airgap_mirror.Prelude.{◌≡◌, ◌≤◌, refl, true, none, some, [], ◌∷◌, arith, beq}
use airgap_mirror.Prelude.Tables.{count, affects, modify, find}
use airgap_mirror.Domain.Status.{
  Text, EpochStatus, BatchStatus, PackStatus, PublishUnitStatus, SessionStatus, batch_eq, epoch_eq,
}
use airgap_mirror.Domain.Types.{
  PublishUnit, BatchDescriptor, PackSpec, ImportSession, ImportPack, CatalogStats, cursor_equal,
}
use airgap_mirror.Domain.Result.{ok, ◌>>=◌, found, check, ◌>>◌}
use airgap_mirror.Database.{Database}
use airgap_mirror.Database.Sources.{
  initial_state, state_of, busy, is_active, is_source, active_job, epoch_blocked,
}
use airgap_mirror.Database.Epochs.{
  complete_epoch, count_imported_batches, is_epoch, published_of, count_published_units,
  holds_epoch, imported_of, is_published, advance, is_pack, same_place, same_slot, with_packs,
  finish_epoch, epoch_open, is_batch, second_open,
}
use airgap_mirror.Database.Completion.{Advanced, complete_epoch-Advanced}
use airgap_mirror.Database.Units.{mark_published, is_unit}
use airgap_mirror.Database.Units.Full.{UnitCalls, UnitCall, PublishedFull, calls-PublishedFull}
use airgap_mirror.Database.Register.{
  register_import_bundle, session_row, bundle_epoch, bundle_batch, bundle_pack, activate,
  same_epoch, other_bundle, insert_packs, same_batch, pack_differs, bad_descriptor, register_packs,
  register_session, register_batch, open_session, register_epoch,
}
use airgap_mirror.Database.Register.Repeats.{register_repeats}
use airgap_mirror.Database.Exclusion.Runs.{empty_database}
use airgap_mirror.Examples.Maintenance.{source}

abbrev pub spec : PackSpec
spec = record { id = 112 ∷ []; sequence = 1; file = []; size = 5; sha256 = []; entry_count = 1 }

abbrev pub bundle : BatchDescriptor
bundle = record {
  schema_version = 1;
  source_id = 115 ∷ [];
  epoch_id = 101 ∷ [];
  batch_id = 98 ∷ [];
  batch_sequence = 1;
  epoch_total_bytes = 5;
  epoch_total_objects = 1;
  epoch_total_batches = 1;
  epoch_publish_unit_count = 1;
  batch_bytes = 5;
  batch_objects = 1;
  base_cursor = record { kind = []; value = [] };
  target_cursor = record { kind = []; value = 49 ∷ [] };
  manifest_sha256 = [];
  manifest_size = 7;
  packs = spec ∷ [];
  created_at = 2;
}

abbrev pub session : ImportSession
session = record {
  id = 105 ∷ [];
  request_id = 114 ∷ [];
  source_id = 115 ∷ [];
  epoch_id = 101 ∷ [];
  batch_id = 98 ∷ [];
  manifest_path = [];
  manifest_size = 7;
  manifest_sha256 = [];
  manifest_uploaded = 0;
  status = SessionStatus.uploading_manifest;
  staging_path = [];
  created_at = 3;
  updated_at = 3;
  error_text = [];
}

abbrev pub import_pack : ImportPack
import_pack = record {
  session_id = 105 ∷ [];
  pack_id = 112 ∷ [];
  expected_size = 5;
  expected_sha256 = [];
  uploaded_size = 0;
  staging_path = [];
  status = PackStatus.uploading;
}

abbrev pub before : Database
before = record empty_database { sources = source ∷ []; states = initial_state source ∷ [] }

abbrev pub after : Database
after = record before {
  states = activate (101 ∷ []) 3 (initial_state source) ∷ [];
  epochs = bundle_epoch bundle ∷ [];
  batches = bundle_batch bundle ∷ [];
  store = record {
    sessions = session_row bundle session ∷ [];
    import_packs = import_pack ∷ [];
    packs = bundle_pack bundle spec ∷ [];
  };
}

registered :
    register_import_bundle true bundle session (import_pack ∷ []) before ≡ ok (session, after)
unfolding register_import_bundle ◌>>◌ ◌>>=◌ check bad_descriptor beq le64 lt64 found find state_of
    initial_state cursor_equal busy register_epoch second_open affects is_source epoch_open is_batch
    is_epoch is_pack same_place same_slot with_packs activate bundle_batch bundle_epoch bundle_pack
    insert_packs open_session other_bundle pack_differs register_batch register_packs
    register_session same_batch same_epoch session_row active_job epoch_blocked is_active modify
    get_import_session_by_request is_import_pack
registered = refl

register_repeats_example :
    register_import_bundle true bundle (record session { id = 106 ∷ [] }) (import_pack ∷ []) after
    ≡ ok (session_row bundle session, after)
register_repeats_example =
    register_repeats true bundle session (record session { id = 106 ∷ [] }) session
      (import_pack ∷ []) (import_pack ∷ []) before after registered refl refl

abbrev pub unit : PublishUnit
unit = record {
  id = 117 ∷ [];
  epoch_id = 101 ∷ [];
  source_id = 115 ∷ [];
  key = [];
  status = PublishUnitStatus.ready;
  required = 1;
  imported = 1;
  metadata_path = [];
  published_at = none;
}

abbrev with_unit : PublishUnit → Database
with_unit u = record after { imports = record after.imports { units = u ∷ [] } }

abbrev marked : PublishUnit
marked = record unit { status = PublishUnitStatus.published; published_at = some 6 }

unit-marked : mark_published (117 ∷ []) 6 (with_unit unit) ≡ ok (with_unit marked)
unfolding mark_published ◌>>◌ ◌>>=◌ check affects is_unit beq modify
unit-marked = refl

calls-PublishedFull_example : PublishedFull (with_unit marked)
unfolding is_published
calls-PublishedFull_example =
    calls-PublishedFull (UnitCalls.next UnitCalls.here (UnitCall.mark (117 ∷ []) 6 unit-marked))
      (refl, tt)

abbrev published : Database
published = record (with_unit marked) {
  epochs = record (bundle_epoch bundle) { status = EpochStatus.published } ∷ [];
  batches = record (bundle_batch bundle) { status = BatchStatus.imported } ∷ [];
}

abbrev totals : CatalogStats
totals = record { source_id = 115 ∷ []; bytes = 3; objects = 1 }

abbrev completed : Database
completed = record published {
  epochs =
      record (bundle_epoch bundle) { status = EpochStatus.complete; completed_at = some 9 } ∷ [];
  states =
      record (initial_state source) {
        live_cursor = record { kind = []; value = 49 ∷ [] };
        catalog_version = 1;
        live_bytes = 3;
        live_objects = 1;
        updated_at = 9;
      }
      ∷ [];
}

one_state : (sid : Text) → count (state_of sid) published.states ≤ 1
unfolding count activate initial_state
one_state sid = ground arith

epoch_completed : complete_epoch (101 ∷ []) totals 9 published ≡ ok completed
unfolding complete_epoch ◌>>=◌ found find is_epoch beq bundle_epoch ◌>>◌ check epoch_eq
    count_imported_batches count imported_of bundle_batch batch_eq count_published_units
    published_of activate advance finish_epoch holds_epoch is_published state_of modify
    initial_state
epoch_completed = refl

complete_epoch-Advanced_example : Advanced (101 ∷ []) totals 9 published completed
complete_epoch-Advanced_example =
    complete_epoch-Advanced (101 ∷ []) totals 9 published completed one_state epoch_completed
