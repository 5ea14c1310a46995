-- ===== src/Examples/Manifests.antt =====
-- A manifest of one unit and one entry that completes the upload of a session's manifest.
use airgap_mirror.Prelude.Int64.{le64, lt64}
use airgap_mirror.Database.Sources.{is_source}
use airgap_mirror.Database.Epochs.{get_batch, get_epoch, is_batch, is_epoch}
use airgap_mirror.Pack.Bytes.{hex_digit, hex_encode}
use airgap_mirror.Database.Register.{bundle_epoch, session_row, bundle_pack, bundle_batch}
use airgap_mirror.Prelude.Tables.{affects, count, find, modify}
use airgap_mirror.Store.{get_import_session}
use airgap_mirror.Prelude.{◌≡◌, refl, true, none, some, [], ◌∷◌, replicate, beq}
use airgap_mirror.Prelude.Texts.{codes, to_lower}
use airgap_mirror.Domain.Status.{ArtifactOperation}
use airgap_mirror.Domain.Result.{ok, ◌>>◌, found, ◌>>=◌, check}
use airgap_mirror.Database.{Database}
use airgap_mirror.Database.Units.{declared_unit, is_unit, same_key}
use airgap_mirror.Database.Manifest.{
  Incoming, UnitRow, EntryRow, complete_manifest, manifest_ready, meta_value, takes_key,
  unequal_number, adds, less, too_few, unit_of, is_text, key_taken, declares_other, pack_of,
  in_pack, miscounted, inserted_row, at_path, bad_unit, unknown_operation, is_new,
  register_manifest, of_unit, repeated_path, sql_length, sql_delete, at_most, sql_lower, no_pack,
  no_unit, redeclared, or_other, insert_unit, check_manifest, bad_entry, wrong_length, unequal,
  insert_units,
}
use airgap_mirror.Database.Manifest.Accepted.{Accepted}
use airgap_mirror.Transfer.{Files, file_sha256}
use airgap_mirror.Examples.Bundles.{after, session, unit}

abbrev unit_row : UnitRow
unit_row = record {
  id = unit.id;
  epoch_id = some unit.epoch_id;
  source_id = some unit.source_id;
  key = some unit.key;
  required = some unit.required;
  metadata_path = some unit.metadata_path;
}

abbrev row : EntryRow
row = record {
  pack_id = some (112 ∷ []);
  pack_offset = some 128;
  record_length = some 86;
  source_id = some (115 ∷ []);
  epoch_id = some (101 ∷ []);
  logical_path = some (97 ∷ []);
  size = some 3;
  sha256 = some (replicate 64 97);
  operation = some ArtifactOperation.add;
  publish_unit_id = some (117 ∷ []);
  metadata = some 0;
}

abbrev manifest : Incoming
manifest = record {
  meta =
      (codes "source_id", some (115 ∷ []))
      ∷ (codes "epoch_id", some (101 ∷ []))
      ∷ (codes "batch_id", some (98 ∷ []))
      ∷ (codes "schema_version", some (codes "1"))
      ∷ [];
  units = unit_row ∷ [];
  entries = row ∷ [];
}

abbrev files : Files
files path = some (replicate 7 1)

abbrev ready : Database
ready = record after {
  imports = record after.imports { units = declared_unit unit ∷ [] };
  store = record after.store { sessions = manifest_ready 9 session ∷ [] };
}

-- A unit whose epoch is NULL passes the checks and is then ignored, so that the epoch is left without
-- the unit that it counts.
ignores_null :
    complete_manifest
      (λ c. [])
      files
      true
      (λ path. some (record manifest { units = record unit_row { epoch_id = none } ∷ [] }))
      9
      (105 ∷ [])
      after
    ≡ ok (record ready { imports = after.imports })
unfolding complete_manifest ◌>>=◌ found get_import_session find beq session_row or_other file_sha256
    ◌>>◌ check hex_encode register_manifest get_epoch is_epoch bundle_epoch check_manifest
    meta_value get_batch is_batch adds at_most at_path bad_entry bad_unit declares_other in_pack
    insert_unit insert_units inserted_row is_new is_text key_taken less manifest_ready miscounted
    no_pack no_unit of_unit pack_of redeclared repeated_path sql_delete sql_length sql_lower
    takes_key too_few unequal unequal_number unit_of unknown_operation wrong_length is_source
    is_unit same_key hex_digit le64 lt64 affects count modify to_lower bundle_batch bundle_pack
ignores_null = refl
