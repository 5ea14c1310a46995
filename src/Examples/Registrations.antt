-- ===== src/Examples/Registrations.antt =====
-- A bundle of one pack that is registered on disks with enough room.
use airgap_mirror.Store.{get_import_session_by_request, is_import_pack}
use airgap_mirror.Database.Epochs.{
  epoch_open, is_batch, is_epoch, is_pack, same_place, same_slot, second_open, with_packs,
}
use airgap_mirror.Database.Manifest.{or_other}
use airgap_mirror.Prelude.Tables.{affects, find, modify}
use airgap_mirror.Prelude.Int64.{add64, le64, lt64}
use airgap_mirror.Pack.Clean.{clean, clean_segments, join, split}
use airgap_mirror.Site.{join_path}
use airgap_mirror.Prelude.{◌≡◌, refl, true, some, [], ◌∷◌, replicate, arith, beq}
use airgap_mirror.Prelude.Texts.{codes}
use airgap_mirror.Domain.Status.{Text, PackStatus}
use airgap_mirror.Domain.Types.{BatchDescriptor, PackSpec, ImportSession, Source, cursor_equal}
use airgap_mirror.Domain.Result.{ok, check, found, ◌>>◌, ◌>>=◌}
use airgap_mirror.Database.{Database}
use airgap_mirror.Database.Sources.{
  get_source, initial_state, state_of, busy, is_active, is_source, epoch_blocked, active_job,
}
use airgap_mirror.Database.Register.{
  activate, bundle_batch, bundle_epoch, bundle_pack, session_row, bad_descriptor, pack_differs,
  open_session, register_packs, register_import_bundle, register_epoch, same_batch, register_batch,
  other_bundle, insert_packs, register_session, same_epoch,
}
use airgap_mirror.Registrar.{
  register, new_session, new_import_packs, needed, largest_pack, check_capacity,
}
use airgap_mirror.Registrar.Room.{HasRoom, register-HasRoom}
use airgap_mirror.Examples.Maintenance.{source}
use airgap_mirror.Examples.Bundles

abbrev spec : PackSpec
spec = record Bundles.spec { sha256 = replicate 64 97 }

abbrev bundle : BatchDescriptor
bundle = record Bundles.bundle { manifest_sha256 = replicate 64 97; packs = spec ∷ [] }

abbrev staging : Text
staging = codes "/s"

abbrev session : ImportSession
session = new_session staging (105 ∷ []) (114 ∷ []) 3 bundle

abbrev after : Database
after = record Bundles.before {
  states = activate (101 ∷ []) 3 (initial_state source) ∷ [];
  epochs = bundle_epoch bundle ∷ [];
  batches = bundle_batch bundle ∷ [];
  store = record {
    sessions = session_row bundle session ∷ [];
    import_packs = new_import_packs staging (105 ∷ []) (spec ∷ []);
    packs = bundle_pack bundle spec ∷ [];
  };
}

registered :
    register true
      (some (λ path. some 12))
      staging
      (some (105 ∷ []))
      3
      (114 ∷ [])
      bundle
      Bundles.before
    ≡ ok (session_row bundle session, after)
unfolding register ◌>>◌ ◌>>=◌ check beq lt64 largest_pack affects get_source found find is_source
    check_capacity or_other needed add64 register_import_bundle bad_descriptor epoch_open is_batch
    is_epoch is_pack same_place same_slot second_open with_packs activate bundle_batch bundle_epoch
    bundle_pack insert_packs open_session other_bundle pack_differs register_batch register_epoch
    register_packs register_session same_batch same_epoch session_row active_job busy epoch_blocked
    is_active state_of cursor_equal clean clean_segments join split le64 modify new_import_packs
    new_session join_path get_import_session_by_request is_import_pack initial_state
registered = refl

register-HasRoom_example :
    (at : Source) × (get_source (115 ∷ []) Bundles.before ≡ ok at)
    × HasRoom (λ path. some 12) staging bundle at
register-HasRoom_example =
    register-HasRoom (λ path. some 12) staging bundle true (some (105 ∷ [])) 3 (114 ∷ [])
      Bundles.before (session_row bundle session, after) (omega arith) (omega arith)
      (omega arith, tt) registered

-- The id of a pack is not tested: a staging path below /s/i can be made to leave it.
escapes :
    new_import_packs staging (105 ∷ []) (record spec { id = codes "../../../x" } ∷ [])
    ≡ record {
      session_id = 105 ∷ [];
      pack_id = codes "../../../x";
      expected_size = 5;
      expected_sha256 = replicate 64 97;
      uploaded_size = 0;
      staging_path = codes "/x.agp";
      status = PackStatus.uploading;
    }
      ∷ []
unfolding new_import_packs join_path clean beq
escapes = refl
