-- ===== src/Examples/Imports.antt =====
-- An entry that is imported twice.
use airgap_mirror.Prelude.Int64.{lt64}
use airgap_mirror.Prelude.{◌≡◌, refl, true, false, none, [], ◌∷◌, All, arith, beq}
use airgap_mirror.Prelude.Tables.{find, affects}
use airgap_mirror.Domain.Status.{ArtifactOperation, PublishUnitStatus}
use airgap_mirror.Domain.Types.{Artifact, ManifestEntry, CatalogEntry, PublishUnit, Source}
use airgap_mirror.Store.Commit.{Imports, commit_imported_entry}
use airgap_mirror.Store.Commit.Repeats.{WithinRequired, commit_repeats, commit-WithinRequired}
use airgap_mirror.Examples.Maintenance

abbrev artifact : Artifact
artifact = record {
  id = 1 ∷ [];
  epoch_id = 2 ∷ [];
  source_id = [];
  logical_path = 97 ∷ [];
  size = 3;
  sha256 = [];
  upstream_url = [];
  upstream_integrity = [];
  local_source_path = [];
  operation = ArtifactOperation.add;
  publish_unit_id = 3 ∷ [];
  package_key = [];
  version = [];
  metadata = false;
  attributes = [];
}

abbrev entry : ManifestEntry
entry = record {
  entry_id = 1 ∷ [];
  artifact = artifact;
  pack_id = [];
  pack_offset = 128;
  record_length = 84;
}

abbrev in_catalog : CatalogEntry
in_catalog = record {
  source_id = [];
  logical_path = 97 ∷ [];
  size = 3;
  sha256 = [];
  package_key = [];
  version = [];
  attributes = [];
  updated_at = 5;
}

abbrev unit : PublishUnit
unit = record {
  id = 3 ∷ [];
  epoch_id = 2 ∷ [];
  source_id = [];
  key = [];
  status = PublishUnitStatus.waiting;
  required = 1;
  imported = 0;
  metadata_path = [];
  published_at = none;
}

abbrev source : Source
source = record Maintenance.source { id = [] }

abbrev before : Imports
before = record {
  entries = [];
  metadata = [];
  catalog = [];
  units = unit ∷ [];
  has_operation = false;
}

abbrev after : Imports
after = (commit_imported_entry true (source ∷ []) 5 entry in_catalog [] before).1

first-imported :
    commit_imported_entry true (source ∷ []) 5 entry in_catalog [] before ≡ ((true, none), after)
unfolding commit_imported_entry find affects beq lt64
first-imported = refl

commit_repeats_example :
    commit_imported_entry true (source ∷ []) 6 entry in_catalog [] after ≡ ((false, none), after)
commit_repeats_example =
    commit_repeats true true (source ∷ []) (source ∷ []) 5 6 entry in_catalog in_catalog [] []
      before after first-imported

commit-WithinRequired_example :
    All WithinRequired
      (commit_imported_entry true (source ∷ []) 5 entry in_catalog [] before).1.units
commit-WithinRequired_example =
    commit-WithinRequired true (source ∷ []) 5 entry in_catalog [] before (omega arith, tt)
