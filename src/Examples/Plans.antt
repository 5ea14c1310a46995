-- ===== src/Examples/Plans.antt =====
-- A plan of two artifacts that fit into no common batch.
use airgap_mirror.Prelude.{List, ℕ, ◌≡◌, false, none, [], ◌∷◌, arith, replicate}
use airgap_mirror.Domain.Status.{Text, EpochStatus, ArtifactOperation}
use airgap_mirror.Domain.Types.{Epoch, Artifact}
use airgap_mirror.Planner.{Row, Plan, place_pages}
use mathlib.Core.List.{reverse_aux}
use airgap_mirror.Planner.Totals.{assigned_artifacts}
use airgap_mirror.Planner.Pages.{Ascends}
use airgap_mirror.Planner.Assigned.{before_bad, refusal, place_pages-assigned}

abbrev epoch : Epoch
epoch = record {
  id = [];
  source_id = [];
  base_cursor = record { kind = []; value = [] };
  target_cursor = record { kind = []; value = [] };
  status = EpochStatus.planned;
  total_bytes = 0;
  total_objects = 0;
  total_batches = 0;
  publish_unit_count = 0;
  created_at = 0;
  completed_at = none;
  error_text = [];
}

abbrev artifact : ℕ → Artifact
artifact size = record {
  id = size ∷ [];
  epoch_id = [];
  source_id = [];
  logical_path = 97 ∷ [];
  size = size;
  sha256 = [];
  upstream_url = [];
  upstream_integrity = [];
  local_source_path = [];
  operation = ArtifactOperation.add;
  publish_unit_id = [];
  package_key = [];
  version = [];
  metadata = false;
  attributes = [];
}

abbrev rows : List Row
rows = (4, artifact 30) ∷ (7, artifact 200) ∷ []

-- The ids are n, n, n for the n-th call of NewID.
abbrev new_ids : ℕ → Text
new_ids n = replicate 3 n

abbrev before : Plan
before = record { batch = none; pack = none; bs = 0; ps = 0; fresh = 0; calls = [] }

-- The deletion of an artifact that is no metadata.
abbrev bad : Artifact
bad = record (artifact 0) { operation = ArtifactOperation.delete }

place_pages-assigned_example :
    ((place_pages 150 120 9 new_ids epoch 4 1
        ((4, artifact 30) ∷ (7, bad) ∷ (9, artifact 200) ∷ [])
        0
        before).0
      ≡ refusal (artifact 30 ∷ bad ∷ artifact 200 ∷ []))
    × (assigned_artifacts
          (place_pages 150 120 9 new_ids epoch 4 1
            ((4, artifact 30) ∷ (7, bad) ∷ (9, artifact 200) ∷ [])
            0
            before).1.calls
        ≡ reverse_aux (before_bad (artifact 30 ∷ bad ∷ artifact 200 ∷ [])) [])
unfolding Ascends assigned_artifacts
place_pages-assigned_example =
    place_pages-assigned 150 120 9 new_ids epoch 1
      ((4, artifact 30) ∷ (7, bad) ∷ (9, artifact 200) ∷ []) 0 before (omega arith)
      (omega arith, (omega arith, (omega arith, tt)))
