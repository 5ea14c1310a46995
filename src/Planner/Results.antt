-- ===== src/Planner/Results.antt =====
-- What Plan of internal/service/planner.go does with the artifacts of an epoch.
use airgap_mirror.Prelude.{ℕ, ◌+◌, ◌<◌, ◌≡◌, false, List, [], ◌∷◌, none, length}
use mathlib.Core.List.{reverse}
use airgap_mirror.Prelude.Int64.{two63}
use airgap_mirror.Domain.Status.{Text}
use airgap_mirror.Domain.Types.{Epoch, Artifact}
use airgap_mirror.Planner.{Call, Plan, planned_size, bad_tombstone}
use airgap_mirror.Planner.Totals.{
  written_bytes, written_objects, written_size, written_entries, Fit, assigned_artifacts,
  created_batches,
}

unfoldable pub total_planned : List Artifact → ℕ
total_planned [] = 0
total_planned (a ∷ rest) = planned_size a + total_planned rest

-- An artifact that Plan does not refuse, with a size that is no overflow.
abbrev pub IsPlannable : Artifact → Type 0
IsPlannable a = (bad_tombstone a ≡ false) × (0 < planned_size a)

-- What all the calls of BatchPlanner.Plan come to.
pub record Complete (max target : ℕ) (artifacts : List Artifact) (e : Epoch) (cs : List Call)
    : Type 0 where
  pub bytes : written_bytes cs ≡ total_planned artifacts
  pub objects : written_objects cs ≡ length artifacts
  pub size : written_size cs ≡ total_planned artifacts
  pub entries : written_entries cs ≡ length artifacts
  pub fit : Fit max target cs
  pub assigned : assigned_artifacts cs ≡ reverse artifacts
  pub batches : created_batches cs ≡ e.total_batches
  pub some_batch : 0 < e.total_batches

module _ (max target now : ℕ) (ids : ℕ → Text) (e : Epoch) (max_63 : max < two63)
    (target_63 : target < two63) where
  abbrev pub nothing : Plan
  nothing = record { batch = none; pack = none; bs = 0; ps = 0; fresh = 0; calls = [] }
