-- ===== src/Planner/Totals.antt =====
-- What the calls of Plan of internal/service/planner.go add up to, and the sizes that they keep to.
use airgap_mirror.Prelude.{ℕ, suc, ◌+◌, ◌≤◌, ◌<◌, ◌≡◌, ◌⊎◌, List, [], ◌∷◌, Option, none, some}
use airgap_mirror.Domain.Types.{Artifact, Batch, Pack}
use airgap_mirror.Planner.{Call, Plan}

-- The bytes of the batches that were written back.
unfoldable pub written_bytes : List Call → ℕ
written_bytes [] = 0
written_bytes (Call.update_batch b ∷ cs) = b.planned_bytes + written_bytes cs
written_bytes (_ ∷ cs) = written_bytes cs

unfoldable pub written_objects : List Call → ℕ
written_objects [] = 0
written_objects (Call.update_batch b ∷ cs) = b.object_count + written_objects cs
written_objects (_ ∷ cs) = written_objects cs

unfoldable pub written_size : List Call → ℕ
written_size [] = 0
written_size (Call.update_pack k ∷ cs) = k.size + written_size cs
written_size (_ ∷ cs) = written_size cs

unfoldable pub written_entries : List Call → ℕ
written_entries [] = 0
written_entries (Call.update_pack k ∷ cs) = k.entry_count + written_entries cs
written_entries (_ ∷ cs) = written_entries cs

-- The artifacts that were assigned, the last one first.
unfoldable pub assigned_artifacts : List Call → List Artifact
assigned_artifacts [] = []
assigned_artifacts (Call.assign_artifact a _ _ ∷ cs) = a ∷ assigned_artifacts cs
assigned_artifacts (_ ∷ cs) = assigned_artifacts cs

unfoldable pub created_batches : List Call → ℕ
created_batches [] = 0
created_batches (Call.create_batch _ ∷ cs) = suc (created_batches cs)
created_batches (_ ∷ cs) = created_batches cs

-- A batch keeps to the limit, or holds a single object.
abbrev pub FitBatch : ℕ → Batch → Type 0
FitBatch max b = (b.planned_bytes ≤ max) ⊎ (b.object_count ≡ 1)

abbrev pub FitPack : ℕ → Pack → Type 0
FitPack target k = (k.size ≤ target) ⊎ (k.entry_count ≡ 1)

-- Every batch and every pack that was written back keeps to its limit.
unfoldable pub Fit : ℕ → ℕ → List Call → Type 0
Fit max target [] = Unit
Fit max target (Call.update_batch b ∷ cs) = FitBatch max b × Fit max target cs
Fit max target (Call.update_pack k ∷ cs) = FitPack target k × Fit max target cs
Fit max target (_ ∷ cs) = Fit max target cs

abbrev pub open_bytes : Option Batch → ℕ
open_bytes none = 0
open_bytes (some b) = b.planned_bytes

abbrev pub open_objects : Option Batch → ℕ
open_objects none = 0
open_objects (some b) = b.object_count

abbrev pub open_size : Option Pack → ℕ
open_size none = 0
open_size (some k) = k.size

abbrev pub open_entries : Option Pack → ℕ
open_entries none = 0
open_entries (some k) = k.entry_count

-- An open batch holds something and keeps to the limit.
abbrev pub OpenBatch : ℕ → Option Batch → Type 0
OpenBatch max none = Unit
OpenBatch max (some b) = (0 < b.planned_bytes) × FitBatch max b

abbrev pub OpenPack : ℕ → Option Pack → Type 0
OpenPack target none = Unit
OpenPack target (some k) = (0 < k.size) × FitPack target k

-- Room for `n` more bytes: nothing is there, or they keep to the limit.
abbrev pub RoomBatch : ℕ → ℕ → Option Batch → Type 0
RoomBatch max n none = ⊥
RoomBatch max n (some b) =
    ((b.planned_bytes ≡ 0) × (b.object_count ≡ 0)) ⊎ (b.planned_bytes + n ≤ max)

abbrev pub RoomPack : ℕ → ℕ → Option Pack → Type 0
RoomPack target n none = ⊥
RoomPack target n (some k) = ((k.size ≡ 0) × (k.entry_count ≡ 0)) ⊎ (k.size + n ≤ target)

-- `total` bytes and `count` objects have been planned so far, of the artifacts `done`. A pack is open only in a batch.
pub record Planned (max target total count : ℕ) (done : List Artifact) (B : Option Batch → Type 0)
    (K : Option Pack → Type 0) (s : Plan) : Type 0 where
  pub bytes : written_bytes s.calls + open_bytes s.batch ≡ total
  pub objects : written_objects s.calls + open_objects s.batch ≡ count
  pub size : written_size s.calls + open_size s.pack ≡ total
  pub entries : written_entries s.calls + open_entries s.pack ≡ count
  pub fit : Fit max target s.calls
  pub open_batch : B s.batch
  pub open_pack : K s.pack
  pub assigned : assigned_artifacts s.calls ≡ done
  pub numbered : created_batches s.calls ≡ s.bs
  pub inside : s.batch ≡ none → s.pack ≡ none

abbrev pub plan_of : Option Batch → Option Pack → ℕ → ℕ → ℕ → List Call → Plan
plan_of b k bs ps f cs = record { batch = b; pack = k; bs = bs; ps = ps; fresh = f; calls = cs }
