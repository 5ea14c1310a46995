-- ===== src/Domain/Lifecycle.antt =====
-- What the transition rules of internal/domain/transitions.go and internal/domain/maintenance.go
-- allow over whole runs.
use mathlib.Core.List.{Memᴰ}
use mathlib.Core.Path.{subst}
use airgap_mirror.Prelude.{
  ℕ, ◌+◌, ◌≤◌, ◌<◌, ◌≡◌, refl, ◌↔◌, ◌⊎◌, inr, Bool, true, false, none, some, List, [], ◌∷◌, arith,
  length, beq_refl, beq_eq, &&-true,
}
use airgap_mirror.Domain.Path.{accepts, final, visits_rank}
use airgap_mirror.Domain.Status.{
  EpochStatus, BatchStatus, PackStatus, MaintenanceStatus, epoch_eq, batch_eq, pack_eq,
  maintenance_eq,
}
use airgap_mirror.Domain.Transitions.{
  can_transition_epoch, can_transition_batch, can_transition_pack, validate_maintenance_transition,
}

-- The place of a status on the way to COMPLETE; FAILED and CANCELLED are off it.
abbrev epoch_rank : EpochStatus → ℕ
epoch_rank EpochStatus.downloading = 1
epoch_rank EpochStatus.transferring = 2
epoch_rank EpochStatus.publishable = 3
epoch_rank EpochStatus.published = 4
epoch_rank EpochStatus.complete = 5
epoch_rank _ = 0

abbrev batch_rank : BatchStatus → ℕ
batch_rank BatchStatus.downloading = 1
batch_rank BatchStatus.verifying = 2
batch_rank BatchStatus.ready = 3
batch_rank BatchStatus.transferring = 4
batch_rank BatchStatus.importing = 5
batch_rank BatchStatus.imported = 6
batch_rank _ = 0

abbrev pack_rank : PackStatus → ℕ
pack_rank PackStatus.writing = 1
pack_rank PackStatus.ready = 2
pack_rank PackStatus.uploading = 3
pack_rank PackStatus.uploaded = 4
pack_rank PackStatus.importing = 5
pack_rank PackStatus.imported = 6
pack_rank _ = 0

epoch_rank-le : (s : EpochStatus) → epoch_rank s ≤ 5
epoch_rank-le EpochStatus.planned = omega arith
epoch_rank-le _ = omega arith

batch_rank-le : (s : BatchStatus) → batch_rank s ≤ 6
batch_rank-le BatchStatus.planned = omega arith
batch_rank-le _ = omega arith

pack_rank-le : (s : PackStatus) → pack_rank s ≤ 6
pack_rank-le PackStatus.planned = omega arith
pack_rank-le _ = omega arith

epoch_slow : (a b : EpochStatus) → can_transition_epoch a b ≡ true → epoch_rank b ≤ epoch_rank a + 1
unfolding can_transition_epoch epoch_eq
epoch_slow EpochStatus.planned b h = ground arith
epoch_slow _ b h = ground arith

batch_slow : (a b : BatchStatus) → can_transition_batch a b ≡ true → batch_rank b ≤ batch_rank a + 1
unfolding can_transition_batch batch_eq
batch_slow BatchStatus.planned b h = ground arith
batch_slow _ b h = ground arith

pack_slow : (a b : PackStatus) → can_transition_pack a b ≡ true → pack_rank b ≤ pack_rank a + 1
unfolding can_transition_pack pack_eq
pack_slow PackStatus.planned b h = ground arith
pack_slow _ b h = ground arith

-- A visit to a rank that only `s` has is a visit to `s`.
visit_of_rank :
    {S : Type 0} (rank : S → ℕ) (s : S) (run : List S)
    → ((t : S) → rank t ≡ rank s → t ≡ s)
    → (t : S) × Memᴰ t run × (rank t ≡ rank s)
    → Memᴰ s run
visit_of_rank rank s run unique (t, m, e) = subst (λ x. Memᴰ x run) (unique t e) m

only_epoch : (s t : EpochStatus) → 1 ≤ epoch_rank s → epoch_rank t ≡ epoch_rank s → t ≡ s
only_epoch EpochStatus.planned t h e = absurd (omega arith)
only_epoch s t h e = ground arith

only_batch : (s t : BatchStatus) → 1 ≤ batch_rank s → batch_rank t ≡ batch_rank s → t ≡ s
only_batch BatchStatus.planned t h e = absurd (omega arith)
only_batch s t h e = ground arith

only_pack : (s t : PackStatus) → 1 ≤ pack_rank s → pack_rank t ≡ pack_rank s → t ≡ s
only_pack PackStatus.planned t h e = absurd (omega arith)
only_pack s t h e = ground arith

-- Every run of accepted epoch transitions from PLANNED to COMPLETE visits each status on the way
-- that has a rank from 1 to 5: DOWNLOADING, TRANSFERRING, PUBLISHABLE, PUBLISHED and COMPLETE.
pub complete_visits_all :
    (run : List EpochStatus)
    → accepts can_transition_epoch EpochStatus.planned run ≡ true
    → final EpochStatus.planned run ≡ EpochStatus.complete
    → (s : EpochStatus) → 1 ≤ epoch_rank s
    → Memᴰ s run
complete_visits_all run ok end s h =
    visit_of_rank epoch_rank s run (λ t e. only_epoch s t h e)
      (visits_rank can_transition_epoch epoch_rank epoch_slow (epoch_rank s) EpochStatus.planned run
        ok (omega arith) (rw end (epoch_rank-le s)))

-- Every run of accepted batch transitions from PLANNED to IMPORTED visits DOWNLOADING, VERIFYING,
-- READY, TRANSFERRING, IMPORTING and IMPORTED, the statuses of rank 1 to 6.
pub imported_visits_all :
    (run : List BatchStatus)
    → accepts can_transition_batch BatchStatus.planned run ≡ true
    → final BatchStatus.planned run ≡ BatchStatus.imported
    → (s : BatchStatus) → 1 ≤ batch_rank s
    → Memᴰ s run
imported_visits_all run ok end s h =
    visit_of_rank batch_rank s run (λ t e. only_batch s t h e)
      (visits_rank can_transition_batch batch_rank batch_slow (batch_rank s) BatchStatus.planned run
        ok (omega arith) (rw end (batch_rank-le s)))

-- Every run of accepted pack transitions from PLANNED to IMPORTED visits WRITING, READY, UPLOADING,
-- UPLOADED, IMPORTING and IMPORTED, the statuses of rank 1 to 6.
pub pack_visits_all :
    (run : List PackStatus)
    → accepts can_transition_pack PackStatus.planned run ≡ true
    → final PackStatus.planned run ≡ PackStatus.imported
    → (s : PackStatus) → 1 ≤ pack_rank s
    → Memᴰ s run
pack_visits_all run ok end s h =
    visit_of_rank pack_rank s run (λ t e. only_pack s t h e)
      (visits_rank can_transition_pack pack_rank pack_slow (pack_rank s) PackStatus.planned run ok
        (omega arith) (rw end (pack_rank-le s)))

epoch_end :
    (to : EpochStatus)
    → (can_transition_epoch EpochStatus.complete to ≡ true)
      ↔ ((to ≡ EpochStatus.complete) ⊎ (to ≡ EpochStatus.other []))
unfolding can_transition_epoch epoch_eq
epoch_end EpochStatus.planned = (λ h. cc, λ h. ground arith)
epoch_end (EpochStatus.other []) = (λ h. inr refl, λ h. beq_refl [])
epoch_end (EpochStatus.other (c ∷ t)) = (λ h. ground (arith, beq_eq [] (c ∷ t)), λ h. ground arith)
epoch_end _ = (λ h. ground arith, λ h. ground arith)

batch_end :
    (to : BatchStatus)
    → (can_transition_batch BatchStatus.imported to ≡ true)
      ↔ ((to ≡ BatchStatus.imported) ⊎ (to ≡ BatchStatus.other []))
unfolding can_transition_batch batch_eq
batch_end BatchStatus.planned = (λ h. cc, λ h. ground arith)
batch_end (BatchStatus.other []) = (λ h. inr refl, λ h. beq_refl [])
batch_end (BatchStatus.other (c ∷ t)) = (λ h. ground (arith, beq_eq [] (c ∷ t)), λ h. ground arith)
batch_end _ = (λ h. ground arith, λ h. ground arith)

pack_end :
    (to : PackStatus)
    → (can_transition_pack PackStatus.imported to ≡ true)
      ↔ ((to ≡ PackStatus.imported) ⊎ (to ≡ PackStatus.other []))
unfolding can_transition_pack pack_eq
pack_end PackStatus.planned = (λ h. cc, λ h. ground arith)
pack_end (PackStatus.other []) = (λ h. inr refl, λ h. beq_refl [])
pack_end (PackStatus.other (c ∷ t)) = (λ h. ground (arith, beq_eq [] (c ∷ t)), λ h. ground arith)
pack_end _ = (λ h. ground arith, λ h. ground arith)

-- From COMPLETE an epoch, from IMPORTED a batch or a pack, is let only to itself or to the empty
-- text, which is no declared status; and those two are let.
pub end_states :
    ((to : EpochStatus)
      → (can_transition_epoch EpochStatus.complete to ≡ true)
        ↔ ((to ≡ EpochStatus.complete) ⊎ (to ≡ EpochStatus.other [])))
    × ((to : BatchStatus)
        → (can_transition_batch BatchStatus.imported to ≡ true)
          ↔ ((to ≡ BatchStatus.imported) ⊎ (to ≡ BatchStatus.other [])))
    × ((to : PackStatus)
        → (can_transition_pack PackStatus.imported to ≡ true)
          ↔ ((to ≡ PackStatus.imported) ⊎ (to ≡ PackStatus.other [])))
end_states = (epoch_end, batch_end, pack_end)

-- How many transitions a maintenance job has before it.
abbrev pub maintenance_left : MaintenanceStatus → ℕ
maintenance_left MaintenanceStatus.queued = 2
maintenance_left MaintenanceStatus.running = 1
maintenance_left _ = 0

abbrev pub maintenance_ok : MaintenanceStatus → MaintenanceStatus → Bool
maintenance_ok from to = elim (validate_maintenance_transition from to) [
  | none ↦ true
  | some _ ↦ false
]

maintenance_step :
    (from to : MaintenanceStatus)
    → maintenance_ok from to ≡ true
    → maintenance_left to < maintenance_left from
unfolding validate_maintenance_transition maintenance_eq
maintenance_step MaintenanceStatus.queued to h = ground arith
maintenance_step _ to h = ground arith

-- A run of accepted maintenance transitions is at most as long as what is left from its first
-- status: two steps from QUEUED, one from RUNNING, none from an ended or an unknown status.
pub maintenance_ends :
    (from : MaintenanceStatus) (run : List MaintenanceStatus)
    → accepts maintenance_ok from run ≡ true
    → length run + maintenance_left (final from run) ≤ maintenance_left from
maintenance_ends from [] ok = omega arith
maintenance_ends from (to ∷ rest) ok =
    let (step, later) = &&-true (maintenance_ok from to) (accepts maintenance_ok to rest) ok in
    omega (arith, maintenance_step from to step, maintenance_ends to rest later)
