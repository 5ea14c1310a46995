-- ===== src/Planner/Assigned.antt =====
-- Which artifacts the page loop of Plan of internal/service/planner.go assigns.
use mathlib.Core.List.{map, reverse_aux}
use airgap_mirror.Prelude.{
  ℕ, suc, ◌<◌, ◌≡◌, refl, ap, ◌∙◌, inl, inr, List, [], ◌∷◌, Option, none, some, length,
  if◌then◌else◌, Bool-cases,
}
use airgap_mirror.Domain.Status.{Text}
use airgap_mirror.Domain.Transitions.{Err}
use airgap_mirror.Domain.Types.{Epoch, Artifact, Batch, Pack}
use airgap_mirror.Planner.{
  Row, Call, Plan, flush_pack, flush_batch, needs_batch, needs_pack, new_batch, new_pack,
  open_batch, open_pack, take_batch, take_pack, count_in, place, place_all, place_pages,
  planned_size, bad_tombstone,
}
use airgap_mirror.Planner.Totals.{assigned_artifacts, plan_of}
use airgap_mirror.Planner.Pages.{Ascends, place_pages-all}

-- The artifacts before the first bad tombstone.
unfoldable pub before_bad : List Artifact → List Artifact
before_bad [] = []
before_bad (a ∷ rest) = let more = before_bad rest in if bad_tombstone a then [] else a ∷ more

-- The error, if there is a bad tombstone.
unfoldable pub refusal : List Artifact → Option Err
refusal [] = none
refusal (a ∷ rest) = let later = refusal rest in if bad_tombstone a then some Err.invalid else later

module _ (max target now : ℕ) (ids : ℕ → Text) (e : Epoch) where
  module _ (a : Artifact) (bs ps f : ℕ) (cs : List Call) where
    assigned_at :
        (b : Option Batch) (k : Option Pack)
        → assigned_artifacts (place max target now ids e a (plan_of b k bs ps f cs)).calls
          ≡ a ∷ assigned_artifacts cs
    unfolding place take_batch take_pack count_in flush_batch flush_pack open_batch open_pack
        new_batch new_pack needs_batch needs_pack assigned_artifacts
    assigned_at none none = refl
    assigned_at none (some k) = elim (Bool-cases (needs_pack target (planned_size a) (some k))) [
      | inl h ↦ rw h refl
      | inr h ↦ rw h refl
    ]
    assigned_at (some b) none = elim (Bool-cases (needs_batch max (planned_size a) (some b))) [
      | inl h ↦ rw h refl
      | inr h ↦ rw h refl
    ]
    assigned_at (some b) (some k) = elim (Bool-cases (needs_batch max (planned_size a) (some b))) [
      | inl h ↦ rw h refl
      | inr h ↦ rw h (elim (Bool-cases (needs_pack target (planned_size a) (some k))) [
        | inl d ↦ rw d refl
        | inr d ↦ rw d refl
      ])
    ]

  place_all-assigned :
      (artifacts : List Artifact) (s : Plan)
      → ((place_all max target now ids e artifacts s).0 ≡ refusal artifacts)
        × (assigned_artifacts (place_all max target now ids e artifacts s).1.calls
            ≡ reverse_aux (before_bad artifacts) (assigned_artifacts s.calls))
  unfolding place_all refusal before_bad
  place_all-assigned [] s = (refl, refl)
  place_all-assigned (a ∷ rest) s = elim (Bool-cases (bad_tombstone a)) [
    | inl h ↦ rw h (refl, refl)
    | inr h ↦
        let (ended, assigned) = place_all-assigned rest (place max target now ids e a s) in
        let first = assigned_at a s.bs s.ps s.fresh s.calls s.batch s.pack in
        rw h (ended, assigned ∙ ap (reverse_aux (before_bad rest)) first)
  ]

  -- For rows whose ordinals ascend from above `after` on and pages of any positive size, the page loop of
  -- BatchPlanner.Plan ends within one round more than there are rows. It assigns every artifact before
  -- the first bad tombstone once, in the order of the rows, and no other, and returns an error exactly
  -- if there is a bad tombstone.
  pub place_pages-assigned :
      (size : ℕ) (rows : List Row) (after : ℕ) (s : Plan)
      → 0 < size
      → Ascends after rows
      → ((place_pages max target now ids e (suc (length rows)) size rows after s).0
          ≡ refusal (map (λ r. r.1) rows))
        × (assigned_artifacts
              (place_pages max target now ids e (suc (length rows)) size rows after s).1.calls
            ≡ reverse_aux (before_bad (map (λ r. r.1) rows)) (assigned_artifacts s.calls))
  place_pages-assigned size rows after s pos asc =
      let same = place_pages-all max target now ids e size rows after s pos asc in
      let (ended, assigned) = place_all-assigned (map (λ r. r.1) rows) s in
      (ap (λ d. d.0) same ∙ ended, ap (λ d. assigned_artifacts d.1.calls) same ∙ assigned)
