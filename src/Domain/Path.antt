-- ===== src/Domain/Path.antt =====
-- Runs of a status machine: a list of statuses, each accepted from the one before it. A rank that
-- grows by at most one on each accepted step forces a run through every rank in between.
use mathlib.Core.List.{Memᴰ}
use airgap_mirror.Prelude.{
  ℕ, ◌+◌, ◌≤◌, ◌<◌, ◌≡◌, refl, Bool, true, ◌&&◌, List, [], ◌∷◌, arith, &&-true, leb, Bool-cases,
  inl, inr,
}

module _ {S : Type 0} (can : S → S → Bool) where
  abbrev pub accepts : S → List S → Bool
  accepts from [] = true
  accepts from (to ∷ rest) = can from to && accepts to rest

abbrev pub final : {S : Type 0} → S → List S → S
final from [] = from
final from (to ∷ rest) = final to rest

module _ {S : Type 0} (can : S → S → Bool) (rank : S → ℕ)
    (slow : (a b : S) → can a b ≡ true → rank b ≤ rank a + 1) where
  -- An accepted run from below rank `r` to rank `r` or above visits a status of rank `r`.
  pub visits_rank :
      (r : ℕ) (from : S) (run : List S)
      → accepts can from run ≡ true
      → rank from < r
      → r ≤ rank (final from run)
      → (s : S) × Memᴰ s run × (rank s ≡ r)
  visits_rank r from [] ok low high = absurd (omega arith)
  visits_rank r from (to ∷ rest) ok low high =
      let (step, later) = &&-true (can from to) (accepts can to rest) ok in
      elim (Bool-cases (leb r (rank to))) [
        | inl up ↦ (to, Memᴰ.head refl, ground (arith, slow from to step))
        | inr below ↦
            let (s, m, e) = visits_rank r to rest later (ground arith) high in (s, Memᴰ.tail m, e)
      ]
