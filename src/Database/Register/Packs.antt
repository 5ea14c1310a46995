-- ===== src/Database/Register/Packs.antt =====
-- The loop over the declared packs in RegisterImportBundle of
-- internal/storage/sqlite/server_import_registration.go, run again on the rows that it has left.
use airgap_mirror.Prelude.{
  ◌≡◌, refl, ap, false, List, [], ◌∷◌, none, some, beq, beq_refl, beq_eq, Bool-cases, Option-cases,
  inl, inr, ==_refl,
}
use airgap_mirror.Prelude.Tables.{find}
use airgap_mirror.Domain.Status.{Text}
use airgap_mirror.Domain.Types.{Pack, PackSpec, BatchDescriptor}
use airgap_mirror.Domain.Result.{ok, check, ◌>>=◌, ◌>>◌, Ensures, returns, after_check}
use airgap_mirror.Database.Epochs.{is_pack}
use airgap_mirror.Database.Register.{bundle_pack, pack_differs, register_packs}

bundle-agrees :
    (d : BatchDescriptor) (spec : PackSpec) → pack_differs d spec (bundle_pack d spec) ≡ false
unfolding pack_differs bundle_pack
bundle-agrees d spec =
    rw
      (
        beq_refl d.epoch_id,
        beq_refl d.batch_id,
        ==_refl spec.sequence,
        ==_refl spec.size,
        beq_refl spec.sha256,
        ==_refl spec.entry_count,
      )
      refl

-- A row that is found is still found behind a new row of another id.
behind :
    (d : BatchDescriptor) (spec : PackSpec) (id : Text) (packs : List Pack) (p : Pack)
    → find (is_pack spec.id) packs ≡ none
    → find (is_pack id) packs ≡ some p
    → find (is_pack id) (bundle_pack d spec ∷ packs) ≡ some p
unfolding find is_pack bundle_pack
behind d spec id packs p = elim (Bool-cases (beq spec.id id)) [
  | inl e ↦ λ h k. absurd (cc (h, ap (λ t. find (is_pack t) packs) (beq_eq spec.id id e), k))
  | inr e ↦ rw e (λ h k. k)
]

-- The rows that are there stay where they are found, and each declared pack is found as declared.
record PacksDone (d : BatchDescriptor) (specs : List PackSpec) (packs t : List Pack) : Type 0 where
  pub keeps :
      (id : Text) (p : Pack) → find (is_pack id) packs ≡ some p → find (is_pack id) t ≡ some p
  pub again : register_packs d specs t ≡ ok t

skip :
    (d : BatchDescriptor) (spec : PackSpec) (rest : List PackSpec) (t : List Pack) (p : Pack)
    → find (is_pack spec.id) t ≡ some p
    → pack_differs d spec p ≡ false
    → register_packs d rest t ≡ ok t
    → register_packs d (spec ∷ rest) t ≡ ok t
unfolding register_packs check ◌>>◌ ◌>>=◌
skip d spec rest t p h k more = rw (register_packs, h) (rw k more)

new-found :
    (d : BatchDescriptor) (spec : PackSpec) (packs : List Pack)
    → find (is_pack spec.id) (bundle_pack d spec ∷ packs) ≡ some (bundle_pack d spec)
unfolding find is_pack bundle_pack
new-found d spec packs = rw (beq_refl spec.id) refl

packs-Done :
    (d : BatchDescriptor) (specs : List PackSpec) (packs : List Pack)
    → Ensures (PacksDone d specs packs) (register_packs d specs packs)
unfolding register_packs
packs-Done d [] packs = returns _ (record { keeps = λ id p h. h; again = refl })
packs-Done d (spec ∷ rest) packs = elim (Option-cases (find (is_pack spec.id) packs)) [
  | inl e ↦
      rw (register_packs, e)
        (after_check _ _ _ λ _. record {
          holds = λ t h.
              let more = (packs-Done d rest (bundle_pack d spec ∷ packs)).holds t h in
              record {
                keeps = λ id p k. more.keeps id p (behind d spec id packs p e k);
                again =
                    skip d spec rest t (bundle_pack d spec)
                      (more.keeps spec.id (bundle_pack d spec) (new-found d spec packs))
                      (bundle-agrees d spec) more.again;
              };
        })
  | inr r ↦
      rw (register_packs, r.1)
        (after_check _ _ _ λ same. record {
          holds = λ t h.
              let more = (packs-Done d rest packs).holds t h in
              record {
                keeps = more.keeps;
                again = skip d spec rest t r.0 (more.keeps spec.id r.0 r.1) same more.again;
              };
        })
]

-- What the loop leaves, it takes again without a change.
pub packs_again :
    (d : BatchDescriptor) (packs t : List Pack)
    → register_packs d d.packs packs ≡ ok t
    → register_packs d d.packs t ≡ ok t
packs_again d packs t h = ((packs-Done d d.packs packs).holds t h).again
