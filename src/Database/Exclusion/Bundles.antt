-- ===== src/Database/Exclusion/Bundles.antt =====
-- RegisterImportBundle of internal/storage/sqlite/server_import_registration.go keeps maintenance and
-- epochs apart.
use airgap_mirror.Prelude.{
  ℕ, ◌+◌, ◌≤◌, ◌≡◌, refl, true, false, List, [], beq, Option-cases, inl, inr,
}
use airgap_mirror.Prelude.Tables.{modify, count, find}
use airgap_mirror.Domain.Status.{Text}
use airgap_mirror.Domain.Types.{SourceState, BatchDescriptor, ImportSession, ImportPack}
use airgap_mirror.Domain.Result.{Ensures, returns, after_check, after_found, after_call}
use airgap_mirror.Store.{get_import_session_by_request}
use airgap_mirror.Database.{Database}
use airgap_mirror.Database.Sources.{active_state, active_job, state_of, busy, epoch_blocked}
use airgap_mirror.Database.Epochs.{is_epoch, is_batch, with_packs}
use airgap_mirror.Database.Register.{
  register_epoch, register_batch, activate, open_session, register_session, register_import_bundle,
}
use airgap_mirror.Database.Exclusion.{
  Exclusive, set-Exclusive, set-apart, clear-apart, blocked-false,
}
use airgap_mirror.Database.Exclusion.Imports.{elsewhere, packs-Exclusive}

register_epoch-Exclusive :
    (d : BatchDescriptor) (db : Database)
    → Exclusive db
    → Ensures Exclusive (register_epoch true d db)
unfolding register_epoch
register_epoch-Exclusive d db x = elim (Option-cases (find (is_epoch d.epoch_id) db.epochs)) [
  | inl e ↦
      rw (register_epoch, e)
        (after_check _ _ _ λ _. after_check _ _ _ λ _. returns _ (elsewhere db _ _ _ _ x))
  | inr r ↦ rw (register_epoch, r.1) (after_check _ _ _ λ _. returns _ x)
]

register_batch-Exclusive :
    (d : BatchDescriptor) (db : Database)
    → Exclusive db
    → Ensures Exclusive (register_batch true d db)
unfolding register_batch
register_batch-Exclusive d db x = elim (Option-cases (find (is_batch d.batch_id) db.batches)) [
  | inl e ↦
      rw (register_batch, e)
        (after_check _ _ _ λ _. after_check _ _ _ λ _. returns _ (elsewhere db _ _ _ _ x))
  | inr r ↦ rw (register_batch, r.1) (after_check _ _ _ λ _. returns _ x)
]

activate-source :
    (id : Text) (at : ℕ) (v : SourceState) → (activate id at v).source_id ≡ v.source_id
unfolding activate
activate-source id at v = refl

activate-idle :
    (id : Text) (at : ℕ) (v : SourceState)
    → id ≡ []
    → busy (activate id at v) ≡ true
    → busy v ≡ true
unfolding activate busy beq
activate-idle id at v e = rw e (λ h. absurd (cc h))

activate-apart :
    (source id : Text) (at : ℕ) (db : Database) (sid : Text)
    → Exclusive db
    → epoch_blocked source id db ≡ false
    → count (active_job sid) db.jobs
        + count (active_state sid) (modify (state_of source) (activate id at) db.states)
      ≤ 1
activate-apart source id at db sid x h = elim (blocked-false source id db h) [
  | inl e ↦
      clear-apart (activate id at) (activate-source id at) (state_of source) db sid x
        (λ v _. activate-idle id at v e)
  | inr e ↦
      set-apart (activate id at) (activate-source id at) source (state_of source) db sid (λ v k. k)
        x e
]

open_session-Exclusive :
    (d : BatchDescriptor) (v : ImportSession) (packs : List ImportPack) (db : Database)
    → Exclusive db
    → Ensures (λ r. Exclusive r.1) (open_session true d v packs db)
unfolding open_session
open_session-Exclusive d v packs db x = after_check _ _ _ λ _. after_check _ _ _ λ _.
    after_call _ _ λ table _. after_check _ _ _ λ free.
      let f = activate d.epoch_id v.updated_at in
      let moved : Exclusive (record db { states = modify (state_of d.source_id) f db.states }) =
        set-Exclusive f (activate-source d.epoch_id v.updated_at) (state_of d.source_id) db x
          (λ sid. activate-apart d.source_id d.epoch_id v.updated_at db sid x free) in
      returns _
        (elsewhere (record db { states = modify (state_of d.source_id) f db.states }) _ _ _ _ moved)

register_session-Exclusive :
    (d : BatchDescriptor) (v : ImportSession) (packs : List ImportPack) (db : Database)
    → Exclusive db
    → Ensures (λ r. Exclusive r.1) (register_session true d v packs db)
unfolding register_session
register_session-Exclusive d v packs db x =
    elim (Option-cases (get_import_session_by_request v.request_id db.store)) [
      | inl e ↦ rw (register_session, e) (open_session-Exclusive d v packs db x)
      | inr r ↦ rw (register_session, r.1) (after_check _ _ _ λ _. returns _ x)
    ]

pub register-Exclusive :
    (d : BatchDescriptor) (v : ImportSession) (packs : List ImportPack) (db : Database)
    → Exclusive db
    → Ensures (λ r. Exclusive r.1) (register_import_bundle true d v packs db)
unfolding register_import_bundle
register-Exclusive d v packs db x = after_check _ _ _ λ _. after_check _ _ _ λ _.
    after_check _ _ _ λ _. after_found _ _ λ st _. after_check _ _ _ λ _. after_check _ _ _ λ _.
      after_call _ _ λ db1 e1. after_call _ _ λ db2 e2. after_call _ _ λ rows _.
        let x1 = (register_epoch-Exclusive d db x).holds db1 e1 in
        let x2 = (register_batch-Exclusive d db1 x1).holds db2 e2 in
        register_session-Exclusive d v packs (with_packs rows db2) (packs-Exclusive rows db2 x2)
