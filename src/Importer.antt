-- ===== src/Importer.antt =====
-- CompleteBatch of internal/service/importer.go. A call returns its error, if any, and what it leaves; the
-- clock stands still during a call.
pub mod Completes
pub mod Packs
pub mod Again
use airgap_mirror.Prelude.{
  ℕ, Bool, true, false, not, ◌&&◌, ◌||◌, List, [], ◌∷◌, Option, none, some, beq, if◌then◌else◌,
  ◌==◌,
}
use airgap_mirror.Prelude.Tables.{affects}
use airgap_mirror.Domain.Status.{
  Text, SessionStatus, EpochStatus, BatchStatus, PackStatus, session_eq, epoch_eq, batch_eq,
  pack_eq,
}
use airgap_mirror.Domain.Types.{Epoch, Batch, Pack, ImportSession}
use airgap_mirror.Domain.Transitions.{Err}
use airgap_mirror.Domain.Result.{Result, ok, err, found}
use airgap_mirror.Store.{get_import_session, update_import_session}
use airgap_mirror.Database.{Database}
use airgap_mirror.Database.Epochs.{
  get_epoch, transition_epoch, get_batch, transition_batch, count_imported_batches,
  count_published_units, complete_epoch,
}
use airgap_mirror.Database.Units.{stats}
use airgap_mirror.Site.{Site}
use airgap_mirror.Publisher.{Outside, Done, and_then, publish_ready}

-- x, err := ...; if err != nil { return err }
unfoldable pub get_then {ℓ} : {A : Type ℓ} → Result A → Site → (A → Done) → Done
get_then (err e) s k = (some e, s)
get_then (ok a) s k = k a

-- A query that changes the tables.
unfoldable pub put_then : Result Database → Site → (Site → Done) → Done
put_then (err e) s k = (some e, s)
put_then (ok db) s k = k (record s { db = db })

-- UpdateImportSession
unfoldable pub put_session : ImportSession → Database → Result Database
put_session v db = elim (update_import_session v db.store) [
  | none ↦ err Err.not_found
  | some store ↦ ok (record db { store = store })
]

-- A pack of the batch that is not IMPORTED.
unfoldable pub missing_pack : Text → Pack → Bool
missing_pack batch p = beq p.batch_id batch && not (pack_eq p.status PackStatus.imported)

-- The last steps, once the epoch is PUBLISHED or COMPLETE.
unfoldable pub end_epoch : ℕ → Text → Site → Done
end_epoch now id s = get_then (get_epoch id s.db) s (λ ep.
    if epoch_eq ep.status EpochStatus.complete
    then (none, s)
    else get_then (stats ep.source_id s.db) s
        (λ totals. put_then (complete_epoch ep.id totals now s.db) s (λ t. (none, t))))

-- if ep.Status == PUBLISHABLE, as it stands or after the first transition.
unfoldable pub to_published : ℕ → Text → EpochStatus → Site → Done
to_published now id status s =
    if epoch_eq status EpochStatus.publishable
    then put_then (transition_epoch now id EpochStatus.published [] s.db) s
        (λ t. end_epoch now id t)
    else end_epoch now id s

unfoldable pub to_publishable : ℕ → Epoch → Site → Done
to_publishable now ep s =
    if epoch_eq ep.status EpochStatus.transferring
    then put_then (transition_epoch now ep.id EpochStatus.publishable [] s.db) s
        (λ t. to_published now ep.id EpochStatus.publishable t)
    else to_published now ep.id ep.status s

-- From the second read of the epoch on.
unfoldable pub finish_batch : ℕ → Text → Site → Done
finish_batch now id s = get_then (get_epoch id s.db) s (λ ep.
    if not (count_imported_batches ep.id s.db == ep.total_batches)
    then (none, s)
    else if not (count_published_units ep.id s.db == ep.publish_unit_count)
    then (some Err.conflict, s)
    else to_publishable now ep s)

unfoldable pub to_imported : ℕ → Batch → BatchStatus → Site → (Site → Done) → Done
to_imported now b status s k =
    if batch_eq status BatchStatus.importing
    then put_then (transition_batch now b.id BatchStatus.imported [] s.db) s k
    else k s

unfoldable pub to_importing : ℕ → Batch → Site → (Site → Done) → Done
to_importing now b s k =
    if batch_eq b.status BatchStatus.transferring
    then put_then (transition_batch now b.id BatchStatus.importing [] s.db) s
        (λ t. to_imported now b BatchStatus.importing t k)
    else to_imported now b b.status s k

-- After the early return.
unfoldable pub import_batch : Outside → ℕ → ImportSession → Site → Done
import_batch o now v s =
    if affects (missing_pack v.batch_id) s.db.store.packs
    then (some Err.conflict, s)
    else get_then (get_batch v.batch_id s.db) s (λ b. to_importing now b s (λ t.
      put_then
        (put_session (record v { status = SessionStatus.batch_imported; updated_at = now }) t.db) t
        (λ u. and_then (publish_ready o now v.epoch_id u) (λ w. finish_batch now v.epoch_id w))))

unfoldable pub complete_batch : Outside → ℕ → Text → Site → Done
complete_batch o now id s = get_then (found (get_import_session id s.db.store)) s (λ v.
    if session_eq v.status SessionStatus.batch_imported
    then get_then (get_epoch v.epoch_id s.db) s (λ ep.
      if epoch_eq ep.status EpochStatus.complete then (none, s) else import_batch o now v s)
    else import_batch o now v s)
