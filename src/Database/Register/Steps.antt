-- ===== src/Database/Register/Steps.antt =====
-- RegisterImportBundle of internal/storage/sqlite/server_import_registration.go, called again with the
-- same request.
use airgap_mirror.Prelude.{
  ◌≡◌, refl, ap, ◌∙◌, Bool, true, List, ◌∷◌, some, beq_refl, Option-cases, inl, inr, ==_refl,
  not-eq_false, length,
}
use airgap_mirror.Prelude.Tables.{find}
use airgap_mirror.Domain.Types.{Epoch, Batch, BatchDescriptor, cursor_equal, Cursor}
use airgap_mirror.Domain.Result.{ok, check, ◌>>=◌, ◌>>◌, Ensures, returns, after_check}
use airgap_mirror.Database.{Database}
use airgap_mirror.Database.Epochs.{is_epoch, is_batch}
use airgap_mirror.Database.Register.{
  same_epoch, same_batch, bundle_epoch, bundle_batch, register_epoch, register_batch,
}

pub cursor_refl : (c : Cursor) → cursor_equal c c ≡ true
unfolding cursor_equal
cursor_refl c = rw (beq_refl c.kind, beq_refl c.value) refl

bundle-same_epoch : (d : BatchDescriptor) → same_epoch (bundle_epoch d) d ≡ true
unfolding same_epoch bundle_epoch
bundle-same_epoch d =
    rw
      (
        beq_refl d.epoch_id,
        beq_refl d.source_id,
        cursor_refl d.base_cursor,
        cursor_refl d.target_cursor,
        ==_refl d.epoch_total_bytes,
        ==_refl d.epoch_total_objects,
        ==_refl d.epoch_total_batches,
        ==_refl d.epoch_publish_unit_count,
      )
      refl

bundle-same_batch : (d : BatchDescriptor) → same_batch (bundle_batch d) d ≡ true
unfolding same_batch bundle_batch
bundle-same_batch d =
    rw
      (
        beq_refl d.batch_id,
        beq_refl d.epoch_id,
        beq_refl d.source_id,
        ==_refl d.batch_sequence,
        ==_refl d.batch_bytes,
        ==_refl d.batch_objects,
        ==_refl (length d.packs),
      )
      refl

-- What a step of the registration leaves: it finds itself done, and other tables as they were.
pub record EpochDone (fk : Bool) (d : BatchDescriptor) (db t : Database) : Type 0 where
  pub again : (u : Database) → u.epochs ≡ t.epochs → register_epoch fk d u ≡ ok u
  pub states : t.states ≡ db.states

pub record BatchDone (fk : Bool) (d : BatchDescriptor) (db t : Database) : Type 0 where
  pub again : (u : Database) → u.batches ≡ t.batches → register_batch fk d u ≡ ok u
  pub states : t.states ≡ db.states
  pub epochs : t.epochs ≡ db.epochs

epoch-again :
    (fk : Bool) (d : BatchDescriptor) (epochs : List Epoch) (e : Epoch)
    → find (is_epoch d.epoch_id) epochs ≡ some e
    → same_epoch e d ≡ true
    → (u : Database) → u.epochs ≡ epochs
    → register_epoch fk d u ≡ ok u
unfolding register_epoch check ◌>>◌ ◌>>=◌
epoch-again fk d epochs e h k u same =
    rw (register_epoch, ap (λ l. find (is_epoch d.epoch_id) l) same ∙ h) (rw k refl)

batch-again :
    (fk : Bool) (d : BatchDescriptor) (batches : List Batch) (b : Batch)
    → find (is_batch d.batch_id) batches ≡ some b
    → same_batch b d ≡ true
    → (u : Database) → u.batches ≡ batches
    → register_batch fk d u ≡ ok u
unfolding register_batch check ◌>>◌ ◌>>=◌
batch-again fk d batches b h k u same =
    rw (register_batch, ap (λ l. find (is_batch d.batch_id) l) same ∙ h) (rw k refl)

new-epoch-found :
    (d : BatchDescriptor) (epochs : List Epoch)
    → find (is_epoch d.epoch_id) (bundle_epoch d ∷ epochs) ≡ some (bundle_epoch d)
unfolding find is_epoch bundle_epoch
new-epoch-found d epochs = rw (beq_refl d.epoch_id) refl

new-batch-found :
    (d : BatchDescriptor) (batches : List Batch)
    → find (is_batch d.batch_id) (bundle_batch d ∷ batches) ≡ some (bundle_batch d)
unfolding find is_batch bundle_batch
new-batch-found d batches = rw (beq_refl d.batch_id) refl

pub epoch-Done :
    (fk : Bool) (d : BatchDescriptor) (db : Database)
    → Ensures (EpochDone fk d db) (register_epoch fk d db)
unfolding register_epoch
epoch-Done fk d db = elim (Option-cases (find (is_epoch d.epoch_id) db.epochs)) [
  | inl e ↦
      rw (register_epoch, e)
        (after_check _ _ _ λ _. after_check _ _ _ λ _. returns _ (record {
          again =
              epoch-again fk d (bundle_epoch d ∷ db.epochs) (bundle_epoch d)
                (new-epoch-found d db.epochs) (bundle-same_epoch d);
          states = refl;
        }))
  | inr r ↦
      rw (register_epoch, r.1)
        (after_check _ _ _ λ same. returns _ (record {
          again = epoch-again fk d db.epochs r.0 r.1 (not-eq_false _ same);
          states = refl;
        }))
]

pub batch-Done :
    (fk : Bool) (d : BatchDescriptor) (db : Database)
    → Ensures (BatchDone fk d db) (register_batch fk d db)
unfolding register_batch
batch-Done fk d db = elim (Option-cases (find (is_batch d.batch_id) db.batches)) [
  | inl e ↦
      rw (register_batch, e)
        (after_check _ _ _ λ _. after_check _ _ _ λ _. returns _ (record {
          again =
              batch-again fk d (bundle_batch d ∷ db.batches) (bundle_batch d)
                (new-batch-found d db.batches) (bundle-same_batch d);
          states = refl;
          epochs = refl;
        }))
  | inr r ↦
      rw (register_batch, r.1)
        (after_check _ _ _ λ same. returns _ (record {
          again = batch-again fk d db.batches r.0 r.1 (not-eq_false _ same);
          states = refl;
          epochs = refl;
        }))
]
