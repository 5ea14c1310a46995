-- ===== src/Importer/Completes.antt =====
-- What holds when CompleteBatch of internal/service/importer.go has returned without an error.
use mathlib.Core.Path.{subst}
use airgap_mirror.Prelude.{
  ℕ, ◌≡◌, ◌≢◌, refl, sym, ap, ◌∙◌, ◌⊎◌, inl, inr, none, some, beq_eq, Bool-cases, Option-cases,
  ◌==◌, ==_ne,
}
use airgap_mirror.Prelude.Tables.{find, find-sat, find-modify, affects}
use airgap_mirror.Domain.Status.{
  Text, EpochStatus, BatchStatus, SessionStatus, epoch_eq, epoch_eq-eq, batch_eq, session_eq,
}
use airgap_mirror.Domain.Types.{Epoch, Batch, ImportSession, CatalogStats}
use airgap_mirror.Domain.Transitions.{Err}
use airgap_mirror.Domain.Result.{Result, ok, err, found, Ensures, returns, after_check, after_found}
use airgap_mirror.Store.{get_import_session}
use airgap_mirror.Database.{Database}
use airgap_mirror.Database.Epochs.{
  is_epoch, get_epoch, count_imported_batches, count_published_units, finish_epoch, complete_epoch,
}
use airgap_mirror.Site.{Site}
use airgap_mirror.Publisher.{Outside, Done}
use airgap_mirror.Publisher.Metadata.{Leaves, leaves, fails, after_done}
use airgap_mirror.Importer.{
  get_then, put_then, missing_pack, end_epoch, to_published, to_publishable, finish_batch,
  to_imported, to_importing, import_batch, complete_batch,
}

module _ {κ} {P : Site → Type κ} where
  pub after_get {ℓ} :
      {A : Type ℓ} (r : Result A) (s : Site) (k : A → Done)
      → ((a : A) → r ≡ ok a → Leaves P (k a))
      → Leaves P (get_then r s k)
  unfolding get_then
  after_get (err e) s k h = fails e s
  after_get (ok a) s k h = h a refl

  pub after_put :
      (r : Result Database) (s : Site) (k : Site → Done)
      → ((db : Database) → r ≡ ok db → Leaves P (k (record s { db = db })))
      → Leaves P (put_then r s k)
  unfolding put_then
  after_put (err e) s k h = fails e s
  after_put (ok db) s k h = h db refl

-- The epoch of the session is COMPLETE, or batches of it are still to be imported.
pub record Completed (id : Text) (t : Site) : Type 0 where
  pub epoch : Epoch
  pub stored : get_epoch id t.db ≡ ok epoch
  pub done :
      (epoch.status ≡ EpochStatus.complete) ⊎ (count_imported_batches id t.db ≢ epoch.total_batches)

epoch-id : (id : Text) (db : Database) (e : Epoch) → get_epoch id db ≡ ok e → e.id ≡ id
unfolding get_epoch found is_epoch
epoch-id id db e h = elim (Option-cases (find (is_epoch id) db.epochs)) [
  | inl n ↦ absurd (cc (sym h ∙ ap found n))
  | inr (x, k) ↦
      let same : x ≡ e = cc (sym (ap found k) ∙ h) in
      beq_eq e.id id (find-sat (is_epoch id) db.epochs e (k ∙ ap some same))
]

stored-complete :
    (id : Text) (s : CatalogStats) (at : ℕ) (db : Database)
    → Ensures
        (λ t. (e : Epoch) × (get_epoch id t ≡ ok e) × (e.status ≡ EpochStatus.complete))
        (complete_epoch id s at db)
unfolding complete_epoch get_epoch found is_epoch finish_epoch
stored-complete id s at db = after_found _ _ λ e h. after_check _ _ _ λ _. after_check _ _ _ λ _.
    after_check _ _ _ λ _. returns _ (
      finish_epoch at e,
      ap found (find-modify (is_epoch id) (finish_epoch at) db.epochs e (λ x. refl) h),
      refl,
    )

end_epoch-Completed : (now : ℕ) (id : Text) (s : Site) → Leaves (Completed id) (end_epoch now id s)
unfolding end_epoch
end_epoch-Completed now id s = after_get _ _ _ λ ep h.
    elim (Bool-cases (epoch_eq ep.status EpochStatus.complete)) [
      | inl e ↦ rw e (
          leaves s (record {
            epoch = ep;
            stored = h;
            done = inl (epoch_eq-eq ep.status EpochStatus.complete e);
          }))
      | inr e ↦ rw e (
          after_get _ _ _ λ totals _.
            after_put _ _ _ λ db k. leaves _ (ended (ep.id) (epoch-id id s.db ep h) totals db k))
    ]
  where
    ended :
        (i : Text)
        → i ≡ id
        → (totals : CatalogStats) (db : Database) → complete_epoch i totals now s.db ≡ ok db
        → Completed id (record s { db = db })
    ended i e totals db k =
        let (ep, stored, done) = (stored-complete i totals now s.db).holds db k in
        record { epoch = ep; stored = ap (λ j. get_epoch j db) (sym e) ∙ stored; done = inl done }

to_published-Completed :
    (now : ℕ) (id : Text) (status : EpochStatus) (s : Site)
    → Leaves (Completed id) (to_published now id status s)
unfolding to_published
to_published-Completed now id status s =
    elim (Bool-cases (epoch_eq status EpochStatus.publishable)) [
      | inl e ↦ rw e (after_put _ _ _ λ db _. end_epoch-Completed now id (record s { db = db }))
      | inr e ↦ rw e (end_epoch-Completed now id s)
    ]

to_publishable-Completed :
    (now : ℕ) (ep : Epoch) (s : Site) → Leaves (Completed ep.id) (to_publishable now ep s)
unfolding to_publishable
to_publishable-Completed now ep s =
    elim (Bool-cases (epoch_eq ep.status EpochStatus.transferring)) [
      | inl e ↦ rw e (
          after_put _ _ _
            λ db _. to_published-Completed now ep.id EpochStatus.publishable (record s { db = db }))
      | inr e ↦ rw e (to_published-Completed now ep.id ep.status s)
    ]

finish-Completed : (now : ℕ) (id : Text) (s : Site) → Leaves (Completed id) (finish_batch now id s)
unfolding finish_batch
finish-Completed now id s = after_get _ _ _ λ ep h.
    let same = epoch-id id s.db ep h in
    elim (Bool-cases (count_imported_batches ep.id s.db == ep.total_batches)) [
      | inl e ↦
          rw e (elim (Bool-cases (count_published_units ep.id s.db == ep.publish_unit_count)) [
            | inl d ↦ rw d (
                subst (λ i. Leaves (Completed i) (to_publishable now ep s)) same
                  (to_publishable-Completed now ep s))
            | inr d ↦ rw d (fails Err.conflict s)
          ])
      | inr e ↦ rw e (
          leaves s (record {
            epoch = ep;
            stored = h;
            done = inr (λ k. ==_ne _ _ e (ap (λ i. count_imported_batches i s.db) same ∙ k));
          }))
    ]

to_imported-Leaves {κ} :
    (P : Site → Type κ) (now : ℕ) (b : Batch) (status : BatchStatus) (s : Site) (k : Site → Done)
    → ((t : Site) → Leaves P (k t))
    → Leaves P (to_imported now b status s k)
unfolding to_imported
to_imported-Leaves P now b status s k h =
    elim (Bool-cases (batch_eq status BatchStatus.importing)) [
      | inl e ↦ rw e (after_put _ _ _ λ db _. h (record s { db = db }))
      | inr e ↦ rw e (h s)
    ]

to_importing-Leaves {κ} :
    (P : Site → Type κ) (now : ℕ) (b : Batch) (s : Site) (k : Site → Done)
    → ((t : Site) → Leaves P (k t))
    → Leaves P (to_importing now b s k)
unfolding to_importing
to_importing-Leaves P now b s k h = elim (Bool-cases (batch_eq b.status BatchStatus.transferring)) [
  | inl e ↦ rw e (
      after_put _ _ _
        λ db _. to_imported-Leaves P now b BatchStatus.importing (record s { db = db }) k h)
  | inr e ↦ rw e (to_imported-Leaves P now b b.status s k h)
]

import-Completed :
    (o : Outside) (now : ℕ) (v : ImportSession) (s : Site)
    → Leaves (Completed v.epoch_id) (import_batch o now v s)
unfolding import_batch
import-Completed o now v s =
    elim (Bool-cases (affects (missing_pack v.batch_id) s.db.store.packs)) [
      | inl e ↦ rw e (fails Err.conflict s)
      | inr e ↦ rw e (
          after_get _ _ _ λ b _.
            to_importing-Leaves _ now b s _
              λ t. after_put _ _ _ λ db _. after_done _ _ λ w _. finish-Completed now v.epoch_id w)
    ]

Outcome : Text → Site → Site → Type 0
Outcome id s t =
    (v : ImportSession) × (get_import_session id s.db.store ≡ some v) × Completed v.epoch_id t

with_session :
    (id : Text) (s : Site) (v : ImportSession) (d : Done)
    → get_import_session id s.db.store ≡ some v
    → Leaves (Completed v.epoch_id) d
    → Leaves (Outcome id s) d
unfolding Outcome
with_session id s v d e l = record { holds = λ t h. (v, e, l.holds t h) }

session-found :
    (id : Text) (s : Site) (v : ImportSession)
    → found (get_import_session id s.db.store) ≡ ok v
    → get_import_session id s.db.store ≡ some v
unfolding found
session-found id s v h = elim (Option-cases (get_import_session id s.db.store)) [
  | inl e ↦ absurd (cc (sym h ∙ ap found e))
  | inr (x, e) ↦ e ∙ ap some (cc (sym (ap found e) ∙ h))
]

all-Outcome :
    (o : Outside) (now : ℕ) (id : Text) (s : Site)
    → Leaves (Outcome id s) (complete_batch o now id s)
unfolding complete_batch
all-Outcome o now id s = after_get _ _ _ λ v e.
    with_session id s v _ (session-found id s v e)
      (elim (Bool-cases (session_eq v.status SessionStatus.batch_imported)) [
        | inl k ↦ rw k (
            after_get _ _ _ λ ep h. elim (Bool-cases (epoch_eq ep.status EpochStatus.complete)) [
              | inl c ↦ rw c (
                  leaves s (record {
                    epoch = ep;
                    stored = h;
                    done = inl (epoch_eq-eq ep.status EpochStatus.complete c);
                  }))
              | inr c ↦ rw c (import-Completed o now v s)
            ])
        | inr k ↦ rw k (import-Completed o now v s)
      ])

-- If CompleteBatch returns without an error, the session is there, and its epoch is stored and is
-- COMPLETE, or the number of its imported batches is not the number that it declares.
pub complete_batch-Completed :
    (o : Outside) (now : ℕ) (id : Text) (s t : Site)
    → complete_batch o now id s ≡ (none, t)
    → (v : ImportSession) × (get_import_session id s.db.store ≡ some v) × Completed v.epoch_id t
unfolding Outcome
complete_batch-Completed o now id s t h = (all-Outcome o now id s).holds t h
