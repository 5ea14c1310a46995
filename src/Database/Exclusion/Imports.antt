-- ===== src/Database/Exclusion/Imports.antt =====
-- The queries of internal/storage/sqlite on epochs, batches, packs, units and the catalog keep
-- maintenance and epochs apart: RegisterImportBundle and CompleteEpoch, which change a source's epoch,
-- ReplaceCatalogFromFile, and those that write other tables.
use airgap_mirror.Prelude.{ℕ, ◌≡◌, refl, true, List, beq, Bool-cases, Option-cases, inl, inr}
use airgap_mirror.Prelude.Tables.{modify, affects, find}
use airgap_mirror.Domain.Status.{Text, EpochStatus, BatchStatus}
use airgap_mirror.Domain.Types.{
  SourceState, Epoch, Batch, Pack, PublishUnit, CatalogEntry, CatalogStats, Cursor,
}
use airgap_mirror.Domain.Result.{Ensures, returns, after_check, after_found, after_pass, after_call}
use airgap_mirror.Store.{Store}
use airgap_mirror.Store.Commit.{Imports}
use airgap_mirror.Database.{Database}
use airgap_mirror.Database.Sources.{busy}
use airgap_mirror.Database.Epochs.{
  create_epoch, transition_epoch, create_batch, transition_batch, upsert_pack, is_pack, with_packs,
  advance, holds_epoch, complete_epoch,
}
use airgap_mirror.Database.Units.{
  is_unit, with_units, declare_publish_unit, mark_published, with_catalog, upsert_entry,
  delete_entry,
}
use airgap_mirror.Database.Register.{mark_import_pack_committed}
use airgap_mirror.Database.Replace.{replaced, idle_state, replace_catalog}
use airgap_mirror.Database.Exclusion.{Exclusive, set-Exclusive, clear-apart}

-- The tables that the invariant does not read.
pub elsewhere :
    (db : Database) (epochs : List Epoch) (batches : List Batch) (store : Store) (imports : Imports)
    → Exclusive db
    → Exclusive (record db { epochs = epochs; batches = batches; store = store; imports = imports })
elsewhere db epochs batches store imports x = record {
  one_state = x.one_state;
  stated = x.stated;
  known = x.known;
  apart = x.apart;
}

pub create_epoch-Exclusive :
    (v : Epoch) (db : Database) → Exclusive db → Ensures Exclusive (create_epoch true v db)
unfolding create_epoch
create_epoch-Exclusive v db x =
    after_check _ _ _ λ _. after_check _ _ _ λ _. returns _ (elsewhere db _ _ _ _ x)

pub transition_epoch-Exclusive :
    (now : ℕ) (id : Text) (to : EpochStatus) (msg : Text) (db : Database)
    → Exclusive db
    → Ensures Exclusive (transition_epoch now id to msg db)
unfolding transition_epoch
transition_epoch-Exclusive now id to msg db x =
    after_found _ _
      λ e _. after_pass _ _ λ _. after_check _ _ _ λ _. returns _ (elsewhere db _ _ _ _ x)

pub create_batch-Exclusive :
    (v : Batch) (db : Database) → Exclusive db → Ensures Exclusive (create_batch true v db)
unfolding create_batch
create_batch-Exclusive v db x = after_check _ _ _ λ _.
    after_check _ _ _
      λ _. after_check _ _ _ λ _. after_check _ _ _ λ _. returns _ (elsewhere db _ _ _ _ x)

pub transition_batch-Exclusive :
    (now : ℕ) (id : Text) (to : BatchStatus) (msg : Text) (db : Database)
    → Exclusive db
    → Ensures Exclusive (transition_batch now id to msg db)
unfolding transition_batch
transition_batch-Exclusive now id to msg db x =
    after_found _ _ λ b _. after_pass _ _ λ _. returns _ (elsewhere db _ _ _ _ x)

pub packs-Exclusive :
    (packs : List Pack) (db : Database) → Exclusive db → Exclusive (with_packs packs db)
unfolding with_packs
packs-Exclusive packs db x = elsewhere db _ _ _ _ x

units-Exclusive :
    (units : List PublishUnit) (db : Database) → Exclusive db → Exclusive (with_units units db)
unfolding with_units
units-Exclusive units db x = elsewhere db _ _ _ _ x

catalog-Exclusive :
    (catalog : List CatalogEntry) (db : Database)
    → Exclusive db
    → Exclusive (with_catalog catalog db)
unfolding with_catalog
catalog-Exclusive catalog db x = elsewhere db _ _ _ _ x

pub upsert_pack-Exclusive :
    (v : Pack) (db : Database) → Exclusive db → Ensures Exclusive (upsert_pack true v db)
unfolding upsert_pack
upsert_pack-Exclusive v db x = elim (Bool-cases (affects (is_pack v.id) db.store.packs)) [
  | inl e ↦ rw e (returns _ (packs-Exclusive _ db x))
  | inr e ↦ rw e (
      after_check _ _ _
        λ _. after_check _ _ _ λ _. after_check _ _ _ λ _. returns _ (packs-Exclusive _ db x))
]

pub declare_unit-Exclusive :
    (u : PublishUnit) (db : Database)
    → Exclusive db
    → Ensures Exclusive (declare_publish_unit true u db)
unfolding declare_publish_unit
declare_unit-Exclusive u db x = elim (Option-cases (find (is_unit u.id) db.imports.units)) [
  | inl e ↦
      rw (declare_publish_unit, e)
        (after_check _ _ _
          λ _. after_check _ _ _ λ _. after_check _ _ _ λ _. returns _ (units-Exclusive _ db x))
  | inr r ↦ rw (declare_publish_unit, r.1) (after_check _ _ _ λ _. returns _ x)
]

pub mark_published-Exclusive :
    (id : Text) (at : ℕ) (db : Database)
    → Exclusive db
    → Ensures Exclusive (mark_published id at db)
unfolding mark_published
mark_published-Exclusive id at db x = after_check _ _ _ λ _. returns _ (units-Exclusive _ db x)

pub upsert_entry-Exclusive :
    (v : CatalogEntry) (db : Database) → Exclusive db → Ensures Exclusive (upsert_entry true v db)
unfolding upsert_entry
upsert_entry-Exclusive v db x = after_check _ _ _ λ _. returns _ (catalog-Exclusive _ db x)

pub delete_entry-Exclusive :
    (source path : Text) (db : Database) → Exclusive db → Exclusive (delete_entry source path db)
unfolding delete_entry
delete_entry-Exclusive source path db x = catalog-Exclusive _ db x

pub mark_committed-Exclusive :
    (sid pid : Text) (db : Database)
    → Exclusive db
    → Ensures Exclusive (mark_import_pack_committed sid pid db)
unfolding mark_import_pack_committed
mark_committed-Exclusive sid pid db x = after_check _ _ _ λ _. returns _ (elsewhere db _ _ _ _ x)

advance-source :
    (c : Cursor) (s : CatalogStats) (at : ℕ) (v : SourceState)
    → (advance c s at v).source_id ≡ v.source_id
unfolding advance
advance-source c s at v = refl

advance-idle :
    (c : Cursor) (s : CatalogStats) (at : ℕ) (v : SourceState)
    → busy (advance c s at v) ≡ true
    → busy v ≡ true
unfolding advance busy beq
advance-idle c s at v h = absurd (cc h)

pub complete_epoch-Exclusive :
    (id : Text) (s : CatalogStats) (at : ℕ) (db : Database)
    → Exclusive db
    → Ensures Exclusive (complete_epoch id s at db)
unfolding complete_epoch
complete_epoch-Exclusive id s at db x = after_found _ _ λ e _. after_check _ _ _ λ _.
    after_check _ _ _ λ _. after_check _ _ _ λ _.
      let p = holds_epoch e.source_id id in
      let f = advance e.target_cursor s at in
      let moved : Exclusive (record db { states = modify p f db.states }) =
        set-Exclusive f (advance-source e.target_cursor s at) p db x (λ sid.
          clear-apart f (advance-source e.target_cursor s at) p db sid x
            (λ v _ h. advance-idle e.target_cursor s at v h)) in
      returns _ (elsewhere (record db { states = modify p f db.states }) _ _ _ _ moved)

replaced-source :
    (s : CatalogStats) (at : ℕ) (v : SourceState) → (replaced s at v).source_id ≡ v.source_id
unfolding replaced
replaced-source s at v = refl

replaced-idle :
    (s : CatalogStats) (at : ℕ) (v : SourceState) → busy (replaced s at v) ≡ true → busy v ≡ true
unfolding replaced busy
replaced-idle s at v h = h

pub replace_catalog-Exclusive :
    (source path : Text) (rebuild : List CatalogEntry) (s : CatalogStats) (at : ℕ) (db : Database)
    → Exclusive db
    → Ensures Exclusive (replace_catalog true source path rebuild s at db)
unfolding replace_catalog with_catalog
replace_catalog-Exclusive source path rebuild s at db x = after_check _ _ _ λ _.
    after_call _ _ λ _ _. after_check _ _ _ λ _. after_check _ _ _ λ _. after_found _ _ λ _ _.
      after_check _ _ _ λ _. after_check _ _ _ λ _. after_check _ _ _ λ _. after_check _ _ _ λ _.
        let moved : Exclusive
            (record db { states = modify (idle_state source) (replaced s at) db.states }) =
          set-Exclusive (replaced s at) (replaced-source s at) (idle_state source) db x (λ sid.
            clear-apart (replaced s at) (replaced-source s at) (idle_state source) db sid x
              (λ v _ h. replaced-idle s at v h)) in
        returns _ (
          elsewhere (record db { states = modify (idle_state source) (replaced s at) db.states }) _
            _ _ _ moved)
