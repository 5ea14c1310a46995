-- ===== src/Database/Completion.antt =====
-- When CompleteEpoch of internal/storage/sqlite/server_epoch_complete.go succeeds, and what it does.
use airgap_mirror.Prelude.{
  ℕ, ◌≤◌, ◌+◌, ◌≡◌, refl, true, false, not, ◌&&◌, ◌||◌, List, [], Option, none, some, beq, beq_eq,
  &&-true, arith, ◌==◌, ==_eq, not-eq_false,
}
use airgap_mirror.Prelude.Tables.{
  find, find-sat, modify, count, find_wider, find-modify_wider, find-modify, count-find,
}
use airgap_mirror.Domain.Status.{Text, EpochStatus, epoch_eq-eq}
use airgap_mirror.Domain.Types.{SourceState, Epoch, CatalogStats, Cursor}
use airgap_mirror.Domain.Result.{ok, found, Ensures, returns, after_check, after_found}
use airgap_mirror.Database.{Database}
use airgap_mirror.Database.Sources.{state_of, get_state}
use airgap_mirror.Database.Epochs.{
  is_epoch, get_epoch, count_imported_batches, count_published_units, holds_epoch, advance,
  finish_epoch, complete_epoch,
}

-- What CompleteEpoch asks of the tables.
pub record Completable (id : Text) (db : Database) (e : Epoch) : Type 0 where
  pub stored : get_epoch id db ≡ ok e
  pub published : e.status ≡ EpochStatus.published
  pub batches : count_imported_batches id db ≡ e.total_batches
  pub units : count_published_units id db ≡ e.publish_unit_count
  pub active : count (holds_epoch e.source_id id) db.states ≡ 1

-- The rows of the epoch and of its source's state afterwards.
pub record Advanced (id : Text) (s : CatalogStats) (at : ℕ) (db t : Database) : Type 0 where
  pub epoch : Epoch
  pub ready : Completable id db epoch
  pub ended : Epoch
  pub stored : get_epoch id t ≡ ok ended
  pub complete : (ended.status ≡ EpochStatus.complete) × (ended.completed_at ≡ some at)
  pub state : SourceState
  pub before : get_state epoch.source_id db ≡ ok state
  pub held : state.active_epoch_id ≡ id
  pub moved : SourceState
  pub after : get_state epoch.source_id t ≡ ok moved
  pub cursor : moved.live_cursor ≡ epoch.target_cursor
  pub version : moved.catalog_version ≡ state.catalog_version + 1
  pub totals : (moved.live_bytes ≡ s.bytes) × (moved.live_objects ≡ s.objects)
  pub idle : moved.active_epoch_id ≡ []

holds-state :
    (source id : Text) (v : SourceState) → holds_epoch source id v ≡ true → state_of source v ≡ true
unfolding holds_epoch
holds-state source id v h =
    (&&-true (state_of source v) (not (beq v.active_epoch_id []))
      (&&-true _ (beq v.active_epoch_id id) h).0).0

holds-id :
    (source id : Text) (v : SourceState) → holds_epoch source id v ≡ true → v.active_epoch_id ≡ id
unfolding holds_epoch
holds-id source id v h =
    beq_eq v.active_epoch_id id
      (&&-true (state_of source v && not (beq v.active_epoch_id [])) (beq v.active_epoch_id id) h).1

or_not : (a b c d : ℕ) → (not (a == b) || not (c == d)) ≡ false → (a ≡ b) × (c ≡ d)
or_not a b c d h = ground arith

finished-epoch :
    (id : Text) (at : ℕ) (e : Epoch) (epochs : List Epoch)
    → find (is_epoch id) epochs ≡ some e
    → find (is_epoch id) (modify (is_epoch id) (finish_epoch at) epochs) ≡ some (finish_epoch at e)
unfolding is_epoch finish_epoch
finished-epoch id at e epochs h = find-modify (is_epoch id) (finish_epoch at) epochs e (λ x. refl) h

advanced-state :
    (source id : Text) (c : Cursor) (s : CatalogStats) (at : ℕ) (states : List SourceState)
    (v : SourceState)
    → count (state_of source) states ≤ 1
    → find (holds_epoch source id) states ≡ some v
    → find (state_of source) (modify (holds_epoch source id) (advance c s at) states)
      ≡ some (advance c s at v)
unfolding state_of advance
advanced-state source id c s at states v one h =
    find-modify_wider (state_of source) (holds_epoch source id) (advance c s at) states v
      (holds-state source id) (λ x. refl) one h

found-some {ℓ} : {A : Type ℓ} (o : Option A) (a : A) → found o ≡ ok a → o ≡ some a
unfolding found
found-some none a h = absurd (cc h)
found-some (some b) a h = cc h

get-found :
    (id : Text) (db : Database) (e : Epoch)
    → find (is_epoch id) db.epochs ≡ some e
    → get_epoch id db ≡ ok e
unfolding get_epoch found
get-found id db e h = rw h refl

advanced :
    (id : Text) (s : CatalogStats) (at : ℕ) (db : Database) (e : Epoch)
    → ((sid : Text) → count (state_of sid) db.states ≤ 1)
    → Completable id db e
    → Advanced id s at db (record db {
      epochs = modify (is_epoch id) (finish_epoch at) db.epochs;
      states = modify (holds_epoch e.source_id id) (advance e.target_cursor s at) db.states;
    })
unfolding get_epoch get_state found finish_epoch advance
advanced id s at db e one c =
    let (v, h) = count-find (holds_epoch e.source_id id) db.states (omega (arith, c.active)) in
    record {
      epoch = e;
      ready = c;
      ended = finish_epoch at e;
      stored =
          rw
            (finished-epoch id at e db.epochs
              (found-some (find (is_epoch id) db.epochs) e c.stored))
            refl;
      complete = (refl, refl);
      state = v;
      moved = advance e.target_cursor s at v;
      cursor = refl;
      version = refl;
      totals = (refl, refl);
      idle = refl;
      before =
          rw
            (find_wider (state_of e.source_id) (holds_epoch e.source_id id) db.states v
              (holds-state e.source_id id) (one e.source_id) h)
            refl;
      held = holds-id e.source_id id v (find-sat (holds_epoch e.source_id id) db.states v h);
      after =
          rw (advanced-state e.source_id id e.target_cursor s at db.states v (one e.source_id) h)
            refl;
    }

ensured :
    (id : Text) (s : CatalogStats) (at : ℕ) (db : Database)
    → ((sid : Text) → count (state_of sid) db.states ≤ 1)
    → Ensures (Advanced id s at db) (complete_epoch id s at db)
unfolding complete_epoch
ensured id s at db one = after_found _ _ λ e stored. after_check _ _ _ λ published.
    after_check _ _ _ λ counts. after_check _ _ _ λ active.
      let (batches, units) = or_not _ _ _ _ counts in
      returns _ (
        advanced id s at db e one (record {
          stored = get-found id db e stored;
          published = epoch_eq-eq e.status EpochStatus.published (not-eq_false _ published);
          batches = batches;
          units = units;
          active = ==_eq _ _ (not-eq_false _ active);
        }))

-- Where source_states has at most one row for a source, CompleteEpoch, if it succeeds, has found the
-- epoch PUBLISHED, as many batches of it imported and units published as it declares, and its source
-- active in it; it makes the epoch COMPLETE, and the state of the source has the target cursor, the
-- next catalog version, the given statistics and no active epoch.
pub complete_epoch-Advanced :
    (id : Text) (s : CatalogStats) (at : ℕ) (db t : Database)
    → ((sid : Text) → count (state_of sid) db.states ≤ 1)
    → complete_epoch id s at db ≡ ok t
    → Advanced id s at db t
complete_epoch-Advanced id s at db t one h = (ensured id s at db one).holds t h
