-- ===== src/Database/Register/Repeats.antt =====
-- RegisterImportBundle of internal/storage/sqlite/server_import_registration.go, called again with the
-- same request.
use mathlib.Core.Path.{subst}
use airgap_mirror.Prelude.{
  ℕ, ◌≡◌, refl, sym, ap, ◌∙◌, Bool, true, false, not, ◌&&◌, List, ◌∷◌, some, beq, beq_refl, beq_eq,
  Option-cases, inl, inr, arith, ◌==◌, ==_eq, ==_refl, not-eq_false, length,
}
use airgap_mirror.Prelude.Tables.{find, modify, find-modify}
use airgap_mirror.Domain.Status.{Text}
use airgap_mirror.Domain.Types.{
  SourceState, Pack, BatchDescriptor, ImportSession, ImportPack, cursor_equal,
}
use airgap_mirror.Domain.Result.{
  ok, found, check, ◌>>=◌, ◌>>◌, Ensures, returns, after_check, after_found, after_call,
}
use airgap_mirror.Store.{get_import_session_by_request}
use airgap_mirror.Database.{Database}
use airgap_mirror.Database.Sources.{state_of, busy}
use airgap_mirror.Database.Epochs.{with_packs}
use airgap_mirror.Database.Register.{
  bundle_schema_version, register_epoch, register_batch, register_packs, other_bundle, session_row,
  activate, open_session, register_session, bad_descriptor, register_import_bundle,
}
use airgap_mirror.Database.Register.Steps.{epoch-Done, batch-Done}
use airgap_mirror.Database.Register.Packs.{packs_again}

-- The tables after a registration, as far as the next one reads them.
record Settled (fk : Bool) (d : BatchDescriptor) (request : Text) (out : ImportSession)
    (t : Database) : Type 0 where
  state : SourceState
  there : find (state_of d.source_id) t.states ≡ some state
  cursor : not (cursor_equal state.live_cursor d.base_cursor) ≡ false
  free : (busy state && not (beq state.active_epoch_id d.epoch_id)) ≡ false
  epoch : register_epoch fk d t ≡ ok t
  batch : register_batch fk d t ≡ ok t
  packs : register_packs d d.packs t.store.packs ≡ ok t.store.packs
  session : get_import_session_by_request request t.store ≡ some (session_row d out)

row-agrees : (d : BatchDescriptor) (v : ImportSession) → other_bundle (session_row d v) d ≡ false
unfolding other_bundle session_row
row-agrees d v =
    rw
      (
        beq_refl d.source_id,
        beq_refl d.epoch_id,
        beq_refl d.batch_id,
        ==_refl d.manifest_size,
        beq_refl d.manifest_sha256,
      )
      refl

same-packs : (t : Database) → with_packs t.store.packs t ≡ t
unfolding with_packs
same-packs t = refl

resume :
    (fk : Bool) (d : BatchDescriptor) (v out : ImportSession) (packs : List ImportPack)
    (t : Database)
    → Settled fk d v.request_id out t
    → register_session fk d v packs t ≡ ok (session_row d out, t)
unfolding register_session check ◌>>◌ ◌>>=◌
resume fk d v out packs t s = rw (register_session, s.session) (rw (row-agrees d out) refl)

Settled-accepts :
    (fk : Bool) (d : BatchDescriptor) (v out : ImportSession) (packs : List ImportPack)
    (t : Database)
    → (d.schema_version == bundle_schema_version) ≡ true
    → bad_descriptor d ≡ false
    → length d.packs ≡ length packs
    → Settled fk d v.request_id out t
    → register_import_bundle fk d v packs t ≡ ok (session_row d out, t)
unfolding register_import_bundle check ◌>>◌ ◌>>=◌ found
Settled-accepts fk d v out packs t schema good same s =
    rw (schema, good, ap (λ n. n == length packs) same ∙ ==_refl (length packs), s.there)
      (rw (s.cursor, s.free)
        (rw (s.epoch, ◌>>=◌)
          (rw (s.batch, ◌>>=◌)
            (rw (s.packs, ◌>>=◌) (rw (same-packs t) (resume fk d v out packs t s))))))

-- What the last part of the registration leaves, from tables where the state of the source is found.
record Kept (d : BatchDescriptor) (request : Text) (db : Database) (r : ImportSession × Database)
    : Type 0 where
  state : SourceState
  there : find (state_of d.source_id) r.1.states ≡ some state
  cursor : not (cursor_equal state.live_cursor d.base_cursor) ≡ false
  free : (busy state && not (beq state.active_epoch_id d.epoch_id)) ≡ false
  epochs : r.1.epochs ≡ db.epochs
  batches : r.1.batches ≡ db.batches
  packs : r.1.store.packs ≡ db.store.packs
  session : get_import_session_by_request request r.1.store ≡ some (session_row d r.0)

-- A row of import_sessions that agrees with the bundle is the row that the bundle would write.
row-same :
    (d : BatchDescriptor) (v : ImportSession) → other_bundle v d ≡ false → v ≡ session_row d v
unfolding other_bundle session_row
row-same d v h =
    let source : v.source_id ≡ d.source_id = beq_eq v.source_id d.source_id (ground arith) in
    let epoch : v.epoch_id ≡ d.epoch_id = beq_eq v.epoch_id d.epoch_id (ground arith) in
    let batch : v.batch_id ≡ d.batch_id = beq_eq v.batch_id d.batch_id (ground arith) in
    let size : v.manifest_size ≡ d.manifest_size =
      ==_eq v.manifest_size d.manifest_size (ground arith) in
    let sha : v.manifest_sha256 ≡ d.manifest_sha256 =
      beq_eq v.manifest_sha256 d.manifest_sha256 (ground arith) in
    λ i. record v {
      source_id = source i;
      epoch_id = epoch i;
      batch_id = batch i;
      manifest_size = size i;
      manifest_sha256 = sha i;
    }

active-free :
    (id : Text) (at : ℕ) (v : SourceState)
    → (busy (activate id at v) && not (beq (activate id at v).active_epoch_id id)) ≡ false
unfolding activate busy
active-free id at v = rw (beq_refl id) (ground arith)

active-found :
    (source id : Text) (at : ℕ) (states : List SourceState) (v : SourceState)
    → find (state_of source) states ≡ some v
    → find (state_of source) (modify (state_of source) (activate id at) states)
      ≡ some (activate id at v)
unfolding state_of activate
active-found source id at states v h =
    find-modify (state_of source) (activate id at) states v (λ x. refl) h

new-session-found :
    (d : BatchDescriptor) (v : ImportSession) (sessions : List ImportSession)
    → find (λ x. beq x.request_id v.request_id) (session_row d v ∷ sessions)
      ≡ some (session_row d v)
unfolding find session_row
new-session-found d v sessions = rw (beq_refl v.request_id) refl

module _ (fk : Bool) (d : BatchDescriptor) (v : ImportSession) (ips : List ImportPack)
    (db : Database) (st : SourceState) (stored : find (state_of d.source_id) db.states ≡ some st)
    (live : not (cursor_equal st.live_cursor d.base_cursor) ≡ false)
    (idle : (busy st && not (beq st.active_epoch_id d.epoch_id)) ≡ false) where
  open-Kept : Ensures (Kept d v.request_id db) (open_session fk d v ips db)
  unfolding open_session get_import_session_by_request
  open-Kept = after_check _ _ _ λ _. after_check _ _ _ λ _. after_call _ _ λ table _.
      after_check _ _ _ λ _. returns _ (record {
        state = activate d.epoch_id v.updated_at st;
        there = active-found d.source_id d.epoch_id v.updated_at db.states st stored;
        cursor = unfold activate in live;
        free = active-free d.epoch_id v.updated_at st;
        epochs = refl;
        batches = refl;
        packs = refl;
        session = new-session-found d v db.store.sessions;
      })

  session-Kept : Ensures (Kept d v.request_id db) (register_session fk d v ips db)
  unfolding register_session
  session-Kept = elim (Option-cases (get_import_session_by_request v.request_id db.store)) [
    | inl e ↦ rw (register_session, e) open-Kept
    | inr r ↦
        rw (register_session, r.1)
          (after_check _ _ _ λ same. returns _ (record {
            state = st;
            there = stored;
            cursor = live;
            free = idle;
            epochs = refl;
            batches = refl;
            packs = refl;
            session = r.1 ∙ ap some (row-same d r.0 same);
          }))
  ]

settle :
    (fk : Bool) (d : BatchDescriptor) (v : ImportSession) (ips : List ImportPack) (db : Database)
    → Ensures
        (λ r.
          ((d.schema_version == bundle_schema_version) ≡ true)
          × (bad_descriptor d ≡ false)
          × Settled fk d v.request_id r.0 r.1)
        (register_import_bundle fk d v ips db)
unfolding register_import_bundle
settle fk d v ips db = after_check _ _ _ λ schema. after_check _ _ _ λ good. after_check _ _ _ λ _.
    after_found _ _ λ st stored. after_check _ _ _ λ live. after_check _ _ _ λ idle.
      after_call _ _ λ db1 e1. after_call _ _ λ db2 e2. after_call _ _ λ rows e3. record {
        holds = λ r h.
            let one = (epoch-Done fk d db).holds db1 e1 in
            let two = (batch-Done fk d db1).holds db2 e2 in
            let k =
              (session-Kept fk d v ips (with_packs rows db2) st
                  (states-of rows db2
                    ∙ ap (find (state_of d.source_id)) (two.states ∙ one.states)
                    ∙ stored)
                  live idle).holds
                r h in
            (
              not-eq_false _ schema,
              good,
              record {
                state = k.state;
                there = k.there;
                cursor = k.cursor;
                free = k.free;
                epoch = one.again r.1 (k.epochs ∙ epochs-of rows db2 ∙ two.epochs);
                batch = two.again r.1 (k.batches ∙ batches-of rows db2);
                packs = rw (k.packs ∙ rows-of rows db2) (packs_again d db2.store.packs rows e3);
                session = k.session;
              },
            );
      }
  where
    states-of :
        (rows : List Pack) (t : Database)
        → find (state_of d.source_id) (with_packs rows t).states
          ≡ find (state_of d.source_id) t.states
    states-of rows t = unfold with_packs in refl

    epochs-of : (rows : List Pack) (t : Database) → (with_packs rows t).epochs ≡ t.epochs
    epochs-of rows t = unfold with_packs in refl

    batches-of : (rows : List Pack) (t : Database) → (with_packs rows t).batches ≡ t.batches
    batches-of rows t = unfold with_packs in refl

    rows-of : (rows : List Pack) (t : Database) → (with_packs rows t).store.packs ≡ rows
    rows-of rows t = unfold with_packs in refl

-- After RegisterImportBundle has taken a bundle, a call with the same descriptor and request id, and as
-- many packs as the descriptor has, succeeds again, whatever else its session holds; it returns the
-- session of the first call with the bundle's identities, and changes no table.
pub register_repeats :
    (fk : Bool) (d : BatchDescriptor) (v w out : ImportSession) (ips jps : List ImportPack)
    (db t : Database)
    → register_import_bundle fk d v ips db ≡ ok (out, t)
    → w.request_id ≡ v.request_id
    → length d.packs ≡ length jps
    → register_import_bundle fk d w jps t ≡ ok (session_row d out, t)
register_repeats fk d v w out ips jps db t h same many =
    let (schema, good, s) = (settle fk d v ips db).holds (out, t) h in
    Settled-accepts fk d w out jps t schema good many
      (subst (λ q. Settled fk d q out t) (sym same) s)
