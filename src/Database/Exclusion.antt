-- ===== src/Database/Exclusion.antt =====
-- Maintenance and epochs exclude each other, by the queries and the triggers of
-- internal/storage/sqlite/maintenance_schema.sql: the invariant, and that the queries on sources and on
-- maintenance jobs keep it.
pub mod Jobs
pub mod Imports
pub mod Bundles
pub mod Runs
use airgap_mirror.Prelude.{
  ℕ, ◌+◌, ◌≤◌, ◌≡◌, refl, sym, ap, ◌∙◌, Bool, true, false, not, ◌&&◌, ◌||◌, List, [], ◌∷◌, Option,
  none, some, beq, beq_refl, beq_eq, Bool-cases, &&-true, inl, inr, arith, if◌then◌else◌, ◌⊎◌,
}
use airgap_mirror.Prelude.Tables.{
  modify, affects, count, count-modify_le, count-modify, count-zero, count_pos, count-le,
}
use airgap_mirror.Domain.Status.{Text, MaintenanceStatus}
use airgap_mirror.Domain.Types.{Source, SourceState, MaintenanceJob}
use airgap_mirror.Domain.Transitions.{Err}
use airgap_mirror.Domain.Result.{
  Result, Ensures, returns, after_check, after_found, after_pass, after_call,
}
use airgap_mirror.Database.{Database}
use airgap_mirror.Database.Sources.{
  is_source, state_of, busy, active_state, is_active, active_job, initial_state, create_source,
  set_source, update_source, set_state, epoch_blocked, put_state,
}

-- For each source: at most one row of its state, none without the source, no active job without it, and
-- of active jobs and states with an active epoch at most one together.
pub record Exclusive (db : Database) : Type 0 where
  pub one_state : (sid : Text) → count (state_of sid) db.states ≤ 1
  pub stated : (sid : Text) → count (is_source sid) db.sources ≤ count (state_of sid) db.states
  pub known : (sid : Text) → count (active_job sid) db.jobs ≤ count (is_source sid) db.sources
  pub apart : (sid : Text) → count (active_job sid) db.jobs + count (active_state sid) db.states ≤ 1

create-one_state :
    (v : Source) (states : List SourceState) (sid : Text)
    → affects (state_of v.id) states ≡ false
    → count (state_of sid) states ≤ 1
    → count (state_of sid) (initial_state v ∷ states) ≤ 1
unfolding count initial_state state_of
create-one_state v states sid = elim (Bool-cases (beq v.id sid)) [
  | inl e ↦
      rw (beq_eq v.id sid e, beq_refl sid)
        (λ h k. omega (arith, count-zero (state_of sid) states h))
  | inr e ↦ rw e (λ h k. omega arith)
]

create-stated :
    (v : Source) (db : Database) (sid : Text)
    → count (is_source sid) db.sources ≤ count (state_of sid) db.states
    → count (is_source sid) (v ∷ db.sources) ≤ count (state_of sid) (initial_state v ∷ db.states)
unfolding count initial_state state_of is_source
create-stated v db sid h = omega arith

idle-apart :
    (v : Source) (states : List SourceState) (sid : Text)
    → count (active_state sid) (initial_state v ∷ states) ≡ count (active_state sid) states
unfolding count initial_state active_state beq
idle-apart v states sid = elim (Bool-cases (beq v.id sid)) [
  | inl e ↦ rw e (omega arith)
  | inr e ↦ rw e (omega arith)
]

more-known :
    (v : Source) (sources : List Source) (sid : Text)
    → count (is_source sid) sources ≤ count (is_source sid) (v ∷ sources)
unfolding count
more-known v sources sid = omega arith

pub create_source-Exclusive :
    (v : Source) (db : Database) → Exclusive db → Ensures Exclusive (create_source v db)
unfolding create_source
create_source-Exclusive v db x = after_check _ _ _ λ new. after_check _ _ _ λ fresh.
    returns _ (record {
      one_state = λ sid. create-one_state v db.states sid fresh (x.one_state sid);
      stated = λ sid. create-stated v db sid (x.stated sid);
      known = λ sid. omega (arith, x.known sid, more-known v db.sources sid);
      apart = λ sid. omega (arith, x.apart sid, idle-apart v db.states sid);
    })

update_source-stays :
    (p : Source → Bool) (v : Source) (sources : List Source) (sid : Text)
    → count (is_source sid) (modify p (set_source v) sources) ≡ count (is_source sid) sources
unfolding set_source is_source
update_source-stays p v sources sid =
    count-modify (is_source sid) p (set_source v) sources (λ x. refl)

pub update_source-Exclusive :
    (v : Source) (db : Database) → Exclusive db → Ensures Exclusive (update_source v db)
unfolding update_source
update_source-Exclusive v db x = after_found _ _ λ old _. after_found _ _ λ st _.
    after_check _ _ _ λ _. after_check _ _ _ λ _. returns _ (record {
      one_state = x.one_state;
      stated =
          λ sid. omega (arith, x.stated sid, update_source-stays (is_source v.id) v db.sources sid);
      known =
          λ sid. omega (arith, x.known sid, update_source-stays (is_source v.id) v db.sources sid);
      apart = x.apart;
    })

active-of : (sid : Text) (v : SourceState) → active_state sid v ≡ true → state_of sid v ≡ true
unfolding active_state
active-of sid v h = (&&-true (state_of sid v) (busy v) h).0

active-source : (sid : Text) (v : SourceState) → active_state sid v ≡ true → v.source_id ≡ sid
unfolding state_of
active-source sid v h = beq_eq v.source_id sid (active-of sid v h)

clash :
    (id sid : Text) (v : SourceState)
    → beq id sid ≡ false
    → state_of id v ≡ true
    → v.source_id ≡ sid
    → ⊥
unfolding state_of
clash id sid v e h k = cc (beq_eq v.source_id id h, beq_refl sid)

-- An update of the row of a source that changes no source_id.
module _ (f : SourceState → SourceState)
    (same : (v : SourceState) → (f v).source_id ≡ v.source_id) where
  pub state-stays :
      (p : SourceState → Bool) (states : List SourceState) (sid : Text)
      → count (state_of sid) (modify p f states) ≡ count (state_of sid) states
  unfolding state_of
  state-stays p states sid =
      count-modify (state_of sid) p f states (λ v. ap (λ t. beq t sid) (same v))

  -- While no job of the source is active, its row may become active.
  pub set-apart :
      (id : Text) (p : SourceState → Bool) (db : Database) (sid : Text)
      → ((v : SourceState) → p v ≡ true → state_of id v ≡ true)
      → Exclusive db
      → affects (active_job id) db.jobs ≡ false
      → count (active_job sid) db.jobs + count (active_state sid) (modify p f db.states) ≤ 1
  set-apart id p db sid of_id x free = elim (Bool-cases (beq id sid)) [
    | inl e ↦ own (beq_eq id sid e)
    | inr e ↦ omega (arith, x.apart sid, others e)
  ]
    where
      own :
          id ≡ sid
          → count (active_job sid) db.jobs + count (active_state sid) (modify p f db.states) ≤ 1
      own e =
          let h : count (active_job sid) db.jobs ≡ 0 =
            count-zero (active_job sid) db.jobs
              (ap (λ t. affects (active_job t) db.jobs) (sym e) ∙ free) in
          omega (
            arith,
            h,
            x.one_state sid,
            state-stays p db.states sid,
            count-le (active_state sid) (state_of sid) (modify p f db.states) (active-of sid),
          )

      others :
          beq id sid ≡ false
          → count (active_state sid) (modify p f db.states) ≤ count (active_state sid) db.states
      others e =
          count-modify_le (active_state sid) p (active_state sid) f db.states
            (λ v h k.
              absurd (clash id sid v e (of_id v h) (sym (same v) ∙ active-source sid (f v) k)))
            (λ v h k. k)

  -- Where the update leaves no epoch active, or the row had one, no more rows are active.
  pub clear-apart :
      (p : SourceState → Bool) (db : Database) (sid : Text)
      → Exclusive db
      → ((v : SourceState) → p v ≡ true → busy (f v) ≡ true → busy v ≡ true)
      → count (active_job sid) db.jobs + count (active_state sid) (modify p f db.states) ≤ 1
  unfolding active_state state_of
  clear-apart p db sid x idle = omega (arith, x.apart sid, fewer)
    where
      fewer : count (active_state sid) (modify p f db.states) ≤ count (active_state sid) db.states
      fewer =
          count-modify_le (active_state sid) p (active_state sid) f db.states
            (λ v h k.
              let (a, b) = &&-true (state_of sid (f v)) (busy (f v)) k in
              rw (sym (ap (λ t. beq t sid) (same v)) ∙ a, idle v h b) refl)
            (λ v h k. k)

  -- The invariant after such an update.
  pub set-Exclusive :
      (p : SourceState → Bool) (db : Database)
      → Exclusive db
      → ((sid : Text)
          → count (active_job sid) db.jobs + count (active_state sid) (modify p f db.states) ≤ 1)
      → Exclusive (record db { states = modify p f db.states })
  set-Exclusive p db x h = record {
    one_state = λ sid. omega (arith, x.one_state sid, state-stays p db.states sid);
    stated = λ sid. omega (arith, x.stated sid, state-stays p db.states sid);
    known = x.known;
    apart = h;
  }

pub blocked-false :
    (id epoch : Text) (db : Database)
    → epoch_blocked id epoch db ≡ false
    → (epoch ≡ []) ⊎ (affects (active_job id) db.jobs ≡ false)
unfolding epoch_blocked affects beq
blocked-false id [] db h = inl refl
blocked-false id (c ∷ t) db h = inr h

put-source : (v x : SourceState) → (set_state v x).source_id ≡ x.source_id
unfolding set_state
put-source v x = refl

put-idle :
    (v x : SourceState) → v.active_epoch_id ≡ [] → busy (set_state v x) ≡ true → busy x ≡ true
unfolding set_state busy beq
put-idle v x e = rw e (λ h. absurd (cc h))

put-apart :
    (v : SourceState) (db : Database) (sid : Text)
    → Exclusive db
    → epoch_blocked v.source_id v.active_epoch_id db ≡ false
    → count (active_job sid) db.jobs
        + count (active_state sid) (modify (state_of v.source_id) (set_state v) db.states)
      ≤ 1
put-apart v db sid x h = elim (blocked-false v.source_id v.active_epoch_id db h) [
  | inl e ↦
      clear-apart (set_state v) (put-source v) (state_of v.source_id) db sid x
        (λ y _. put-idle v y e)
  | inr e ↦
      set-apart (set_state v) (put-source v) v.source_id (state_of v.source_id) db sid (λ y k. k) x
        e
]

-- Where every source has a row of its state, the INSERT of PutState is refused.
unstated :
    (id : Text) (db : Database)
    → Exclusive db
    → affects (state_of id) db.states ≡ false
    → affects (is_source id) db.sources ≡ false
unstated id db x h = elim (Bool-cases (affects (is_source id) db.sources)) [
  | inl e ↦ absurd (
      omega (
        arith,
        x.stated id,
        count_pos (is_source id) db.sources e,
        count-zero (state_of id) db.states h,
      ))
  | inr e ↦ e
]

pub put_state-Exclusive :
    (v : SourceState) (db : Database) → Exclusive db → Ensures Exclusive (put_state true v db)
unfolding put_state
put_state-Exclusive v db x = elim (Bool-cases (affects (state_of v.source_id) db.states)) [
  | inl e ↦ rw e (
      after_check _ _ _ λ free. returns _ (
        set-Exclusive (set_state v) (put-source v) (state_of v.source_id) db x
          (λ sid. put-apart v db sid x free)))
  | inr e ↦ rw (e, unstated v.source_id db x e) (after_check _ _ _ λ h. absurd (cc h))
]
