-- ===== src/Database/Exclusion/Jobs.antt =====
-- The queries of internal/storage/sqlite/server_maintenance.go and server_maintenance_recovery.go keep
-- maintenance and epochs apart, and a recovery leaves no active job.
use airgap_mirror.Prelude.{
  ℕ, ◌+◌, ◌≤◌, ◌≡◌, refl, ap, ◌∙◌, Bool, true, false, ◌||◌, List, ◌∷◌, none, beq, beq_refl, beq_eq,
  Bool-cases, &&-true, inl, inr, arith, not-eq_false,
}
use airgap_mirror.Prelude.Tables.{modify, affects, count, count-modify_le, count-zero, count_pos}
use airgap_mirror.Domain.Status.{Text, MaintenanceStatus, maintenance_eq, maintenance_eq-eq}
use airgap_mirror.Domain.Types.{MaintenanceJob}
use airgap_mirror.Domain.Transitions.{validate_maintenance_transition}
use airgap_mirror.Domain.Result.{Ensures, returns, after_check, after_found, after_pass}
use airgap_mirror.Database.{Database}
use airgap_mirror.Database.Sources.{is_source, active_state, is_active, active_job}
use airgap_mirror.Database.Jobs.{
  Progress, is_job, new_job, create_maintenance_job, set_status, job_in, transition_maintenance_job,
  set_progress, update_maintenance_progress, set_catalog_path, set_maintenance_catalog_path,
  interrupt, recover_interrupted,
}
use airgap_mirror.Database.Exclusion.{Exclusive}

||-false : (a b : Bool) → (a || b) ≡ false → (a ≡ false) × (b ≡ false)
||-false a b h = ground arith

new-known :
    (j : MaintenanceJob) (db : Database) (sid : Text)
    → affects (active_job j.source_id) db.jobs ≡ false
    → affects (is_source j.source_id) db.sources ≡ true
    → count (active_job sid) db.jobs ≤ count (is_source sid) db.sources
    → count (active_job sid) (new_job j ∷ db.jobs) ≤ count (is_source sid) db.sources
unfolding count new_job active_job
new-known j db sid = elim (Bool-cases (beq j.source_id sid)) [
  | inl e ↦
      rw (beq_eq j.source_id sid e, beq_refl sid)
        (λ free source k. elim (Bool-cases (is_active j.status)) [
          | inl a ↦ rw a (
              omega (
                arith,
                count-zero (active_job sid) db.jobs free,
                count_pos (is_source sid) db.sources source,
              ))
          | inr a ↦ rw a (omega arith)
        ])
  | inr e ↦ rw e (λ free source k. omega arith)
]

new-apart :
    (j : MaintenanceJob) (db : Database) (sid : Text)
    → affects (active_job j.source_id) db.jobs ≡ false
    → affects (active_state j.source_id) db.states ≡ false
    → count (active_job sid) db.jobs + count (active_state sid) db.states ≤ 1
    → count (active_job sid) (new_job j ∷ db.jobs) + count (active_state sid) db.states ≤ 1
unfolding count new_job active_job
new-apart j db sid = elim (Bool-cases (beq j.source_id sid)) [
  | inl e ↦
      rw (beq_eq j.source_id sid e, beq_refl sid)
        (λ free idle k. elim (Bool-cases (is_active j.status)) [
          | inl a ↦ rw a (
              omega (
                arith,
                count-zero (active_job sid) db.jobs free,
                count-zero (active_state sid) db.states idle,
              ))
          | inr a ↦ rw a (omega arith)
        ])
  | inr e ↦ rw e (λ free idle k. omega arith)
]

pub create_job-Exclusive :
    (j : MaintenanceJob) (db : Database)
    → Exclusive db
    → Ensures Exclusive (create_maintenance_job true j db)
unfolding create_maintenance_job
create_job-Exclusive j db x = after_check _ _ _ λ _. after_check _ _ _ λ _. after_check _ _ _ λ _.
    after_check _ _ _ λ _. after_check _ _ _ λ idle. after_check _ _ _ λ fresh.
      after_check _ _ _ λ source.
        let free =
          (||-false (affects (is_job j.id) db.jobs) (affects (active_job j.source_id) db.jobs)
            fresh).1 in
        returns _ (record {
          one_state = x.one_state;
          stated = x.stated;
          known = λ sid.
              new-known j db sid free
                (not-eq_false (affects (is_source j.source_id) db.sources) source) (x.known sid);
          apart = λ sid. new-apart j db sid free idle (x.apart sid);
        })

-- An update that makes no job active.
module _ (f : MaintenanceJob → MaintenanceJob) (p : MaintenanceJob → Bool)
    (fewer : (sid : Text) (j : MaintenanceJob)
      → p j ≡ true
      → active_job sid (f j) ≡ true
      → active_job sid j ≡ true) where
  fewer-jobs :
      (jobs : List MaintenanceJob) (sid : Text)
      → count (active_job sid) (modify p f jobs) ≤ count (active_job sid) jobs
  fewer-jobs jobs sid =
      count-modify_le (active_job sid) p (active_job sid) f jobs (fewer sid) (λ j h k. k)

  update-Exclusive :
      (db : Database) → Exclusive db → Exclusive (record db { jobs = modify p f db.jobs })
  update-Exclusive db x = record {
    one_state = x.one_state;
    stated = x.stated;
    known = λ sid. omega (arith, x.known sid, fewer-jobs db.jobs sid);
    apart = λ sid. omega (arith, x.apart sid, fewer-jobs db.jobs sid);
  }

valid-active :
    (from to : MaintenanceStatus)
    → validate_maintenance_transition from to ≡ none
    → is_active from ≡ true
unfolding validate_maintenance_transition is_active
valid-active MaintenanceStatus.queued to h = refl
valid-active MaintenanceStatus.running to h = refl
valid-active MaintenanceStatus.completed to h = absurd (cc h)
valid-active MaintenanceStatus.failed to h = absurd (cc h)
valid-active MaintenanceStatus.cancelled to h = absurd (cc h)
valid-active (MaintenanceStatus.other t) to h = absurd (cc h)

was-active :
    (id : Text) (from to : MaintenanceStatus) (msg : Text) (at : ℕ) (sid : Text)
    (j : MaintenanceJob)
    → is_active from ≡ true
    → job_in id from j ≡ true
    → active_job sid (set_status to msg at j) ≡ true
    → active_job sid j ≡ true
unfolding active_job job_in set_status
was-active id from to msg at sid j a h k =
    let same : is_active j.status ≡ true =
      ap is_active
        (maintenance_eq-eq j.status from (&&-true (is_job id j) (maintenance_eq j.status from) h).1)
      ∙ a in
    rw ((&&-true (beq j.source_id sid) (is_active to) k).0, same) refl

pub transition_job-Exclusive :
    (id : Text) (to : MaintenanceStatus) (msg : Text) (at : ℕ) (db : Database)
    → Exclusive db
    → Ensures Exclusive (transition_maintenance_job id to msg at db)
unfolding transition_maintenance_job
transition_job-Exclusive id to msg at db x = after_found _ _ λ j _. after_pass _ _ λ valid.
    after_check _ _ _ λ _. returns _ (
      update-Exclusive (set_status to msg at) (job_in id j.status)
        (λ sid v h k. was-active id j.status to msg at sid v (valid-active j.status to valid) h k)
        db x)

pub progress-Exclusive :
    (id : Text) (p : Progress) (db : Database)
    → Exclusive db
    → Ensures Exclusive (update_maintenance_progress id p db)
unfolding update_maintenance_progress set_progress active_job
progress-Exclusive id p db x = after_check _ _ _ λ _. after_check _ _ _ λ _.
    returns _ (
      update-Exclusive (set_progress p) (job_in id MaintenanceStatus.running) (λ sid v h k. k) db x)

pub catalog_path-Exclusive :
    (trim : Text → Text) (id path : Text) (db : Database)
    → Exclusive db
    → Ensures Exclusive (set_maintenance_catalog_path trim id path db)
unfolding set_maintenance_catalog_path set_catalog_path active_job
catalog_path-Exclusive trim id path db x = after_check _ _ _ λ _. after_check _ _ _ λ _. returns _ (
    update-Exclusive (set_catalog_path path) (job_in id MaintenanceStatus.running) (λ sid v h k. k)
      db x)

ended :
    (at : ℕ) (msg sid : Text) (j : MaintenanceJob) → active_job sid (interrupt at msg j) ≡ true → ⊥
unfolding active_job interrupt
ended at msg sid j h = absurd (cc (&&-true (beq j.source_id sid) false h).1)

pub recover-Exclusive :
    (at : ℕ) (msg : Text) (db : Database) → Exclusive db → Exclusive (recover_interrupted at msg db)
unfolding recover_interrupted
recover-Exclusive at msg db x =
    update-Exclusive (interrupt at msg) (λ j. is_active j.status)
      (λ sid j h k. absurd (ended at msg sid j k)) db x
