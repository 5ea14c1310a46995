-- ===== src/Database/Jobs/Recovery.antt =====
-- What RecoverInterruptedMaintenanceJobs of internal/storage/sqlite/server_maintenance_recovery.go makes
-- possible again.
use airgap_mirror.Prelude.{
  ℕ, ◌≡◌, refl, ◌∙◌, Bool, true, false, ◌||◌, List, [], ◌∷◌, beq, Bool-cases, inl, inr, ◌==◌, arith,
}
use airgap_mirror.Prelude.Tables.{modify, affects, affects-modify}
use airgap_mirror.Domain.Status.{Text, MaintenanceStatus, maintenance_eq}
use airgap_mirror.Domain.Types.{MaintenanceJob}
use airgap_mirror.Domain.Result.{ok, check, ◌>>=◌, ◌>>◌}
use airgap_mirror.Database.{Database}
use airgap_mirror.Database.Sources.{is_source, active_state, is_active, active_job}
use airgap_mirror.Database.Jobs.{
  is_job, unknown_kind, new_job, create_maintenance_job, interrupt, recover_interrupted,
}

none-active :
    (at : ℕ) (msg sid : Text) (jobs : List MaintenanceJob)
    → affects (active_job sid) (modify (λ j. is_active j.status) (interrupt at msg) jobs) ≡ false
unfolding affects modify active_job interrupt
none-active at msg sid [] = refl
none-active at msg sid (j ∷ jobs) = elim (Bool-cases (is_active j.status)) [
  | inl e ↦ rw (e, none-active at msg sid jobs) (ground arith)
  | inr e ↦ rw (e) (rw (e, none-active at msg sid jobs) (ground arith))
]

same-ids :
    (at : ℕ) (msg id : Text) (jobs : List MaintenanceJob)
    → affects (is_job id) (modify (λ j. is_active j.status) (interrupt at msg) jobs)
      ≡ affects (is_job id) jobs
unfolding is_job interrupt
same-ids at msg id jobs =
    affects-modify (is_job id) (λ j. is_active j.status) (interrupt at msg) jobs (λ x. refl)

-- After RecoverInterruptedMaintenanceJobs, whatever jobs were QUEUED or RUNNING before, a new job that
-- CreateMaintenanceJob's own tests accept, of an unused id, for a source that is there and has no active
-- epoch, is created.
pub recover_unblocks :
    (fk : Bool) (at : ℕ) (msg : Text) (j : MaintenanceJob) (db : Database)
    → (beq j.id [] || beq j.source_id []) ≡ false
    → unknown_kind j.kind ≡ false
    → maintenance_eq j.status MaintenanceStatus.queued ≡ true
    → (j.created_at == 0) ≡ false
    → affects (is_job j.id) db.jobs ≡ false
    → affects (is_source j.source_id) db.sources ≡ true
    → affects (active_state j.source_id) db.states ≡ false
    → (t : Database) × (create_maintenance_job fk j (recover_interrupted at msg db) ≡ ok t)
unfolding create_maintenance_job recover_interrupted check ◌>>◌ ◌>>=◌
recover_unblocks fk at msg j db ids kind queued created unused source idle = (
  record db { jobs = new_job j ∷ modify (λ j. is_active j.status) (interrupt at msg) db.jobs },
  rw
      (
        ids,
        kind,
        queued,
        created,
        idle,
        same-ids at msg j.id db.jobs ∙ unused,
        none-active at msg j.source_id db.jobs,
        source,
      )
      (elim (Bool-cases fk) [ inl e ↦ rw e refl | inr e ↦ rw e refl ]),
)
