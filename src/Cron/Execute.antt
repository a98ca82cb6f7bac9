-- ===== src/Cron/Execute.antt =====
-- pkg/cron/service.go: checkJobs and executeJobByID.
use aetherclaw.Common.{
  ℕ, Bool, true, false, Option, none, some, List, [], ◌∷◌, if◌then◌else◌, ◌==◌, nat_key,
}
use aetherclaw.Common.Text.{Text, text_key, codes}
use aetherclaw.Cron.{CronJob, compute_next_run, set_next, due_job_ids, reset_due, find_job}
use aetherclaw.Cron.Service.{
  CronService, CronJson, with_jobs, save_store_unsafe, remove_job_unsafe, change_job,
}

-- What the execution of a job reads from the clock, and the errors of writing when it removes the job
-- and at its end.
pub record JobRun (E : Type 0) : Type 0 where
  pub start : ℕ
  pub updated : ℕ
  pub now : ℕ
  pub removal : Option E
  pub failure : Option E

abbrev pub status_of : {E : Type 0} → (E → Text) → Option E → CronJob → CronJob
status_of error_text none job = record job {
  state = record (job.state) { last_status = codes "ok"; last_error = [] };
}
status_of error_text (some e) job = record job {
  state = record (job.state) { last_status = codes "error"; last_error = error_text e };
}

abbrev pub mark_run : {E : Type 0} → (E → Text) → ℕ → ℕ → Option E → CronJob → CronJob
mark_run error_text start updated err job = status_of error_text err (record job {
  state = record (job.state) { last_run_at_ms = some start };
  updated_at_ms = updated;
})

abbrev pub disable : CronJob → CronJob
disable job = set_next none (record job { enabled = false })

module _ {B E : Type 0} where
  -- `on_job` is none for a nil handler. It is called without the lock, so it may change the service.
  abbrev pub call_handler :
      Option (CronJob → CronService B E → Option E × CronService B E)
      → CronJob
      → CronService B E
      → Option E × CronService B E
  call_handler none job cs = (none, cs)
  call_handler (some on_job) job cs = on_job job cs

module _ {B E : Type 0} (json : CronJson B E) where
  abbrev pub take_if_running : Bool → Option E → ℕ → CronService B E → List Text × CronService B E
  take_if_running false failure now cs = ([], cs)
  take_if_running true failure now cs =
      let ids = due_job_ids now cs.store.jobs in
      (ids, (save_store_unsafe json failure (with_jobs cs (reset_due ids cs.store.jobs))).1)

  -- the part of checkJobs under the lock: the IDs to execute
  unfoldable pub take_due : Option E → ℕ → CronService B E → List Text × CronService B E
  take_due failure now cs = take_if_running cs.running failure now cs

module _ {B E : Type 0} (json : CronJson B E) (next_tick : Text → ℕ → Option ℕ) where
  -- what follows the call of onJob, for the job that is still there
  abbrev pub finish_found :
      (E → Text) → JobRun E → Text → Option E → CronService B E → Option CronJob → CronService B E
  finish_found error_text run job_id err cs none = cs
  finish_found error_text run job_id err cs (some job) =
      let marked = change_job job_id (mark_run error_text run.start run.updated err) cs in
      let next = compute_next_run next_tick job.schedule run.now in
      (save_store_unsafe json run.failure (
        if job.schedule.kind == codes "at"
        then (if job.delete_after_run
            then (remove_job_unsafe json run.removal job_id marked).1
            else change_job job_id disable marked)
        else change_job job_id (set_next next) marked)).1

  unfoldable pub finish_job :
      (E → Text) → JobRun E → Text → Option E → CronService B E → CronService B E
  finish_job error_text run job_id err cs =
      finish_found error_text run job_id err cs (find_job job_id cs.store.jobs)

  abbrev pub execute_copied :
      (E → Text)
      → Option (CronJob → CronService B E → Option E × CronService B E)
      → JobRun E
      → Text
      → CronService B E
      → Option CronJob
      → CronService B E
  execute_copied error_text on_job run job_id cs none = cs
  execute_copied error_text on_job run job_id cs (some job) =
      let (err, cs') = call_handler on_job job cs in finish_job error_text run job_id err cs'

  unfoldable pub execute_job_by_id :
      (E → Text)
      → Option (CronJob → CronService B E → Option E × CronService B E)
      → JobRun E
      → Text
      → CronService B E
      → CronService B E
  execute_job_by_id error_text on_job run job_id cs =
      execute_copied error_text on_job run job_id cs (find_job job_id cs.store.jobs)

  unfoldable pub execute_all :
      (E → Text)
      → Option (CronJob → CronService B E → Option E × CronService B E)
      → (Text → JobRun E)
      → List Text
      → CronService B E
      → CronService B E
  execute_all error_text on_job runs [] cs = cs
  execute_all error_text on_job runs (id ∷ ids) cs =
      execute_all error_text on_job runs ids (execute_job_by_id error_text on_job (runs id) id cs)

  unfoldable pub check_jobs :
      (E → Text)
      → Option (CronJob → CronService B E → Option E × CronService B E)
      → (Text → JobRun E)
      → Option E
      → ℕ
      → CronService B E
      → CronService B E
  check_jobs error_text on_job runs failure now cs =
      let (ids, cs') = take_due json failure now cs in execute_all error_text on_job runs ids cs'
