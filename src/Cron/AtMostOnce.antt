-- ===== src/Cron/AtMostOnce.antt =====
-- One-time jobs, with any calls after they are collected (pkg/cron/service.go).
use aetherclaw.Common.{
  ℕ, ◌≡◌, refl, Bool, true, false, Option, List, [], ◌∷◌, arith, leb→le, nat_key,
}
use aetherclaw.Common.Text.{Text, text_key}
use aetherclaw.Cron.{due_job_ids, is_in, find_job}
use aetherclaw.Cron.Service.{CronService, CronJson, update_job, enable_job, add_job}
use aetherclaw.Cron.Execute.{take_if_running, take_due, finish_job}
use aetherclaw.Cron.Wake.{take_if_running-none}
use aetherclaw.Cron.Once.{spent_if, all_spent-due}
use aetherclaw.Cron.AllJobs.{
  all_jobs-append, save_store-AllStored, remove_job-AllStored, take_if_running-AllStored,
}
use aetherclaw.Cron.Steps.{
  CronStep, take_step, finish_step, add_step, remove_step, update_step, enable_step, stop_step,
  is_later, all_later, all_passed, reset_due-passed, apply_step, apply_steps, IsSpent,
  finish_found-IsSpent, update_found-IsSpent, enable_found-IsSpent,
}

module _ {B E : Type 0} (json : CronJson B E) (next_tick : Text → ℕ → Option ℕ)
    (error_text : E → Text) (id : Text) (t : ℕ) where
  apply_step-IsSpent :
      (step : CronStep E) (cs : CronService B E)
      → is_later id t step ≡ true
      → IsSpent json next_tick error_text id t cs
      → IsSpent json next_tick error_text id t (apply_step json next_tick error_text step cs)
  unfolding take_due finish_job add_job update_job enable_job
  apply_step-IsSpent (take_step failure now) cs l h =
      take_if_running-AllStored json (spent_if id t) cs.running failure now cs
        (λ job s. ground (arith, s)) h
  apply_step-IsSpent (finish_step run job_id err) cs l h =
      finish_found-IsSpent json next_tick error_text id t run job_id err cs
        (find_job job_id cs.store.jobs) refl (leb→le t run.now l) h
  apply_step-IsSpent (add_step failure new_id now name schedule message to_deliver channel to) cs l
        h =
      save_store-AllStored json (spent_if id t) failure _
        (all_jobs-append (spent_if id t) cs.store.jobs _ h (ground arith))
  apply_step-IsSpent (remove_step failure job_id) cs l h =
      remove_job-AllStored json (spent_if id t) failure job_id cs h
  apply_step-IsSpent (update_step failure now job) cs l h =
      update_found-IsSpent json next_tick error_text id t failure now job cs
        (find_job job.id cs.store.jobs) (ground arith) h
  apply_step-IsSpent (enable_step failure updated now job_id enabled) cs l h =
      enable_found-IsSpent json next_tick error_text id t failure updated now job_id enabled cs
        (find_job job_id cs.store.jobs) refl (leb→le t now l) h
  apply_step-IsSpent stop_step cs l h = h

  apply_steps-IsSpent :
      (steps : List (CronStep E)) (cs : CronService B E)
      → all_later id t steps ≡ true
      → IsSpent json next_tick error_text id t cs
      → IsSpent json next_tick error_text id t (apply_steps json next_tick error_text steps cs)
  unfolding apply_steps
  apply_steps-IsSpent [] cs l h = h
  apply_steps-IsSpent (step ∷ steps) cs l h =
      let first : is_later id t step ≡ true = ground arith in
      let rest : all_later id t steps ≡ true = ground arith in
      apply_steps-IsSpent steps (apply_step json next_tick error_text step cs) rest
        (apply_step-IsSpent step cs first h)

  take_if_running-passed :
      (running : Bool) (failure : Option E) (now : ℕ) (cs : CronService B E)
      → all_passed id t cs.store.jobs ≡ true
      → let (ids, cs') = take_if_running json running failure now cs in
        is_in id ids ≡ true → IsSpent json next_tick error_text id t cs'
  take_if_running-passed false failure now cs h i = ground arith
  take_if_running-passed true failure now cs h i =
      save_store-AllStored json (spent_if id t) failure _
        (reset_due-passed id t (due_job_ids now cs.store.jobs) cs.store.jobs i h)

  -- A one-time job whose time has passed is collected at most once while the service is not started
  -- or loaded again: after a collection that has its ID, no collection has it, at any time, after any
  -- steps that read the clock from the job's time on and neither add nor update a job with its ID.
  -- The ends of executions, of this job and of others, are among these steps, in any order, and so
  -- are EnableJob of this job, removals, and additions and updates of other jobs.
  pub take_due_once :
      (failure failure' : Option E) (now now' : ℕ) (cs : CronService B E)
      → (steps : List (CronStep E)) → all_passed id t cs.store.jobs ≡ true
      → is_in id (take_due json failure now cs).0 ≡ true
      → all_later id t steps ≡ true
      → is_in id
          (take_due json failure' now'
            (apply_steps json next_tick error_text steps (take_due json failure now cs).1)).0
        ≡ false
  unfolding take_due
  take_due_once failure failure' now now' cs steps p i l =
      let cs' =
        apply_steps json next_tick error_text steps
          (take_if_running json cs.running failure now cs).1 in
      take_if_running-none json cs'.running failure' now' cs' id (
        all_spent-due id t now' cs'.store.jobs (
          apply_steps-IsSpent steps (take_if_running json cs.running failure now cs).1 l
            (take_if_running-passed cs.running failure now cs p i)))
