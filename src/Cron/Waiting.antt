-- ===== src/Cron/Waiting.antt =====
-- Jobs between their collection and their next run (pkg/cron/service.go).
use aetherclaw.Common.{
  ℕ, ◌≡◌, refl, ◌∙◌, inl, inr, Bool, true, false, ◌&&◌, ◌||◌, not, Option, none, some, List, [],
  ◌∷◌, arith, ◌==◌, nat_key, eq_iff, Bool-cases,
}
use aetherclaw.Common.Text.{Text, text_key, codes}
use aetherclaw.Cron.{
  CronJob, compute_next_run, set_next, is_due, due_job_ids, is_in, reset_due, find_job, replace_job,
}
use aetherclaw.Cron.Service.{
  CronService, CronJson, change_job, update_found, update_job, enable_found, enable_job, add_job,
}
use aetherclaw.Cron.Execute.{
  JobRun, take_if_running, take_due, mark_run, disable, finish_found, finish_job,
}
use aetherclaw.Cron.Wake.{take_if_running-none}
use aetherclaw.Cron.Once.{no_run, no_run-reached}
use aetherclaw.Cron.AllJobs.{
  all_jobs, all_jobs-append, all_jobs-replace, AllStored, save_store-AllStored,
  remove_job-AllStored, take_if_running-AllStored, update_result-AllStored,
}
use aetherclaw.Cron.Steps.{
  CronStep, take_step, finish_step, add_step, remove_step, update_step, enable_step, stop_step,
  apply_step, apply_steps,
}

-- a job with another ID, or one without a next run
abbrev pub waits_if : Text → CronJob → Bool
waits_if id job = not (job.id == id) || no_run job.state.next_run_at_ms

-- a step that gives no next run to a job with this ID: neither the end of its execution, nor its
-- addition, its update or EnableJob(true) of it
abbrev pub is_waiting : {E : Type 0} → Text → CronStep E → Bool
is_waiting id (take_step failure now) = true
is_waiting id (finish_step run job_id err) = not (job_id == id)
is_waiting id (add_step failure new_id now name schedule message to_deliver channel to) =
    not (new_id == id)
is_waiting id (remove_step failure job_id) = true
is_waiting id (update_step failure now job) = not (job.id == id)
is_waiting id (enable_step failure updated now job_id enabled) = not (job_id == id) || not enabled
is_waiting id stop_step = true

abbrev pub all_waiting : {E : Type 0} → Text → List (CronStep E) → Bool
all_waiting id [] = true
all_waiting id (step ∷ steps) = is_waiting id step && all_waiting id steps

waits-due :
    (id : Text) (now : ℕ) (jobs : List CronJob)
    → all_jobs (waits_if id) jobs ≡ true
    → is_in id (due_job_ids now jobs) ≡ false
unfolding due_job_ids
waits-due id now [] h = refl
waits-due id now (job ∷ jobs) h = elim (Bool-cases (is_due now job)) [
  | inl d ↦
      let other : (job.id == id) ≡ false =
        ground (arith, no_run-reached job.state.next_run_at_ms now) in
      rw (d, other) (waits-due id now jobs (ground arith))
  | inr d ↦ rw d (waits-due id now jobs (ground arith))
]

reset_due-waits :
    (id : Text) (ids : List Text) (jobs : List CronJob)
    → is_in id ids ≡ true
    → all_jobs (waits_if id) (reset_due ids jobs) ≡ true
unfolding reset_due
reset_due-waits id ids [] i = refl
reset_due-waits id ids (j ∷ jobs) i = elim (Bool-cases (is_in j.id ids)) [
  | inl e ↦
      let reset : waits_if id (set_next none j) ≡ true = ground arith in
      rw (e, reset) (reset_due-waits id ids jobs i)
  | inr e ↦
      let other : (j.id == id) ≡ false = ground (arith, eq_iff j.id id) in
      rw (e, other) (reset_due-waits id ids jobs i)
]

-- A change of the job with an ID, which keeps IDs, leaves the jobs with another one waiting.
other-waits :
    (id job_id : Text) (f : CronJob → CronJob) (jobs : List CronJob)
    → ((job : CronJob) → (f job).id ≡ job.id)
    → (job_id == id) ≡ false
    → all_jobs (waits_if id) jobs ≡ true
    → all_jobs (waits_if id) (replace_job job_id f jobs) ≡ true
other-waits id job_id f jobs same o =
    all_jobs-replace (waits_if id) job_id f jobs (λ job e w. rw (same job ∙ e, o) refl)

mark_run-id :
    {E : Type 0}
    → (error_text : E → Text) (start updated : ℕ) (err : Option E) (job : CronJob)
    → (mark_run error_text start updated err job).id ≡ job.id
mark_run-id error_text start updated none job = refl
mark_run-id error_text start updated (some e) job = refl

module _ {B E : Type 0} (json : CronJson B E) (next_tick : Text → ℕ → Option ℕ)
    (error_text : E → Text) (id : Text) where
  finish_found-waits :
      (run : JobRun E) (job_id : Text) (err : Option E) (cs : CronService B E)
      → (found : Option CronJob) → (job_id == id) ≡ false
      → AllStored (waits_if id) cs
      → AllStored (waits_if id) (finish_found json next_tick error_text run job_id err cs found)
  finish_found-waits run job_id err cs none o h = h
  finish_found-waits run job_id err cs (some job) o h =
      let marked = change_job job_id (mark_run error_text run.start run.updated err) cs in
      let m : AllStored (waits_if id) marked =
        other-waits id job_id (mark_run error_text run.start run.updated err) cs.store.jobs
          (mark_run-id error_text run.start run.updated err) o h in
      save_store-AllStored json (waits_if id) run.failure _
        (elim (Bool-cases (job.schedule.kind == codes "at")) [
          | inl a ↦ rw a (elim (Bool-cases job.delete_after_run) [
            | inl d ↦ rw d (remove_job-AllStored json (waits_if id) run.removal job_id marked m)
            | inr d ↦ rw d (other-waits id job_id disable marked.store.jobs (λ j. refl) o m)
          ])
          | inr a ↦ rw a (
              other-waits id job_id (set_next (compute_next_run next_tick job.schedule run.now))
                marked.store.jobs (λ j. refl) o m)
        ])

  update_found-waits :
      (failure : Option E) (now : ℕ) (job : CronJob) (cs : CronService B E) (found : Option CronJob)
      → (job.id == id) ≡ false
      → AllStored (waits_if id) cs
      → AllStored (waits_if id) (update_found json failure now job cs found).1
  update_found-waits failure now job cs none o h = h
  update_found-waits failure now job cs (some old) o h = update_result-AllStored (waits_if id) _ (
      save_store-AllStored json (waits_if id) failure _ (
        all_jobs-replace (waits_if id) job.id (λ j. record job { updated_at_ms = now })
          cs.store.jobs (λ j e s. rw o refl) h))

  enable_found-waits :
      (failure : Option E) (updated now : ℕ) (job_id : Text) (enabled : Bool)
      → (cs : CronService B E) (found : Option CronJob) → (not (job_id == id) || not enabled) ≡ true
      → AllStored (waits_if id) cs
      → AllStored
          (waits_if id)
          (enable_found json next_tick failure updated now job_id enabled cs found).1
  enable_found-waits failure updated now job_id enabled cs none o h = h
  enable_found-waits failure updated now job_id false cs (some job) o h =
      save_store-AllStored json (waits_if id) failure _
        (all_jobs-replace (waits_if id) job_id _ cs.store.jobs (λ j e s. ground (arith, s)) h)
  enable_found-waits failure updated now job_id true cs (some job) o h =
      save_store-AllStored json (waits_if id) failure _
        (other-waits id job_id _ cs.store.jobs (λ j. refl) (ground arith) h)

  apply_step-waits :
      (step : CronStep E) (cs : CronService B E)
      → is_waiting id step ≡ true
      → AllStored (waits_if id) cs
      → AllStored (waits_if id) (apply_step json next_tick error_text step cs)
  unfolding take_due finish_job add_job update_job enable_job
  apply_step-waits (take_step failure now) cs l h =
      take_if_running-AllStored json (waits_if id) cs.running failure now cs
        (λ job s. ground (arith, s)) h
  apply_step-waits (finish_step run job_id err) cs l h =
      finish_found-waits run job_id err cs (find_job job_id cs.store.jobs) (ground arith) h
  apply_step-waits (add_step failure new_id now name schedule message to_deliver channel to) cs l
        h =
      save_store-AllStored json (waits_if id) failure _
        (all_jobs-append (waits_if id) cs.store.jobs _ h (ground arith))
  apply_step-waits (remove_step failure job_id) cs l h =
      remove_job-AllStored json (waits_if id) failure job_id cs h
  apply_step-waits (update_step failure now job) cs l h =
      update_found-waits failure now job cs (find_job job.id cs.store.jobs) (ground arith) h
  apply_step-waits (enable_step failure updated now job_id enabled) cs l h =
      enable_found-waits failure updated now job_id enabled cs (find_job job_id cs.store.jobs) l h
  apply_step-waits stop_step cs l h = h

  apply_steps-waits :
      (steps : List (CronStep E)) (cs : CronService B E)
      → all_waiting id steps ≡ true
      → AllStored (waits_if id) cs
      → AllStored (waits_if id) (apply_steps json next_tick error_text steps cs)
  unfolding apply_steps
  apply_steps-waits [] cs l h = h
  apply_steps-waits (step ∷ steps) cs l h =
      let first : is_waiting id step ≡ true = ground arith in
      let rest : all_waiting id steps ≡ true = ground arith in
      apply_steps-waits steps (apply_step json next_tick error_text step cs) rest
        (apply_step-waits step cs first h)

  take_if_running-waits :
      (running : Bool) (failure : Option E) (now : ℕ) (cs : CronService B E)
      → let (ids, cs') = take_if_running json running failure now cs in
        is_in id ids ≡ true → AllStored (waits_if id) cs'
  take_if_running-waits false failure now cs i = ground arith
  take_if_running-waits true failure now cs i =
      save_store-AllStored json (waits_if id) failure _
        (reset_due-waits id (due_job_ids now cs.store.jobs) cs.store.jobs i)

  -- A job that was collected is not collected again before its execution ends: after a collection
  -- that has its ID, no collection has it, at any time, after any steps of the service without the
  -- end of an execution of that ID and without AddJob, UpdateJob or EnableJob(true) for it. Further
  -- collections, the ends of other executions, RemoveJob, EnableJob(false) and Stop are among these
  -- steps, in any order, whether or not the store can be written; Start and Load are not.
  pub take_due_waits :
      (failure failure' : Option E) (now now' : ℕ) (cs : CronService B E)
      → (steps : List (CronStep E)) → is_in id (take_due json failure now cs).0 ≡ true
      → all_waiting id steps ≡ true
      → is_in id
          (take_due json failure' now'
            (apply_steps json next_tick error_text steps (take_due json failure now cs).1)).0
        ≡ false
  unfolding take_due
  take_due_waits failure failure' now now' cs steps i l =
      let taken = (take_if_running json cs.running failure now cs).1 in
      let cs' = apply_steps json next_tick error_text steps taken in
      take_if_running-none json cs'.running failure' now' cs' id (
        waits-due id now' cs'.store.jobs
          (apply_steps-waits steps taken l (take_if_running-waits cs.running failure now cs i)))
