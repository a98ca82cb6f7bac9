-- ===== src/Cron/Steps.antt =====
-- One-time jobs, with any calls after they are collected (pkg/cron/service.go).
use aetherclaw.Common.{
  ℕ, ◌≤◌, ◌≡◌, refl, sym, ◌∙◌, inl, inr, Bool, true, false, ◌&&◌, ◌||◌, not, Option, none, some,
  List, [], ◌∷◌, arith, leb, if◌then◌else◌, ◌==◌, nat_key, eq_iff, Bool-cases,
}
use aetherclaw.Common.Text.{Text, text_key, codes}
use aetherclaw.Cron.{CronSchedule, CronJob, compute_next_run, set_next, is_in, reset_due, find_job}
use aetherclaw.Cron.Service.{
  CronService, CronJson, change_job, remove_job_unsafe, update_found, update_job, enable_found,
  enable_job, add_job, stop,
}
use aetherclaw.Cron.Execute.{JobRun, take_due, mark_run, disable, finish_found, finish_job}
use aetherclaw.Cron.Once.{at_passed, is_spent, spent_if, all_spent, is_spent-compute_next_run}
use aetherclaw.Cron.AllJobs.{
  all_jobs-replace, find_job-all_jobs, AllStored, save_store-AllStored, remove_job-AllStored,
  update_result-AllStored,
}

-- What a call of the service does under its lock while it runs; an execution is two of them, the
-- collection and the end.
pub data CronStep (E : Type 0) : Type 0 where
  take_step : Option E → ℕ → CronStep E
  finish_step : JobRun E → Text → Option E → CronStep E
  add_step : Option E → Text → ℕ → Text → CronSchedule → Text → Bool → Text → Text → CronStep E
  remove_step : Option E → Text → CronStep E
  update_step : Option E → ℕ → CronJob → CronStep E
  enable_step : Option E → ℕ → ℕ → Text → Bool → CronStep E
  stop_step : CronStep E

-- a step from a time on, which neither adds nor updates a job with this ID
abbrev pub is_later : {E : Type 0} → Text → ℕ → CronStep E → Bool
is_later id t (take_step failure now) = true
is_later id t (finish_step run job_id err) = leb t run.now
is_later id t (add_step failure new_id now name schedule message to_deliver channel to) =
    not (new_id == id)
is_later id t (remove_step failure job_id) = true
is_later id t (update_step failure now job) = not (job.id == id)
is_later id t (enable_step failure updated now job_id enabled) = leb t now
is_later id t stop_step = true

abbrev pub all_later : {E : Type 0} → Text → ℕ → List (CronStep E) → Bool
all_later id t [] = true
all_later id t (step ∷ steps) = is_later id t step && all_later id t steps

-- every job with this ID is a one-time job whose time has passed
abbrev pub all_passed : Text → ℕ → List CronJob → Bool
all_passed id t [] = true
all_passed id t (job ∷ jobs) =
    (not (job.id == id) || job.schedule.kind == codes "at" && at_passed t job.schedule.at_ms)
    && all_passed id t jobs

pub reset_due-passed :
    (id : Text) (t : ℕ) (ids : List Text) (jobs : List CronJob)
    → is_in id ids ≡ true
    → all_passed id t jobs ≡ true
    → all_spent id t (reset_due ids jobs) ≡ true
unfolding reset_due
reset_due-passed id t ids [] i h = refl
reset_due-passed id t ids (j ∷ jobs) i h =
    let rest : all_passed id t jobs ≡ true = ground arith in
    elim (Bool-cases (is_in j.id ids)) [
      | inl e ↦
          let reset : spent_if id t (set_next none j) ≡ true = ground arith in
          rw (e, reset) (reset_due-passed id t ids jobs i rest)
      | inr e ↦
          let other : (j.id == id) ≡ false = ground (arith, eq_iff j.id id) in
          rw (e, other) (reset_due-passed id t ids jobs i rest)
    ]

mark_run-spent :
    {E : Type 0}
    → (error_text : E → Text) (start updated : ℕ) (err : Option E) (id : Text) (t : ℕ)
    → (job : CronJob) → spent_if id t job ≡ true
    → spent_if id t (mark_run error_text start updated err job) ≡ true
mark_run-spent error_text start updated none id t job h = h
mark_run-spent error_text start updated (some e) id t job h = h

set_next-spent :
    (id job_id : Text) (t : ℕ) (next : Option ℕ) (f : CronJob → CronJob)
    → ((job : CronJob) → ((f job).id ≡ job.id) × ((f job).schedule ≡ job.schedule))
    → (job_id ≡ id → next ≡ none)
    → (job : CronJob) → job.id ≡ job_id
    → spent_if id t job ≡ true
    → spent_if id t (set_next next (f job)) ≡ true
set_next-spent id job_id t next f same g job e h = elim (Bool-cases (job.id == id)) [
  | inl i ↦
      let n : next ≡ none = g (sym e ∙ (eq_iff job.id id).0 i) in
      rw (n, (same job).0, (same job).1) (spent-kept)
  | inr i ↦ rw ((same job).0, i) refl
]
  where
    spent-kept : spent_if id t (set_next none job) ≡ true
    spent-kept = ground (arith, h)

module _ {B E : Type 0} (json : CronJson B E) (next_tick : Text → ℕ → Option ℕ)
    (error_text : E → Text) where
  abbrev pub apply_step : CronStep E → CronService B E → CronService B E
  apply_step (take_step failure now) cs = (take_due json failure now cs).1
  apply_step (finish_step run job_id err) cs =
      finish_job json next_tick error_text run job_id err cs
  apply_step (add_step failure new_id now name schedule message to_deliver channel to) cs =
      (add_job json next_tick failure new_id now name schedule message to_deliver channel to cs).1
  apply_step (remove_step failure job_id) cs = (remove_job_unsafe json failure job_id cs).1
  apply_step (update_step failure now job) cs = (update_job json failure now job cs).1
  apply_step (enable_step failure updated now job_id enabled) cs =
      (enable_job json next_tick failure updated now job_id enabled cs).1
  apply_step stop_step cs = stop cs

  unfoldable pub apply_steps : List (CronStep E) → CronService B E → CronService B E
  apply_steps [] cs = cs
  apply_steps (step ∷ steps) cs = apply_steps steps (apply_step step cs)

module _ {B E : Type 0} (json : CronJson B E) (next_tick : Text → ℕ → Option ℕ)
    (error_text : E → Text) (id : Text) (t : ℕ) where
  abbrev pub IsSpent : CronService B E → Type 0
  IsSpent = AllStored (spent_if id t)

  pub finish_found-IsSpent :
      (run : JobRun E) (job_id : Text) (err : Option E) (cs : CronService B E)
      → (found : Option CronJob) → find_job job_id cs.store.jobs ≡ found
      → t ≤ run.now
      → IsSpent cs
      → IsSpent (finish_found json next_tick error_text run job_id err cs found)
  finish_found-IsSpent run job_id err cs none f l h = h
  finish_found-IsSpent run job_id err cs (some job) f l h =
      let marked = change_job job_id (mark_run error_text run.start run.updated err) cs in
      let m : IsSpent marked =
        all_jobs-replace (spent_if id t) job_id (mark_run error_text run.start run.updated err)
          cs.store.jobs (λ j e s. mark_run-spent error_text run.start run.updated err id t j s) h in
      let (same, spent) = find_job-all_jobs (spent_if id t) job_id cs.store.jobs job f h in
      save_store-AllStored json (spent_if id t) run.failure _
        (elim (Bool-cases (job.schedule.kind == codes "at")) [
          | inl a ↦ rw a (elim (Bool-cases job.delete_after_run) [
            | inl d ↦ rw d (remove_job-AllStored json (spent_if id t) run.removal job_id marked m)
            | inr d ↦ rw d (
                all_jobs-replace (spent_if id t) job_id disable marked.store.jobs
                  (set_next-spent id job_id t none (λ j. record j { enabled = false })
                    (λ j. (refl, refl)) (λ e. refl))
                  m)
          ])
          | inr a ↦ rw a (
              all_jobs-replace (spent_if id t) job_id _ marked.store.jobs
                (set_next-spent id job_id t (compute_next_run next_tick job.schedule run.now)
                  (λ j. j) (λ j. (refl, refl))
                  (λ e. ground (arith, eq_iff job.id id, same, e, spent)))
                m)
        ])

  pub update_found-IsSpent :
      (failure : Option E) (now : ℕ) (job : CronJob) (cs : CronService B E) (found : Option CronJob)
      → (job.id == id) ≡ false
      → IsSpent cs
      → IsSpent (update_found json failure now job cs found).1
  update_found-IsSpent failure now job cs none o h = h
  update_found-IsSpent failure now job cs (some old) o h =
      update_result-AllStored (spent_if id t) _ (
        save_store-AllStored json (spent_if id t) failure _ (
          all_jobs-replace (spent_if id t) job.id (λ j. record job { updated_at_ms = now })
            cs.store.jobs (λ j e s. rw o refl) h))

  pub enable_found-IsSpent :
      (failure : Option E) (updated now : ℕ) (job_id : Text) (enabled : Bool)
      → (cs : CronService B E) (found : Option CronJob) → find_job job_id cs.store.jobs ≡ found
      → t ≤ now
      → IsSpent cs
      → IsSpent (enable_found json next_tick failure updated now job_id enabled cs found).1
  enable_found-IsSpent failure updated now job_id enabled cs none f l h = h
  enable_found-IsSpent failure updated now job_id enabled cs (some job) f l h =
      let (same, spent) = find_job-all_jobs (spent_if id t) job_id cs.store.jobs job f h in
      save_store-AllStored json (spent_if id t) failure _ (
        all_jobs-replace (spent_if id t) job_id _ cs.store.jobs
          (set_next-spent id job_id t
            (if enabled then compute_next_run next_tick job.schedule now else none)
            (λ j. record j { enabled = enabled; updated_at_ms = updated }) (λ j. (refl, refl))
            (λ e. enabled-none job enabled (same ∙ e) spent))
          h)
    where
      enabled-none :
          (job : CronJob) (enabled : Bool)
          → job.id ≡ id
          → spent_if id t job ≡ true
          → (if enabled then compute_next_run next_tick job.schedule now else none) ≡ none
      enabled-none job false e s = refl
      enabled-none job true e s =
          let spent' : is_spent t job ≡ true = ground (arith, eq_iff job.id id, e, s) in
          is_spent-compute_next_run next_tick t now job spent' l
