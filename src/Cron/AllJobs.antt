-- ===== src/Cron/AllJobs.antt =====
-- Lists of jobs of which each passes a test, under the calls of pkg/cron/service.go.
use aetherclaw.Common.{
  ℕ, ◌≡◌, refl, sym, ap, ◌∙◌, subst, inl, inr, Bool, true, false, ◌&&◌, Option, none, some, List,
  [], ◌∷◌, ◌++◌, arith, ltb, ◌==◌, nat_key, eq_iff, some_inj, Bool-cases, length,
}
use aetherclaw.Common.Text.{Text, text_key}
use aetherclaw.Cron.{
  CronJob, set_next, due_job_ids, is_in, reset_due, find_job, replace_job, without_job,
}
use aetherclaw.Cron.Service.{
  CronService, CronJson, with_jobs, save_store_unsafe, remove_job_unsafe, update_result,
}
use aetherclaw.Cron.Execute.{take_if_running}
use aetherclaw.Cron.Wake.{save_store-same}

abbrev pub all_jobs : (CronJob → Bool) → List CronJob → Bool
all_jobs p [] = true
all_jobs p (job ∷ jobs) = p job && all_jobs p jobs

module _ (p : CronJob → Bool) where
  pub all_jobs-append :
      (jobs : List CronJob) (job : CronJob)
      → all_jobs p jobs ≡ true
      → p job ≡ true
      → all_jobs p (jobs ++ job ∷ []) ≡ true
  all_jobs-append [] job h o = rw o refl
  all_jobs-append (j ∷ jobs) job h o =
      let rest : all_jobs p jobs ≡ true = ground arith in
      let first : p j ≡ true = ground arith in rw (all_jobs-append jobs job rest o, first) refl

  pub all_jobs-without :
      (job_id : Text) (jobs : List CronJob)
      → all_jobs p jobs ≡ true
      → all_jobs p (without_job job_id jobs) ≡ true
  unfolding without_job
  all_jobs-without job_id [] h = refl
  all_jobs-without job_id (j ∷ jobs) h =
      let rest : all_jobs p jobs ≡ true = ground arith in
      let first : p j ≡ true = ground arith in
      elim (Bool-cases (j.id == job_id)) [
        | inl e ↦ rw e (all_jobs-without job_id jobs rest)
        | inr e ↦ rw (e, first) (all_jobs-without job_id jobs rest)
      ]

  pub all_jobs-replace :
      (job_id : Text) (f : CronJob → CronJob) (jobs : List CronJob)
      → ((job : CronJob) → job.id ≡ job_id → p job ≡ true → p (f job) ≡ true)
      → all_jobs p jobs ≡ true
      → all_jobs p (replace_job job_id f jobs) ≡ true
  unfolding replace_job
  all_jobs-replace job_id f [] g h = refl
  all_jobs-replace job_id f (j ∷ jobs) g h =
      let rest : all_jobs p jobs ≡ true = ground arith in
      let first : p j ≡ true = ground arith in
      elim (Bool-cases (j.id == job_id)) [
        | inl e ↦ rw (e, g j ((eq_iff j.id job_id).0 e) first) rest
        | inr e ↦ rw (e, first) (all_jobs-replace job_id f jobs g rest)
      ]

  pub all_jobs-reset :
      (ids : List Text) (jobs : List CronJob)
      → ((job : CronJob) → p job ≡ true → p (set_next none job) ≡ true)
      → all_jobs p jobs ≡ true
      → all_jobs p (reset_due ids jobs) ≡ true
  unfolding reset_due
  all_jobs-reset ids [] g h = refl
  all_jobs-reset ids (j ∷ jobs) g h =
      let rest : all_jobs p jobs ≡ true = ground arith in
      let first : p j ≡ true = ground arith in
      elim (Bool-cases (is_in j.id ids)) [
        | inl e ↦ rw (e, g j first) (all_jobs-reset ids jobs g rest)
        | inr e ↦ rw (e, first) (all_jobs-reset ids jobs g rest)
      ]

  pub find_job-all_jobs :
      (job_id : Text) (jobs : List CronJob) (job : CronJob)
      → find_job job_id jobs ≡ some job
      → all_jobs p jobs ≡ true
      → (job.id ≡ job_id) × (p job ≡ true)
  unfolding find_job
  find_job-all_jobs job_id [] job e h = ground arith
  find_job-all_jobs job_id (j ∷ jobs) job e h =
      let rest : all_jobs p jobs ≡ true = ground arith in
      let first : p j ≡ true = ground arith in
      elim (Bool-cases (j.id == job_id)) [
        | inl s ↦
            let it : j ≡ job = some_inj (sym (rw s refl) ∙ e) in
            subst (λ x. (x.id ≡ job_id) × (p x ≡ true)) it ((eq_iff j.id job_id).0 s, first)
        | inr s ↦ find_job-all_jobs job_id jobs job (ground arith) rest
      ]

-- each job that is stored passes
abbrev pub AllStored : {B E : Type 0} → (CronJob → Bool) → CronService B E → Type 0
AllStored p cs = all_jobs p cs.store.jobs ≡ true

module _ {B E : Type 0} (json : CronJson B E) (p : CronJob → Bool) where
  pub save_store-AllStored :
      (failure : Option E) (cs : CronService B E)
      → AllStored p cs
      → AllStored p (save_store_unsafe json failure cs).1
  save_store-AllStored failure cs h =
      ap (λ store. all_jobs p store.jobs) (save_store-same json failure cs).0 ∙ h

  pub remove_job-AllStored :
      (failure : Option E) (job_id : Text) (cs : CronService B E)
      → AllStored p cs
      → AllStored p (remove_job_unsafe json failure job_id cs).1
  unfolding remove_job_unsafe
  remove_job-AllStored failure job_id cs h =
      let jobs = without_job job_id cs.store.jobs in
      let less : all_jobs p jobs ≡ true = all_jobs-without p job_id cs.store.jobs h in
      elim (Bool-cases (ltb (length jobs) (length cs.store.jobs))) [
        | inl e ↦ rw e (save_store-AllStored failure (with_jobs cs jobs) less)
        | inr e ↦ rw e less
      ]

  pub take_if_running-AllStored :
      (running : Bool) (failure : Option E) (now : ℕ) (cs : CronService B E)
      → ((job : CronJob) → p job ≡ true → p (set_next none job) ≡ true)
      → AllStored p cs
      → AllStored p (take_if_running json running failure now cs).1
  take_if_running-AllStored false failure now cs g h = h
  take_if_running-AllStored true failure now cs g h =
      save_store-AllStored failure _
        (all_jobs-reset p (due_job_ids now cs.store.jobs) cs.store.jobs g h)

pub update_result-AllStored :
    {B E : Type 0}
    → (p : CronJob → Bool) (r : Option E × CronService B E) → AllStored p r.1
    → AllStored p (update_result r).1
update_result-AllStored p (none, cs) h = h
update_result-AllStored p (some e, cs) h = h
