-- ===== src/Cron/Once.antt =====
-- One-time jobs, with other calls between their collection and their end (pkg/cron/service.go).
use aetherclaw.Common.{
  ℕ, ◌≤◌, ◌≡◌, refl, inl, inr, Bool, true, false, ◌&&◌, ◌||◌, not, Option, none, some, List, [],
  ◌∷◌, arith, leb, ltb→lt, leb→le, ◌==◌, nat_key, Bool-cases,
}
use aetherclaw.Common.Text.{Text, text_key, codes}
use aetherclaw.Cron.AllJobs.{all_jobs}
use aetherclaw.Cron.{CronJob, at_run, compute_next_run, reached, is_due, due_job_ids, is_in}

abbrev pub at_passed : ℕ → Option ℕ → Bool
at_passed t none = true
at_passed t (some at) = leb at t

abbrev pub no_run : Option ℕ → Bool
no_run none = true
no_run (some next) = false

-- a one-time job whose time has passed and that waits for no run
abbrev pub is_spent : ℕ → CronJob → Bool
is_spent t job =
    job.schedule.kind == codes "at"
    && at_passed t job.schedule.at_ms
    && no_run job.state.next_run_at_ms

abbrev pub spent_if : Text → ℕ → CronJob → Bool
spent_if id t job = not (job.id == id) || is_spent t job

-- every job with this ID is such a job
abbrev pub all_spent : Text → ℕ → List CronJob → Bool
all_spent id t = all_jobs (spent_if id t)

pub at_run-passed :
    (t now : ℕ) (at : Option ℕ) → at_passed t at ≡ true → t ≤ now → at_run at now ≡ none
at_run-passed t now none p h = refl
at_run-passed t now (some at) p h = ground (arith, leb→le at t, ltb→lt now at)

pub is_spent-compute_next_run :
    (next_tick : Text → ℕ → Option ℕ) (t now : ℕ) (job : CronJob)
    → is_spent t job ≡ true
    → t ≤ now
    → compute_next_run next_tick job.schedule now ≡ none
unfolding compute_next_run
is_spent-compute_next_run next_tick t now job s h =
    let k : (job.schedule.kind == codes "at") ≡ true = ground arith in
    let p : at_passed t job.schedule.at_ms ≡ true = ground arith in
    rw k (at_run-passed t now job.schedule.at_ms p h)

pub no_run-reached : (next : Option ℕ) (now : ℕ) → no_run next ≡ true → reached next now ≡ false
no_run-reached none now h = refl
no_run-reached (some next) now h = ground arith

pub all_spent-due :
    (id : Text) (t now : ℕ) (jobs : List CronJob)
    → all_spent id t jobs ≡ true
    → is_in id (due_job_ids now jobs) ≡ false
unfolding due_job_ids
all_spent-due id t now [] h = refl
all_spent-due id t now (job ∷ jobs) h = elim (Bool-cases (is_due now job)) [
  | inl d ↦
      let other : (job.id == id) ≡ false =
        ground (arith, no_run-reached job.state.next_run_at_ms now) in
      rw (d, other) (all_spent-due id t now jobs (ground arith))
  | inr d ↦ rw d (all_spent-due id t now jobs (ground arith))
]
