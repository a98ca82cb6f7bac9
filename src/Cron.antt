-- ===== src/Cron.antt =====
-- pkg/cron/service.go: jobs, their schedules, and which are due. Times are milliseconds; a negative
-- time counts as 0. `next_tick` is gronx.NextTickAfter, with `none` for an error.
pub mod Service
pub mod Execute
pub mod Wake
pub mod AllJobs
pub mod Once
pub mod Steps
pub mod AtMostOnce
pub mod Waiting
mod Tests
use aetherclaw.Common.{
  ℕ, ◌+◌, Bool, false, ◌&&◌, ◌||◌, Option, none, some, List, [], ◌∷◌, ltb, leb, if◌then◌else◌, ◌==◌,
  nat_key,
}
use aetherclaw.Common.Text.{Text, text_key, codes, is_empty}

pub record CronSchedule : Type 0 where
  pub kind : Text
  pub at_ms : Option ℕ
  pub every_ms : Option ℕ
  pub expr : Text
  pub tz : Text

pub record CronPayload : Type 0 where
  pub payload_kind : Text
  pub message : Text
  pub command : Text
  pub to_deliver : Bool
  pub channel : Text
  pub to : Text

pub record CronJobState : Type 0 where
  pub next_run_at_ms : Option ℕ
  pub last_run_at_ms : Option ℕ
  pub last_status : Text
  pub last_error : Text

pub record CronJob : Type 0 where
  pub id : Text
  pub name : Text
  pub enabled : Bool
  pub schedule : CronSchedule
  pub payload : CronPayload
  pub state : CronJobState
  pub created_at_ms : ℕ
  pub updated_at_ms : ℕ
  pub delete_after_run : Bool

pub record CronStore : Type 0 where
  pub version : ℕ
  pub jobs : List CronJob

abbrev pub at_run : Option ℕ → ℕ → Option ℕ
at_run none now = none
at_run (some at) now = if ltb now at then some at else none

abbrev pub every_run : Option ℕ → ℕ → Option ℕ
every_run none now = none
every_run (some every) now = if leb every 0 then none else some (now + every)

unfoldable pub compute_next_run : (Text → ℕ → Option ℕ) → CronSchedule → ℕ → Option ℕ
compute_next_run next_tick schedule now =
    if schedule.kind == codes "at"
    then at_run schedule.at_ms now
    else if schedule.kind == codes "every"
    then every_run schedule.every_ms now
    else if schedule.kind == codes "cron"
    then (if is_empty schedule.expr then none else next_tick schedule.expr now)
    else none

abbrev pub set_next : Option ℕ → CronJob → CronJob
set_next next job = record job { state = record (job.state) { next_run_at_ms = next } }

unfoldable pub recompute_next_runs : (Text → ℕ → Option ℕ) → ℕ → List CronJob → List CronJob
recompute_next_runs next_tick now [] = []
recompute_next_runs next_tick now (job ∷ jobs) =
    let rest = recompute_next_runs next_tick now jobs in
    (if job.enabled then set_next (compute_next_run next_tick job.schedule now) job else job) ∷ rest

abbrev pub reached : Option ℕ → ℕ → Bool
reached none now = false
reached (some next) now = leb next now

-- the test of the loop that collects the jobs
abbrev pub is_due : ℕ → CronJob → Bool
is_due now job = job.enabled && reached job.state.next_run_at_ms now

unfoldable pub due_job_ids : ℕ → List CronJob → List Text
due_job_ids now [] = []
due_job_ids now (job ∷ jobs) =
    let rest = due_job_ids now jobs in if is_due now job then job.id ∷ rest else rest

-- dueMap[id]
abbrev pub is_in : Text → List Text → Bool
is_in id [] = false
is_in id (other ∷ ids) = other == id || is_in id ids

-- the loop that resets the next run of the due jobs
unfoldable pub reset_due : List Text → List CronJob → List CronJob
reset_due ids [] = []
reset_due ids (job ∷ jobs) =
    (if is_in job.id ids then set_next none job else job) ∷ reset_due ids jobs

abbrev pub earlier_wake : Option ℕ → Option ℕ → Option ℕ
earlier_wake none next = next
earlier_wake (some wake) none = some wake
earlier_wake (some wake) (some next) = if ltb next wake then some next else some wake

-- the loop of getNextWakeMS, with the time found so far
unfoldable pub next_wake_after : Option ℕ → List CronJob → Option ℕ
next_wake_after wake [] = wake
next_wake_after wake (job ∷ jobs) =
    next_wake_after (if job.enabled then earlier_wake wake job.state.next_run_at_ms else wake) jobs

abbrev pub get_next_wake_ms : List CronJob → Option ℕ
get_next_wake_ms = next_wake_after none

-- the job that the loops over the IDs find
unfoldable pub find_job : Text → List CronJob → Option CronJob
find_job job_id [] = none
find_job job_id (job ∷ jobs) =
    let rest = find_job job_id jobs in if job.id == job_id then some job else rest

-- a change of that job in place
unfoldable pub replace_job : Text → (CronJob → CronJob) → List CronJob → List CronJob
replace_job job_id f [] = []
replace_job job_id f (job ∷ jobs) =
    let rest = replace_job job_id f jobs in if job.id == job_id then f job ∷ jobs else job ∷ rest

unfoldable pub without_job : Text → List CronJob → List CronJob
without_job job_id [] = []
without_job job_id (job ∷ jobs) =
    let rest = without_job job_id jobs in if job.id == job_id then rest else job ∷ rest

unfoldable pub enabled_jobs : List CronJob → List CronJob
enabled_jobs [] = []
enabled_jobs (job ∷ jobs) = let rest = enabled_jobs jobs in if job.enabled then job ∷ rest else rest
