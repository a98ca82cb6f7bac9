-- ===== src/Cron/Tests.antt =====
-- A job at a time and one that is repeated (pkg/cron/service.go).
use aetherclaw.Common.{
  ℕ, ◌≡◌, refl, inr, true, false, not, Option, none, some, List, [], ◌∷◌, nat_key,
}
use aetherclaw.Common.Text.{Text, text_key, codes, is_empty, text_beq}
use aetherclaw.Cron.{
  CronSchedule, CronJob, CronStore, due_job_ids, is_in, reset_due, get_next_wake_ms, find_job,
  replace_job, without_job, reached,
}
use aetherclaw.Cron.Service.{absent, CronService, CronJson, save_store_unsafe, remove_job_unsafe}
use aetherclaw.Cron.Execute.{
  JobRun, take_due, finish_job, check_jobs, execute_all, execute_job_by_id,
}
use aetherclaw.Cron.Wake.{get_next_wake-due}
use aetherclaw.Cron.Steps.{CronStep, take_step, finish_step, remove_step, enable_step, apply_steps}
use aetherclaw.Cron.AtMostOnce.{take_due_once}
use aetherclaw.Cron.Waiting.{take_due_waits}

abbrev no_tick : Text → ℕ → Option ℕ
no_tick expr now = none

abbrev at_5 : CronSchedule
at_5 = record { kind = codes "at"; at_ms = some 5; every_ms = none; expr = []; tz = [] }

abbrev every_10 : CronSchedule
every_10 = record { kind = codes "every"; at_ms = none; every_ms = some 10; expr = []; tz = [] }

abbrev job : Text → CronSchedule → ℕ → CronJob
job id schedule next = record {
  id = id;
  name = id;
  enabled = true;
  schedule = schedule;
  payload = record {
    payload_kind = codes "agent_turn";
    message = [];
    command = [];
    to_deliver = false;
    channel = [];
    to = [];
  };
  state = record {
    next_run_at_ms = some next;
    last_run_at_ms = none;
    last_status = [];
    last_error = [];
  };
  created_at_ms = 0;
  updated_at_ms = 0;
  delete_after_run = true;
}

abbrev jobs : List CronJob
jobs = job (codes "a") at_5 5 ∷ job (codes "b") every_10 12 ∷ []

abbrev json : CronJson CronStore ℕ
json = record { marshal_jobs = λ s. inr s; unmarshal_jobs = λ s old. (none, s) }

abbrev service : CronService CronStore ℕ
service = record { store = record { version = 1; jobs = jobs }; running = true; file = absent }

abbrev run : JobRun ℕ
run = record { start = 6; updated = 7; now = 7; removal = none; failure = none }

abbrev no_text : ℕ → Text
no_text e = []

-- The job at a time is executed and removed, the other one waits.
checked :
    (check_jobs json no_tick no_text none (λ id. run) none 6 service).store.jobs
    ≡ job (codes "b") every_10 12 ∷ []
unfolding check_jobs take_due due_job_ids reset_due save_store_unsafe execute_all execute_job_by_id
    finish_job find_job replace_job without_job remove_job_unsafe text_beq
checked = refl

get_next_wake-due_example : not (is_empty (due_job_ids 6 jobs)) ≡ reached (get_next_wake_ms jobs) 6
get_next_wake-due_example = get_next_wake-due jobs 6

abbrev other_steps : List (CronStep ℕ)
other_steps =
    take_step (some 1) 7
    ∷ enable_step none 8 8 (codes "a") false
    ∷ finish_step run (codes "b") none
    ∷ remove_step none (codes "b")
    ∷ []

take_due_waits_example :
    is_in
      (codes "a")
      (take_due json none 9
        (apply_steps json no_tick no_text other_steps (take_due json none 6 service).1)).0
    ≡ false
unfolding take_due due_job_ids text_beq
take_due_waits_example =
    take_due_waits json no_tick no_text (codes "a") none none 6 9 service other_steps refl refl

abbrev steps : List (CronStep ℕ)
steps =
    enable_step none 6 6 (codes "a") true
    ∷ finish_step run (codes "b") (some 1)
    ∷ enable_step none 8 8 (codes "a") true
    ∷ []

take_due_once_example :
    is_in
      (codes "a")
      (take_due json none 9
        (apply_steps json no_tick no_text steps (take_due json none 6 service).1)).0
    ≡ false
unfolding take_due due_job_ids text_beq
take_due_once_example =
    take_due_once json no_tick no_text (codes "a") 5 none none 6 9 service steps refl refl refl
