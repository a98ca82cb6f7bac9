-- ===== src/Cron/Wake.antt =====
-- When the next job is due, and what collections leave (pkg/cron/service.go).
use aetherclaw.Common.{
  ℕ, ◌≡◌, refl, sym, ◌∙◌, ◌⊎◌, inl, inr, Bool, true, false, ◌||◌, not, Option, none, some, List, [],
  ◌∷◌, arith, ltb→lt, lt→ltb, leb→le, le→leb, nat_key, Bool-cases,
}
use aetherclaw.Common.Text.{Text, text_key, is_empty}
use aetherclaw.Cron.{
  CronJob, reached, due_job_ids, is_in, earlier_wake, next_wake_after, get_next_wake_ms,
}
use aetherclaw.Cron.Service.{CronService, CronJson, after_marshal, save_store_unsafe}
use aetherclaw.Cron.Execute.{take_if_running}

reached-earlier_wake :
    (wake next : Option ℕ) (now : ℕ)
    → reached (earlier_wake wake next) now ≡ (reached wake now || reached next now)
reached-earlier_wake none next now = refl
reached-earlier_wake (some w) none now = ground arith
reached-earlier_wake (some w) (some n) now =
    ground (arith, lt→ltb n w, ltb→lt n w, le→leb w now, leb→le w now, le→leb n now, leb→le n now)

next_wake_after-due :
    (jobs : List CronJob) (wake : Option ℕ) (now : ℕ)
    → reached (next_wake_after wake jobs) now
      ≡ (reached wake now || not (is_empty (due_job_ids now jobs)))
unfolding next_wake_after due_job_ids
next_wake_after-due [] wake now = ground arith
next_wake_after-due (job ∷ jobs) wake now = elim (Bool-cases job.enabled) [
  | inl e ↦ rw e (
      next_wake_after-due jobs (earlier_wake wake job.state.next_run_at_ms) now
      ∙ ground (arith, reached-earlier_wake wake job.state.next_run_at_ms now))
  | inr e ↦ rw e (next_wake_after-due jobs wake now)
]

-- The time of the next wake is the earliest at which a job is due: at each time, checkJobs has a job
-- to execute exactly if that time is reached.
pub get_next_wake-due :
    (jobs : List CronJob) (now : ℕ)
    → not (is_empty (due_job_ids now jobs)) ≡ reached (get_next_wake_ms jobs) now
get_next_wake-due jobs now = sym (next_wake_after-due jobs none now)

module _ {B E : Type 0} (json : CronJson B E) where
  after_marshal-store :
      (cs : CronService B E) (failure : Option E) (r : E ⊎ B)
      → (after_marshal cs failure r).1.store ≡ cs.store
  after_marshal-store cs failure (inl e) = refl
  after_marshal-store cs none (inr bytes) = refl
  after_marshal-store cs (some e) (inr bytes) = refl

  after_marshal-running :
      (cs : CronService B E) (failure : Option E) (r : E ⊎ B)
      → (after_marshal cs failure r).1.running ≡ cs.running
  after_marshal-running cs failure (inl e) = refl
  after_marshal-running cs none (inr bytes) = refl
  after_marshal-running cs (some e) (inr bytes) = refl

  pub save_store-same :
      (failure : Option E) (cs : CronService B E)
      → ((save_store_unsafe json failure cs).1.store ≡ cs.store)
        × ((save_store_unsafe json failure cs).1.running ≡ cs.running)
  unfolding save_store_unsafe
  save_store-same failure cs = (
    after_marshal-store cs failure (json.marshal_jobs cs.store),
    after_marshal-running cs failure (json.marshal_jobs cs.store),
  )

  pub take_if_running-none :
      (running : Bool) (failure : Option E) (now : ℕ) (cs : CronService B E) (id : Text)
      → is_in id (due_job_ids now cs.store.jobs) ≡ false
      → is_in id (take_if_running json running failure now cs).0 ≡ false
  take_if_running-none false failure now cs id h = refl
  take_if_running-none true failure now cs id h = h
