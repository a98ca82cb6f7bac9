-- ===== src/Cron/Service.antt =====
-- pkg/cron/service.go: the methods of CronService. `B` is the type of what the store's file holds and
-- `E` that of errors; package json and the clock are parameters, as are the errors of writing.
use aetherclaw.Common.{
  ℕ, ◌⊎◌, inl, inr, Bool, true, false, Option, none, some, List, [], ◌∷◌, ◌++◌, ltb, if◌then◌else◌,
  ◌==◌, nat_key, length,
}
use aetherclaw.Common.Text.{Text, text_key, codes}
use aetherclaw.Cron.{
  CronSchedule, CronJob, CronStore, compute_next_run, set_next, recompute_next_runs,
  get_next_wake_ms, find_job, replace_job, without_job, enabled_jobs,
}

-- what the file of the store is found to be
pub data StoreFile (B E : Type 0) : Type 0 where
  absent : StoreFile B E
  no_read : E → StoreFile B E
  holds : B → StoreFile B E

pub record CronService (B E : Type 0) : Type 0 where
  pub store : CronStore
  pub running : Bool
  pub file : StoreFile B E

-- json.MarshalIndent, and json.Unmarshal into a store, which an error may leave partly filled
pub record CronJson (B E : Type 0) : Type 0 where
  pub marshal_jobs : CronStore → E ⊎ B
  pub unmarshal_jobs : B → CronStore → Option E × CronStore

-- Status
pub record CronStatus : Type 0 where
  pub status_enabled : Bool
  pub status_jobs : ℕ
  pub next_wake_at_ms : Option ℕ

abbrev pub new_cron_store : CronStore
new_cron_store = record { version = 1; jobs = [] }

module _ {B E : Type 0} where
  abbrev pub with_jobs : CronService B E → List CronJob → CronService B E
  with_jobs cs jobs = record cs { store = record (cs.store) { jobs = jobs } }

  abbrev pub stop : CronService B E → CronService B E
  stop cs = record cs { running = false }

  abbrev pub list_jobs : Bool → CronService B E → List CronJob
  list_jobs include_disabled cs =
      if include_disabled then cs.store.jobs else enabled_jobs cs.store.jobs

  abbrev pub cron_status : CronService B E → CronStatus
  cron_status cs = record {
    status_enabled = cs.running;
    status_jobs = length cs.store.jobs;
    next_wake_at_ms = get_next_wake_ms cs.store.jobs;
  }

  abbrev pub after_write : CronService B E → B → Option E → Option E × CronService B E
  after_write cs bytes none = (none, record cs { file = holds bytes })
  after_write cs bytes (some e) = (some e, cs)

  abbrev pub after_marshal : CronService B E → Option E → E ⊎ B → Option E × CronService B E
  after_marshal cs failure (inl e) = (some e, cs)
  after_marshal cs failure (inr bytes) = after_write cs bytes failure

  abbrev pub change_job : Text → (CronJob → CronJob) → CronService B E → CronService B E
  change_job job_id f cs = with_jobs cs (replace_job job_id f cs.store.jobs)

  abbrev pub update_result : Option E × CronService B E → Option (Option E) × CronService B E
  update_result (none, cs) = (none, cs)
  update_result (some e, cs) = (some (some e), cs)

module _ {B E : Type 0} (json : CronJson B E) where
  -- `failure` is the error of WriteFileAtomic.
  unfoldable pub save_store_unsafe : Option E → CronService B E → Option E × CronService B E
  save_store_unsafe failure cs = after_marshal cs failure (json.marshal_jobs cs.store)

  -- the error, and the store that is loaded
  abbrev pub read_store : StoreFile B E → Option E × CronStore
  read_store absent = (none, new_cron_store)
  read_store (no_read e) = (some e, new_cron_store)
  read_store (holds bytes) = json.unmarshal_jobs bytes new_cron_store

  unfoldable pub load_store : CronService B E → Option E × CronService B E
  load_store cs = let (err, store) = read_store cs.file in (err, record cs { store = store })

  -- NewCronService
  abbrev pub new_cron_service : StoreFile B E → CronService B E
  new_cron_service file =
      (load_store (record { store = new_cron_store; running = false; file = file })).1

  abbrev pub after_save : Option E × CronService B E → Option E × CronService B E
  after_save (some e, cs) = (some e, cs)
  after_save (none, cs) = (none, record cs { running = true })

  -- removeJobUnsafe: whether a job was removed; its error of writing is logged
  unfoldable pub remove_job_unsafe : Option E → Text → CronService B E → Bool × CronService B E
  remove_job_unsafe failure job_id cs =
      let jobs = without_job job_id cs.store.jobs in
      let removed = ltb (length jobs) (length cs.store.jobs) in
      let cs' = with_jobs cs jobs in
      (removed, if removed then (save_store_unsafe failure cs').1 else cs')

  -- RemoveJob
  abbrev pub remove_job : Option E → Text → CronService B E → Bool × CronService B E
  remove_job = remove_job_unsafe

  -- UpdateJob, with `none` of the error for the job that is not found
  abbrev pub update_found :
      Option E
      → ℕ
      → CronJob
      → CronService B E
      → Option CronJob
      → Option (Option E) × CronService B E
  update_found failure now job cs none = (some none, cs)
  update_found failure now job cs (some old) =
      update_result
        (save_store_unsafe failure (change_job job.id (λ j. record job { updated_at_ms = now }) cs))

  unfoldable pub update_job :
      Option E → ℕ → CronJob → CronService B E → Option (Option E) × CronService B E
  update_job failure now job cs = update_found failure now job cs (find_job job.id cs.store.jobs)

  module _ (next_tick : Text → ℕ → Option ℕ) where
    abbrev pub after_load : Option E → ℕ → Option E × CronService B E → Option E × CronService B E
    after_load failure now (some e, cs) = (some e, cs)
    after_load failure now (none, cs) =
        after_save (
          save_store_unsafe failure
            (with_jobs cs (recompute_next_runs next_tick now cs.store.jobs)))

    unfoldable pub start_service : Option E → ℕ → CronService B E → Option E × CronService B E
    start_service failure now cs =
        if cs.running then (none, cs) else after_load failure now (load_store cs)

    unfoldable pub add_job :
        Option E
        → Text
        → ℕ
        → Text
        → CronSchedule
        → Text
        → Bool
        → Text
        → Text
        → CronService B E
        → (E ⊎ CronJob) × CronService B E
    add_job failure new_id now name schedule message to_deliver channel to cs =
        let job : CronJob = record {
          id = new_id;
          name = name;
          enabled = true;
          schedule = schedule;
          payload = record {
            payload_kind = codes "agent_turn";
            message = message;
            command = [];
            to_deliver = to_deliver;
            channel = channel;
            to = to;
          };
          state = record {
            next_run_at_ms = compute_next_run next_tick schedule now;
            last_run_at_ms = none;
            last_status = [];
            last_error = [];
          };
          created_at_ms = now;
          updated_at_ms = now;
          delete_after_run = schedule.kind == codes "at";
        } in
        let (err, cs') = save_store_unsafe failure (with_jobs cs (cs.store.jobs ++ job ∷ [])) in
        (elim err [ none ↦ inr job | some e ↦ inl e ], cs')

    abbrev pub enable_found :
        Option E
        → ℕ
        → ℕ
        → Text
        → Bool
        → CronService B E
        → Option CronJob
        → Option CronJob × CronService B E
    enable_found failure updated now job_id enabled cs none = (none, cs)
    enable_found failure updated now job_id enabled cs (some job) =
        let next = if enabled then compute_next_run next_tick job.schedule now else none in
        let change = λ (j : CronJob).
          set_next next (record j { enabled = enabled; updated_at_ms = updated }) in
        (some (change job), (save_store_unsafe failure (change_job job_id change cs)).1)

    unfoldable pub enable_job :
        Option E → ℕ → ℕ → Text → Bool → CronService B E → Option CronJob × CronService B E
    enable_job failure updated now job_id enabled cs =
        enable_found failure updated now job_id enabled cs (find_job job_id cs.store.jobs)
