-- ===== src/Multiagent/Spawn.antt =====
-- pkg/multiagent/spawn.go. A spawn is two steps: AsyncSpawn, and later the end of its goroutine with
-- what ExecuteHandoff returned. Digests, digits, quotes and the text of a duration are parameters.
pub mod Limits
pub mod Retry
mod Tests
use aetherclaw.Common.{
  ℕ, zero, suc, ◌+◌, ◌-◌, ◌/◌, Bool, true, false, Option, none, some, List, [], ◌∷◌, ◌++◌, ltb,
  if◌then◌else◌, nat_key, length,
}
use aetherclaw.Common.Text.{Text, text_key, codes}
use aetherclaw.Common.Dict.{Dict, get, put}
use aetherclaw.Multiagent.Dedup.{
  DedupCache, check, build_spawn_key, new_dedup_cache, default_dedup_ttl,
}
use aetherclaw.Multiagent.Announce.{Announcement, Announcer, deliver}
use aetherclaw.Multiagent.Cascade.{ActiveRun, RunRegistry, register_run, deregister, get_children}

pub record SpawnRequest : Type 0 where
  pub from_agent_id : Text
  pub to_agent_id : Text
  pub task : Text
  pub context : Dict Text Text
  pub depth : ℕ
  pub visited : List Text
  pub max_depth : ℕ
  pub parent_run_key : Text
  pub reply_to_channel : Text
  pub reply_to_thread : Text
  pub allowlist_checker : Option (Text → Text → Bool)

-- The status with the reason of a rejection.
pub data SpawnStatus : Type 0 where
  denied duplicate children_full accepted : SpawnStatus

pub record SpawnResult : Type 0 where
  pub run_id : Text
  pub session_key : Text
  pub status : SpawnStatus

pub record HandoffResult : Type 0 where
  pub agent_id : Text
  pub content : Text
  pub iterations : ℕ
  pub success : Bool
  pub error : Text

pub record SpawnOutcome : Type 0 where
  pub run_id : Text
  pub session_key : Text
  pub agent_id : Text
  pub content : Text
  pub iterations : ℕ
  pub success : Bool
  pub error : Text
  pub duration : ℕ
  pub reply_to_channel : Text
  pub reply_to_thread : Text

-- The semaphore of a parent is the number of its tokens.
pub record SpawnManager : Type 0 where
  pub registry : RunRegistry
  pub announcer : Option (Announcer SpawnOutcome)
  pub dedup : DedupCache
  pub max_children : ℕ
  pub timeout : ℕ
  pub semaphores : Dict Text ℕ

-- What is printed: digits, quoted texts, durations; and the digest of a task.
pub record Printing : Type 0 where
  pub decimal : ℕ → Text
  pub quoted : Text → Text
  pub duration_text : ℕ → Text
  pub digest : Text → Text

-- The answers of time.Now: for the duplicates, the run's id, the session's key and the run.
pub record SpawnTimes : Type 0 where
  pub checked : ℕ
  pub identified : ℕ
  pub keyed : ℕ
  pub started : ℕ

abbrev pub default_max_children : ℕ
default_max_children = 5

-- 5 minutes
abbrev pub default_spawn_timeout : ℕ
default_spawn_timeout = 300000000000

abbrev pub limit_or_default : ℕ → ℕ → ℕ
limit_or_default default zero = default
limit_or_default default (suc n) = suc n

unfoldable pub new_spawn_manager :
    RunRegistry → Option (Announcer SpawnOutcome) → ℕ → ℕ → SpawnManager
new_spawn_manager registry announcer max_children timeout = record {
  registry = registry;
  announcer = announcer;
  dedup = new_dedup_cache default_dedup_ttl;
  max_children = limit_or_default default_max_children max_children;
  timeout = limit_or_default default_spawn_timeout timeout;
  semaphores = [];
}

abbrev pub count_or_zero : Option ℕ → ℕ
count_or_zero none = 0
count_or_zero (some n) = n

-- getOrCreateSemaphore
unfoldable pub semaphore_of : Text → SpawnManager → ℕ
semaphore_of parent sm = count_or_zero (get parent sm.semaphores)

abbrev pub is_allowed : SpawnRequest → Option (Text → Text → Bool) → Bool
is_allowed req none = true
is_allowed req (some can_handoff) = can_handoff req.from_agent_id req.to_agent_id

unfoldable pub run_id_of : Printing → SpawnTimes → SpawnRequest → Text
run_id_of p t req =
    codes "spawn:"
    ++ (req.from_agent_id
        ++ (codes ":" ++ (req.to_agent_id ++ (codes ":" ++ p.decimal t.identified))))

unfoldable pub session_key_of : Printing → SpawnTimes → SpawnRequest → Text
session_key_of p t req =
    codes "spawn:"
    ++ (req.from_agent_id
        ++ (codes ":"
            ++ (req.to_agent_id
                ++ (codes ":" ++ (p.decimal req.depth ++ (codes ":" ++ p.decimal t.keyed))))))

-- a token, or none; the semaphore is stored either way
unfoldable pub acquire : Text → SpawnManager → Bool × SpawnManager
unfolding semaphore_of
acquire parent sm =
    let count = semaphore_of parent sm in
    let is_free = ltb count sm.max_children in
    (
      is_free,
      record sm { semaphores = put parent (if is_free then count + 1 else count) sm.semaphores },
    )

unfoldable pub release : Text → SpawnManager → SpawnManager
unfolding semaphore_of
release parent sm = record sm { semaphores = put parent (semaphore_of parent sm - 1) sm.semaphores }

-- the registration of the child's run
unfoldable pub register_child : Printing → SpawnTimes → SpawnRequest → SpawnManager → SpawnManager
unfolding session_key_of register_run
register_child p t req sm = record sm {
  registry =
      register_run
        (record {
          session_key = session_key_of p t req;
          agent_id = req.to_agent_id;
          parent_key = req.parent_run_key;
          started_at = t.started;
        })
        sm.registry;
}

-- what follows the acquisition
abbrev pub after_acquire :
    Printing → SpawnTimes → SpawnRequest → Bool × SpawnManager → SpawnResult × SpawnManager
after_acquire p t req (false, sm) = (
  record {
    run_id = run_id_of p t req;
    session_key = session_key_of p t req;
    status = children_full;
  },
  sm,
)
after_acquire p t req (true, sm) = (
  record { run_id = run_id_of p t req; session_key = session_key_of p t req; status = accepted },
  register_child p t req sm,
)

-- what follows the test for a duplicate
abbrev pub after_check :
    Printing
    → SpawnTimes
    → SpawnRequest
    → SpawnManager
    → Bool × DedupCache
    → SpawnResult × SpawnManager
after_check p t req sm (true, dedup) =
    (record { run_id = []; session_key = []; status = duplicate }, record sm { dedup = dedup })
after_check p t req sm (false, dedup) =
    after_acquire p t req (acquire req.parent_run_key (record sm { dedup = dedup }))

unfoldable pub async_spawn :
    Printing → SpawnTimes → SpawnRequest → SpawnManager → SpawnResult × SpawnManager
unfolding acquire register_child
async_spawn p t req sm =
    if is_allowed req req.allowlist_checker
    then after_check p t req sm (
        check t.checked (build_spawn_key p.digest req.from_agent_id req.to_agent_id req.task)
          sm.dedup)
    else (record { run_id = []; session_key = []; status = denied }, sm)

unfoldable pub format_outcome_message : Printing → SpawnOutcome → Text
format_outcome_message p o =
    if o.success
    then codes "[Subagent "
      ++ (p.quoted o.agent_id
          ++ (codes " completed in "
              ++ (p.duration_text o.duration
                  ++ (codes " ("
                      ++ (p.decimal o.iterations ++ (codes " iterations)]:" ++ 10 ∷ o.content))))))
    else codes "[Subagent "
      ++ (p.quoted o.agent_id
          ++ (codes " failed after "
              ++ (p.duration_text o.duration ++ (codes ": " ++ (o.error ++ codes "]")))))

unfoldable pub outcome_of : Printing → SpawnTimes → SpawnRequest → HandoffResult → ℕ → SpawnOutcome
outcome_of p t req result duration = record {
  run_id = run_id_of p t req;
  session_key = session_key_of p t req;
  agent_id = req.to_agent_id;
  content = result.content;
  iterations = result.iterations;
  success = result.success;
  error = result.error;
  duration = duration;
  reply_to_channel = req.reply_to_channel;
  reply_to_thread = req.reply_to_thread;
}

-- the announcement to the parent, at the time `now`
unfoldable pub announce_outcome :
    ℕ
    → Printing
    → SpawnTimes
    → SpawnRequest
    → SpawnOutcome
    → Announcer SpawnOutcome
    → Announcer SpawnOutcome
unfolding format_outcome_message
announce_outcome now p t req outcome a =
    deliver now req.parent_run_key
      (record {
        from_session_key = session_key_of p t req;
        to_session_key = req.parent_run_key;
        run_id = run_id_of p t req;
        agent_id = req.to_agent_id;
        content = format_outcome_message p outcome;
        outcome = some outcome;
        mode = [];
        created_at = 0;
        reply_to_channel = req.reply_to_channel;
        reply_to_thread = req.reply_to_thread;
      })
      a

-- if sm.announcer != nil
abbrev pub announce_if :
    (Announcer SpawnOutcome → Announcer SpawnOutcome)
    → Option (Announcer SpawnOutcome)
    → Option (Announcer SpawnOutcome)
announce_if f none = none
announce_if f (some a) = some (f a)

-- the goroutine after ExecuteHandoff: the announcement, and the deferred calls
unfoldable pub finish_spawn :
    ℕ → Printing → SpawnTimes → SpawnRequest → HandoffResult → ℕ → SpawnManager → SpawnManager
unfolding release announce_outcome outcome_of deregister
finish_spawn now p t req result duration sm = release req.parent_run_key (record sm {
  announcer =
      announce_if (announce_outcome now p t req (outcome_of p t req result duration)) sm.announcer;
  registry = deregister (session_key_of p t req) sm.registry;
})

unfoldable pub active_child_count : Text → SpawnManager → ℕ
unfolding get_children
active_child_count parent_session_key sm = length (get_children parent_session_key sm.registry)
