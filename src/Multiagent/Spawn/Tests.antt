-- ===== src/Multiagent/Spawn/Tests.antt =====
-- A parent that may have one child.
use aetherclaw.Common.{ℕ, ◌≤◌, ◌≡◌, refl, true, none, some, [], ◌∷◌, arith, nat_key}
use aetherclaw.Common.Text.{Text, text_key, codes, text_beq}
use aetherclaw.Common.Dict.{get, put, remove}
use aetherclaw.Multiagent.Dedup.{check, registered, build_spawn_key, new_dedup_cache}
use aetherclaw.Multiagent.Cascade.{register_run, deregister, active_count}
use aetherclaw.Multiagent.Spawn.{
  SpawnRequest, children_full, duplicate, accepted, HandoffResult, SpawnManager, Printing,
  SpawnTimes, new_spawn_manager, semaphore_of, acquire, release, register_child, session_key_of,
  async_spawn, finish_spawn,
}
use aetherclaw.Multiagent.Spawn.Limits.{begins, spawns, Reachable-children}
use aetherclaw.Multiagent.Spawn.Retry.{End, finish_all, children_full-duplicate}

abbrev printing : Printing
printing = record {
  decimal = λ n. n ∷ [];
  quoted = λ s. s;
  duration_text = λ n. n ∷ [];
  digest = λ s. s;
}

abbrev at : ℕ → SpawnTimes
at n = record { checked = n; identified = n; keyed = n; started = n }

abbrev asks_for : Text → SpawnRequest
asks_for task = record {
  from_agent_id = codes "main";
  to_agent_id = codes "coder";
  task = task;
  context = [];
  depth = 0;
  visited = [];
  max_depth = 0;
  parent_run_key = codes "s";
  reply_to_channel = [];
  reply_to_thread = [];
  allowlist_checker = none;
}

abbrev one_child : SpawnManager
one_child =
    new_spawn_manager (record { runs = []; cancelled = [] })
      (some (record { channels = []; buf_size = 4 })) 1 0

abbrev busy : SpawnManager
busy = (async_spawn printing (at 1) (asks_for (codes "x")) one_child).1

abbrev done : HandoffResult
done = record {
  agent_id = codes "coder";
  content = codes "ok";
  iterations = 1;
  success = true;
  error = [];
}

abbrev ended : End
ended = record {
  now = 3;
  times = at 1;
  request = asks_for (codes "x");
  result = done;
  duration = 2;
}

starts_one : (async_spawn printing (at 1) (asks_for (codes "x")) one_child).0.status ≡ accepted
unfolding async_spawn new_spawn_manager new_dedup_cache check registered build_spawn_key get put
    acquire semaphore_of
starts_one = refl

second_is_rejected :
    (async_spawn printing (at 2) (asks_for (codes "y")) busy).0.status ≡ children_full
unfolding async_spawn new_spawn_manager new_dedup_cache check registered build_spawn_key get put
    text_beq acquire semaphore_of register_child
second_is_rejected = refl

-- The end of the child gives the token back and announces the result.
ends_one :
    let sm = finish_all printing (ended ∷ []) busy in
    (semaphore_of (codes "s") sm ≡ 0) × (active_count sm.registry ≡ 0)
unfolding finish_spawn async_spawn new_spawn_manager new_dedup_cache check registered
    build_spawn_key get put remove text_beq acquire release semaphore_of register_child register_run
    deregister session_key_of active_count
ends_one = (refl, refl)

Reachable-children_example : (semaphore_of (codes "s") busy ≡ 1) × (1 ≤ one_child.max_children)
unfolding async_spawn new_spawn_manager new_dedup_cache check registered build_spawn_key get put
    text_beq acquire semaphore_of
Reachable-children_example =
    Reachable-children printing (record { runs = []; cancelled = [] })
      (some (record { channels = []; buf_size = 4 })) 1 0 busy ((at 1, asks_for (codes "x")) ∷ [])
      (spawns (at 1) (asks_for (codes "x")) begins) (codes "s")

children_full-duplicate_example :
    (async_spawn printing (at 9) (asks_for (codes "y")) (
      finish_all printing
        (ended ∷ [])
        (async_spawn printing (at 2) (asks_for (codes "y")) busy).1)).0.status
    ≡ duplicate
unfolding new_spawn_manager new_dedup_cache async_spawn acquire register_child check registered get
children_full-duplicate_example =
    children_full-duplicate printing (at 2) (at 9) (asks_for (codes "y")) busy (ended ∷ [])
      second_is_rejected (omega arith)
