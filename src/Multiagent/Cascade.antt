-- ===== src/Multiagent/Cascade.antt =====
-- pkg/multiagent/cascade.go. A call of Cancel is noted in `cancelled`, by the key of the run. Range
-- goes through the keys that the map holds at its start, and leaves out those deleted meanwhile.
pub mod Steps
pub mod Descendants
mod Tests
use aetherclaw.Common.{
  ℕ, zero, suc, ◌+◌, ◌-◌, ◌/◌, true, false, Option, none, some, List, [], ◌∷◌, ◌++◌, map,
  if◌then◌else◌, ◌==◌, nat_key, length,
}
use aetherclaw.Common.Text.{Text, text_key}
use aetherclaw.Common.Dict.{Dict, get, put, remove}
use aetherclaw.Tools.Registry.Order.{is_listed}

pub record ActiveRun : Type 0 where
  pub session_key : Text
  pub agent_id : Text
  pub parent_key : Text
  pub started_at : ℕ

pub record RunRegistry : Type 0 where
  pub runs : Dict Text ActiveRun
  pub cancelled : List Text

unfoldable pub new_run_registry : RunRegistry
new_run_registry = record { runs = []; cancelled = [] }

unfoldable pub register_run : ActiveRun → RunRegistry → RunRegistry
register_run run r = record { runs = put run.session_key run r.runs; cancelled = r.cancelled }

unfoldable pub deregister : Text → RunRegistry → RunRegistry
deregister session_key r = record { runs = remove session_key r.runs; cancelled = r.cancelled }

abbrev pub keys_of : Dict Text ActiveRun → List Text
keys_of [] = []
keys_of ((key, run) ∷ runs) = key ∷ keys_of runs

-- run.Cancel() and the deletion of the run
unfoldable pub cancel_run : Text → RunRegistry → RunRegistry
cancel_run key r = record { runs = remove key r.runs; cancelled = r.cancelled ++ key ∷ [] }

-- the registry with what cascadeStop hands on: the seen-set and the count
pub record Stopping : Type 0 where
  pub registry : RunRegistry
  pub seen : List Text
  pub killed : ℕ

-- LoadAndDelete and Cancel
unfoldable pub stop_run : Text → Stopping → Stopping
unfolding cancel_run
stop_run session_key s = elim (get session_key s.registry.runs) [
  | none ↦ record { registry = s.registry; seen = session_key ∷ s.seen; killed = s.killed }
  | some run ↦ record {
    registry = cancel_run session_key s.registry;
    seen = session_key ∷ s.seen;
    killed = s.killed + 1;
  }
]

-- Range over the keys, with `stop` for the recursive call; `none` if that runs out of fuel
unfoldable pub stop_children :
    (Text → Stopping → Option Stopping) → Text → List Text → Stopping → Option Stopping
stop_children stop session_key [] s = some s
stop_children stop session_key (key ∷ keys) s = elim (get key s.registry.runs) [
  | none ↦ stop_children stop session_key keys s
  | some child_run ↦ elim (child_run.parent_key == session_key) [
    | false ↦ stop_children stop session_key keys s
    | true ↦ elim (stop key s) [ none ↦ none | some t ↦ stop_children stop session_key keys t ]
  ]
]

-- cascadeStop on fuel for the depth of its calls
unfoldable pub cascade_from : ℕ → Text → Stopping → Option Stopping
unfolding stop_children stop_run
cascade_from zero session_key s = none
cascade_from (suc fuel) session_key s = elim (is_listed session_key s.seen) [
  | true ↦ some s
  | false ↦
      let t = stop_run session_key s in
      stop_children (cascade_from fuel) session_key (keys_of t.registry.runs) t
]

-- CascadeStop: the count is the field `killed`
unfoldable pub cascade_stop : Text → RunRegistry → Option Stopping
cascade_stop session_key r =
    cascade_from (suc (length r.runs)) session_key (record { registry = r; seen = []; killed = 0 })

-- Range of StopAll, over the keys that the map holds at its start
unfoldable pub stop_keys : List Text → ℕ × RunRegistry → ℕ × RunRegistry
unfolding cancel_run
stop_keys [] (killed, r) = (killed, r)
stop_keys (key ∷ keys) (killed, r) = elim (get key r.runs) [
  | none ↦ stop_keys keys (killed, r)
  | some run ↦ stop_keys keys (killed + 1, cancel_run key r)
]

unfoldable pub stop_all : RunRegistry → ℕ × RunRegistry
unfolding stop_keys
stop_all r = stop_keys (keys_of r.runs) (0, r)

unfoldable pub active_count : RunRegistry → ℕ
active_count r = length r.runs

unfoldable pub children_among : Text → Dict Text ActiveRun → List Text
children_among parent_key [] = []
children_among parent_key ((key, run) ∷ runs) =
    let rest = children_among parent_key runs in
    if run.parent_key == parent_key then key ∷ rest else rest

unfoldable pub get_children : Text → RunRegistry → List Text
get_children parent_key r = children_among parent_key r.runs
