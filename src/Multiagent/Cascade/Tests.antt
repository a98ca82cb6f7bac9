-- ===== src/Multiagent/Cascade/Tests.antt =====
-- CascadeStop on a registry of four runs.
use aetherclaw.Common.{◌≡◌, refl, ◌⊎◌, true, none, some, [], ◌∷◌, nat_key}
use aetherclaw.Common.Text.{Text, text_key, codes, text_beq}
use aetherclaw.Common.Dict.{get, remove}
use aetherclaw.Tools.Registry.Order.{is_listed}
use aetherclaw.Multiagent.Cascade.{
  ActiveRun, RunRegistry, Stopping, cancel_run, stop_run, stop_children, cascade_from, cascade_stop,
  stop_keys, stop_all,
}
use aetherclaw.Multiagent.Cascade.Steps.{Below}
use aetherclaw.Multiagent.Cascade.Descendants.{cascade_stop-Below}

abbrev run_of : Text → Text → Text × ActiveRun
run_of key parent =
    (key, record { session_key = key; agent_id = []; parent_key = parent; started_at = 0 })

-- "a" started "b", which started "c"; "d" is alone
abbrev four_runs : RunRegistry
four_runs = record {
  runs =
      run_of (codes "c") (codes "b")
      ∷ run_of (codes "a") []
      ∷ run_of (codes "d") []
      ∷ run_of (codes "b") (codes "a")
      ∷ [];
  cancelled = [];
}

stops_three :
    cascade_stop (codes "a") four_runs
    ≡ some (record {
      registry = record {
        runs = run_of (codes "d") [] ∷ [];
        cancelled = codes "a" ∷ codes "b" ∷ codes "c" ∷ [];
      };
      seen = codes "c" ∷ codes "b" ∷ codes "a" ∷ [];
      killed = 3;
    })
unfolding cascade_stop cascade_from stop_children stop_run cancel_run get remove is_listed text_beq
stops_three = refl

stops_all :
    stop_all four_runs
    ≡ (4, record { runs = []; cancelled = codes "c" ∷ codes "a" ∷ codes "d" ∷ codes "b" ∷ [] })
unfolding stop_all stop_keys cancel_run get remove text_beq
stops_all = refl

cascade_stop-Below_example :
    (t : Stopping) × (cascade_stop (codes "a") four_runs ≡ some t)
    × ((k : Text)
        → (Below four_runs.runs (codes "a") k
            × (get k t.registry.runs ≡ none)
            × ((run : ActiveRun)
                → get k four_runs.runs ≡ some run
                → is_listed k t.registry.cancelled ≡ true))
          ⊎ ((¬ Below four_runs.runs (codes "a") k)
              × (get k t.registry.runs ≡ get k four_runs.runs)))
cascade_stop-Below_example = cascade_stop-Below (codes "a") four_runs
