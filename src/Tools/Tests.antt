-- ===== src/Tools/Tests.antt =====
-- A registry with a policy, the autonomy of an agent, and the loop detector.
use aetherclaw.Common.{
  ℕ, ◌+◌, ◌≡◌, refl, true, false, none, some, [], ◌∷◌, arith, if◌then◌else◌, nat_key, length,
}
use aetherclaw.Common.Text.{Text, text_key, text_beq, codes}
use aetherclaw.Common.Dict.{get}
use aetherclaw.Tools.LoopDetector.{LoopDetectorConfig, Reason, Hashing}
use aetherclaw.Tools.Registry.{Tool, ToolRegistry, Messages, get_tool, execute_tool, execute_found}
use aetherclaw.Tools.Registry.Policy.{ToolPolicy, apply_policy}
use aetherclaw.Tools.Registry.Policy.Survivors.{survives, apply_policy-survives}
use aetherclaw.Tools.Registry.Execution.{with_execute, autonomy_stops}
use aetherclaw.Tools.Autonomy.{AutonomyError, AutonomyHook, autonomy_hook, get_tool_level}
use aetherclaw.Tools.Guarded.{Guarded, guarded_registry, execute_times, execute_times-stopped}

-- A tool that counts its runs.
abbrev counting : {E : Type 0} → Text → Tool ℕ Text Text E
counting name = record {
  name = name;
  description = [];
  parameters = [];
  call = λ args w. (
    record {
      for_llm = args;
      for_user = [];
      silent = false;
      is_error = false;
      async = false;
      err = none;
      media = [];
    },
    w + 1,
  );
  set_context = none;
  set_callback = none;
}

abbrev two_tools : ToolRegistry ℕ Text Text ℕ
two_tools = record {
  tools =
      (codes "read_file", counting (codes "read_file"))
      ∷ (codes "handoff", counting (codes "handoff"))
      ∷ [];
  hooks = [];
}

abbrev files_only : ToolPolicy
files_only = record { allow = codes "group:fs" ∷ []; deny = codes "write_file" ∷ [] }

apply_policy-survives_example :
    get_tool (codes "handoff") (apply_policy two_tools files_only)
    ≡ (if survives files_only (codes "handoff") then get_tool (codes "handoff") two_tools else none)
apply_policy-survives_example = apply_policy-survives two_tools files_only (codes "handoff")

abbrev observer : AutonomyHook ℕ ℕ
observer = record {
  agent_level = 0;
  agent_id = codes "main";
  approver = none;
  classifications = (codes "exec", 3) ∷ [];
}

abbrev numbered : Messages (AutonomyError ℕ)
numbered = record {
  not_found = λ name. name;
  tool_not_found = AutonomyError.not_allowed [] 0;
  blocked = λ e. codes "blocked";
}

autonomy_stops_example :
    (execute_found numbered
        (with_execute
          (counting (codes "exec"))
          (λ args w. ((counting {E = AutonomyError ℕ} []).call args w)))
        (autonomy_hook observer ∷ [])
        (codes "exec")
        (codes "rm")
        []
        []
        none
        7
      ≡ execute_found numbered
          (counting (codes "exec"))
          (autonomy_hook observer ∷ [])
          (codes "exec")
          (codes "rm")
          []
          []
          none
          7)
    × ((execute_found numbered
          (counting (codes "exec"))
          (autonomy_hook observer ∷ [])
          (codes "exec")
          (codes "rm")
          []
          []
          none
          7).0.is_error
        ≡ true)
autonomy_stops_example =
    autonomy_stops numbered observer [] [] (counting (codes "exec"))
      (λ args w. ((counting {E = AutonomyError ℕ} []).call args w)) (codes "exec") (codes "rm") []
      [] none 7 refl (unfold get_tool_level get text_beq in omega arith)

abbrev small : LoopDetectorConfig
small = record {
  history_size = 3;
  warning_threshold = 1;
  critical_threshold = 2;
  circuit_breaker_threshold = 9;
  enable_generic_repeat = true;
  enable_ping_pong = false;
}

abbrev plain : Hashing Text
plain = record { arg_count = length; marshal = some; digest = λ s. s }

abbrev fresh : Guarded ℕ
fresh = record { detector = record { config = small; sessions = [] }; outer = 0 }

abbrev loop_messages : Messages (Reason × ℕ)
loop_messages = record {
  not_found = λ name. name;
  tool_not_found = (Reason.repeated, 0);
  blocked = λ e. codes "loop detected";
}

execute_times-stopped_example :
    let r =
      guarded_registry plain
        (codes "s")
        Text
        loop_messages
        (codes "read")
        (codes "x")
        (counting (codes "read")).call in
    let h =
      execute_times plain
        (codes "s")
        Text
        loop_messages
        (codes "read")
        (codes "x")
        (counting (codes "read")).call
        2
        fresh in
    let (result, h') = execute_tool loop_messages r (codes "read") (codes "x") h in
    (result.is_error ≡ true) × (h'.outer ≡ h.outer)
execute_times-stopped_example =
    execute_times-stopped plain (codes "s") Text loop_messages (codes "read") (codes "x")
      (counting (codes "read")).call fresh refl (omega arith)
