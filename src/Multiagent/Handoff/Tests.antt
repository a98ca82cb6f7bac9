-- ===== src/Multiagent/Handoff/Tests.antt =====
-- Two agents with handoff tools.
use aetherclaw.Common.{
  ℕ, ◌+◌, ◌≡◌, refl, subst, inl, inr, false, none, some, [], ◌∷◌, arith, if◌then◌else◌, ◌==◌,
  nat_key, some_inj, Bool-cases,
}
use aetherclaw.Common.Text.{Text, text_key, codes, text_beq}
use aetherclaw.Common.Dict.{get, put}
use aetherclaw.Tools.Registry.{ToolRegistry, Tool, get_tool}
use aetherclaw.Tools.Registry.Order.{is_listed}
use aetherclaw.Multiagent.Handoff.{
  AgentInfo, HandoffRequest, HandoffTool, cycle, HandoffState, HandoffEnv, new_handoff_tool,
  max_depth_of, check_handoff, deeper, enter_handoff, execute_handoff, target_tools,
}
use aetherclaw.Multiagent.Handoff.Tool.{
  HandoffArgs, request_of, handoff_execute, handoff_to, choose_agent, child_key,
}
use aetherclaw.Multiagent.Handoff.Leaf.{leaf_denied, target_tools-leaf}
use aetherclaw.Multiagent.Handoff.Chain.{unused, elsewhere, handed, Chained, Chains-Chained}

abbrev agent_of : Text → AgentInfo ℕ Text Text ℕ
agent_of id = record {
  id = id;
  name = id;
  role = [];
  system_prompt = [];
  system_prompt_fn = none;
  tools = none;
  max_iter = 0;
  capabilities = [];
}

abbrev two_agents : HandoffState ℕ
two_agents = record {
  handoff_tools =
      (codes "a", new_handoff_tool (codes "a")) ∷ (codes "b", new_handoff_tool (codes "b")) ∷ [];
  board = none;
  runs = none;
  world = 0;
}

abbrev quiet_env : HandoffEnv ℕ Text Text ℕ
quiet_env = record {
  get_agent_info = λ id. some (agent_of id);
  list_agents = [];
  run_loop = λ tools n prompt task s.
      (inr (record { content = task; iterations = 1 }), record s { world = s.world + 1 });
  failure_text = λ req failure. [];
}

abbrev to_b : HandoffArgs
to_b = record { agent_id = codes "b"; capability = []; task = codes "do"; context = [] }

abbrev one_digit : ℕ → Text
one_digit n = n ∷ []

two_agents-Chained :
    (agent : Text) (t : HandoffTool) → get agent two_agents.handoff_tools ≡ some t → Chained t
unfolding get max_depth_of
two_agents-Chained agent t e = elim (Bool-cases (codes "a" == agent)) [
  | inl same ↦ subst Chained (some_inj (rw same at e)) (new_tool (codes "a"))
  | inr other ↦ elim (Bool-cases (codes "b" == agent)) [
    | inl same ↦ subst Chained (some_inj (rw (other, same) at e)) (new_tool (codes "b"))
    | inr neither ↦ cc (rw (other, neither) at e)
  ]
]
  where
    new_tool : (from : Text) → Chained (new_handoff_tool from)
    new_tool from = record { distinct = tt; measured = refl; limited = omega arith }

abbrev after_handoff : HandoffState ℕ
after_handoff =
    (handoff_execute one_digit quiet_env 5 (new_handoff_tool (codes "a")) to_b two_agents).1

abbrev tool_of_b : HandoffTool
tool_of_b = record {
  from_agent_id = codes "b";
  depth = 1;
  visited = codes "b" ∷ [];
  max_depth = 3;
  allowlist_checker = none;
  parent_session_key = child_key one_digit quiet_env 5 (new_handoff_tool (codes "a")) (codes "b");
}

Chains-Chained_example : Chained tool_of_b
unfolding get text_beq handoff_execute handoff_to execute_handoff choose_agent check_handoff
    max_depth_of is_listed enter_handoff deeper request_of put
Chains-Chained_example =
    Chains-Chained quiet_env.get_agent_info two_agents two_agents-Chained after_handoff
      (elsewhere after_handoff
        (handed (codes "a") (codes "b") (codes "do")
          (child_key one_digit quiet_env 5 (new_handoff_tool (codes "a")) (codes "b")) [] 5
          (new_handoff_tool (codes "a")) (agent_of (codes "b")) unused refl refl)
        refl)
      (codes "b") tool_of_b refl

-- After that handoff has ended, a handoff of "b" to itself is refused as a cycle of a chain that is
-- no longer under way.
still_in_chain :
    check_handoff quiet_env.get_agent_info (request_of (codes "b") (codes "x") [] [] tool_of_b)
    ≡ inl cycle
unfolding check_handoff request_of max_depth_of is_listed text_beq
still_in_chain = refl

-- A tool that only has a name.
abbrev named_tool : Text → Tool ℕ Text Text ℕ
named_tool name = record {
  name = name;
  description = [];
  parameters = [];
  call = λ args w. (
    record {
      for_llm = args;
      for_user = [];
      silent = false;
      is_error = false;
      async = false;
      err = none;
      media = [];
    },
    w,
  );
  set_context = none;
  set_callback = none;
}

abbrev spawner : ToolRegistry ℕ Text Text ℕ
spawner = record {
  tools =
      (codes "handoff", named_tool (codes "handoff"))
      ∷ (codes "spawn_agent", named_tool (codes "spawn_agent"))
      ∷ [];
  hooks = [];
}

abbrev with_tools : AgentInfo ℕ Text Text ℕ
with_tools = record (agent_of (codes "b")) { tools = some spawner }

abbrev third_request : HandoffRequest
third_request = record {
  from_agent_id = codes "a";
  to_agent_id = codes "b";
  task = codes "do";
  context = [];
  depth = 2;
  visited = codes "x" ∷ codes "a" ∷ [];
  max_depth = 3;
  parent_run_key = [];
  allowlist_checker = none;
}

target_tools-leaf_example :
    (leaf : ToolRegistry ℕ Text Text ℕ) × (target_tools third_request with_tools ≡ some leaf)
    × (leaf.hooks ≡ [])
    × ((name : Text)
        → get_tool name leaf ≡ (if is_listed name leaf_denied then none else get_tool name spawner))
unfolding max_depth_of
target_tools-leaf_example = target_tools-leaf third_request with_tools spawner refl (omega arith)

-- The tool that spawns agents is not denied.
spawner_is_left :
    (if is_listed (codes "spawn_agent") leaf_denied
      then none
      else get_tool (codes "spawn_agent") spawner)
    ≡ some (named_tool (codes "spawn_agent"))
unfolding is_listed text_beq get_tool get
spawner_is_left = refl
