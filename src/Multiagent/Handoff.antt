-- ===== src/Multiagent/Handoff.antt =====
-- pkg/multiagent/handoff.go and the type of handoff_tool.go. The state holds the handoff
-- tool of each agent's registry, the blackboard and the runs; `W` is the rest, on which the loop of
-- the target works. The resolver and that loop are parameters, and so are the texts of errors.
pub mod Tool
pub mod Chain
pub mod Leaf
mod Tests
use aetherclaw.Common.{
  ℕ, zero, suc, ◌+◌, ◌-◌, ◌/◌, ◌⊎◌, inl, inr, Bool, true, false, ◌&&◌, not, Option, none, some,
  List, [], ◌∷◌, ◌++◌, leb, if◌then◌else◌, nat_key,
}
use aetherclaw.Common.Text.{Text, text_key, codes, is_empty}
use aetherclaw.Common.Dict.{Dict, get, put}
use aetherclaw.Tools.Registry.{ToolRegistry, clone}
use aetherclaw.Tools.Registry.Order.{is_listed}
use aetherclaw.Tools.Registry.Policy.{ToolPolicy, apply_policy, depth_deny_list}
use aetherclaw.Tools.ToolLoop.{ToolLoopResult}
use aetherclaw.Multiagent.Blackboard.{Blackboard, set_entry, snapshot}
use aetherclaw.Multiagent.Cascade.{RunRegistry}
use aetherclaw.Multiagent.Spawn.{HandoffResult}

-- The prompt function is what it returns.
pub record AgentInfo (W A C E : Type 0) : Type 0 where
  pub id : Text
  pub name : Text
  pub role : Text
  pub system_prompt : Text
  pub system_prompt_fn : Option Text
  pub tools : Option (ToolRegistry W A C E)
  pub max_iter : ℕ
  pub capabilities : List Text

abbrev pub default_max_handoff_depth : ℕ
default_max_handoff_depth = 3

pub record HandoffRequest : Type 0 where
  pub from_agent_id : Text
  pub to_agent_id : Text
  pub task : Text
  pub context : Dict Text Text
  pub depth : ℕ
  pub visited : List Text
  pub max_depth : ℕ
  pub parent_run_key : Text
  pub allowlist_checker : Option (Text → Text → Bool)

pub record HandoffTool : Type 0 where
  pub from_agent_id : Text
  pub depth : ℕ
  pub visited : List Text
  pub max_depth : ℕ
  pub allowlist_checker : Option (Text → Text → Bool)
  pub parent_session_key : Text

-- NewHandoffTool
abbrev pub new_handoff_tool : Text → HandoffTool
new_handoff_tool from_agent_id = record {
  from_agent_id = from_agent_id;
  depth = 0;
  visited = [];
  max_depth = 0;
  allowlist_checker = none;
  parent_session_key = [];
}

pub data HandoffFailure : Type 0 where
  depth_limit cycle agent_unknown not_permitted : HandoffFailure

pub record HandoffState (W : Type 0) : Type 0 where
  pub handoff_tools : Dict Text HandoffTool
  pub board : Option Blackboard
  pub runs : Option RunRegistry
  pub world : W

unfoldable pub max_depth_of : ℕ → ℕ
max_depth_of zero = default_max_handoff_depth
max_depth_of (suc n) = suc n

abbrev pub permits : Option (Text → Text → Bool) → Text → Text → Bool
permits none from to = true
permits (some can_handoff) from to = can_handoff from to

abbrev pub iterations_or_default : ℕ → ℕ
iterations_or_default zero = 10
iterations_or_default (suc n) = suc n

-- the guards of ExecuteHandoff, in their order
unfoldable pub check_handoff :
    {T : Type 0} → (Text → Option T) → HandoffRequest → HandoffFailure ⊎ T
unfolding max_depth_of
check_handoff get_agent_info req =
    if leb (max_depth_of req.max_depth) req.depth
    then inl depth_limit
    else if is_listed req.to_agent_id req.visited
    then inl cycle
    else elim (get_agent_info req.to_agent_id) [
      | none ↦ inl agent_unknown
      | some target ↦
          if permits req.allowlist_checker req.from_agent_id req.to_agent_id
          then inr target
          else inl not_permitted
    ]

unfoldable pub write_context : ℕ → Text → Dict Text Text → Blackboard → Blackboard
unfolding set_entry
write_context now author [] b = b
write_context now author ((key, value) ∷ context) b =
    write_context now author context (set_entry now key value author b)

-- the handoff tool of the target, further down the chain
unfoldable pub deeper : HandoffRequest → HandoffTool → HandoffTool
unfolding max_depth_of
deeper req t = record {
  from_agent_id = t.from_agent_id;
  depth = req.depth + 1;
  visited = req.visited ++ req.to_agent_id ∷ [];
  max_depth = max_depth_of req.max_depth;
  allowlist_checker = t.allowlist_checker;
  parent_session_key = req.parent_run_key;
}

abbrev pub put_deeper :
    Text → HandoffRequest → Option HandoffTool → Dict Text HandoffTool → Dict Text HandoffTool
put_deeper id req none tools = tools
put_deeper id req (some t) tools = put id (deeper req t) tools

abbrev pub on_board : (Blackboard → Blackboard) → Option Blackboard → Option Blackboard
on_board f none = none
on_board f (some b) = some (f b)

-- What ExecuteHandoff writes before the loop. The tool is that of the agent that the resolver found,
-- whose ID need not be the text of the request.
unfoldable pub enter_handoff :
    {W A C E : Type 0} → ℕ → HandoffRequest → AgentInfo W A C E → HandoffState W → HandoffState W
unfolding write_context deeper
enter_handoff now req target s = record s {
  handoff_tools = put_deeper target.id req (get target.id s.handoff_tools) s.handoff_tools;
  board = on_board (write_context now req.from_agent_id req.context) s.board;
}

abbrev pub snapshot_part : Option Blackboard → Text
snapshot_part none = []
snapshot_part (some b) = let text = snapshot b in if is_empty text then [] else 10 ∷ 10 ∷ text

abbrev pub prompt_or : Text → Option Text → Text
prompt_or prompt none = prompt
prompt_or prompt (some text) = if is_empty prompt then text else prompt

module _ {W A C E : Type 0} where
  unfoldable pub build_handoff_system_prompt : AgentInfo W A C E → Option Blackboard → Text
  build_handoff_system_prompt agent board =
      let role = if is_empty agent.role then [] else codes ", " ++ agent.role in
      let prompt = prompt_or agent.system_prompt agent.system_prompt_fn in
      let body = if is_empty prompt then [] else 10 ∷ (prompt ++ 10 ∷ []) in
      codes "You are "
      ++ (agent.name
          ++ (role
              ++ (codes "."
                  ++ 10
                    ∷ (body
                        ++ 10
                          ∷ (codes "Complete the delegated task and provide a clear result."
                              ++ snapshot_part board)))))

  abbrev pub denied_tools : List Text → ToolRegistry W A C E → ToolRegistry W A C E
  denied_tools [] r = r
  denied_tools (name ∷ names) r =
      apply_policy (clone r) (record { allow = []; deny = name ∷ names })

  abbrev pub on_tools :
      (ToolRegistry W A C E → ToolRegistry W A C E)
      → Option (ToolRegistry W A C E)
      → Option (ToolRegistry W A C E)
  on_tools f none = none
  on_tools f (some r) = some (f r)

  -- the target's tools, less those that an agent at this depth may not have
  unfoldable pub target_tools : HandoffRequest → AgentInfo W A C E → Option (ToolRegistry W A C E)
  unfolding max_depth_of
  target_tools req target =
      on_tools (denied_tools (depth_deny_list (req.depth + 1) (max_depth_of req.max_depth)))
        target.tools

-- What ExecuteHandoff calls and prints. `run_loop` takes the tools, the maximum of iterations, the
-- prompt and the task.
pub record HandoffEnv (W A C E : Type 0) : Type 0 where
  pub get_agent_info : Text → Option (AgentInfo W A C E)
  pub list_agents : List (AgentInfo W A C E)
  pub run_loop :
      Option (ToolRegistry W A C E)
      → ℕ
      → Text
      → Text
      → HandoffState W
      → (Text ⊎ ToolLoopResult) × HandoffState W
  pub failure_text : HandoffRequest → HandoffFailure → Text

module _ {W A C E : Type 0} (env : HandoffEnv W A C E) where
  abbrev pub result_of :
      HandoffRequest → (Text ⊎ ToolLoopResult) × HandoffState W → HandoffResult × HandoffState W
  result_of req (inl error, s) = (
    record {
      agent_id = req.to_agent_id;
      content = [];
      iterations = 0;
      success = false;
      error = error;
    },
    s,
  )
  result_of req (inr result, s) = (
    record {
      agent_id = req.to_agent_id;
      content = result.content;
      iterations = result.iterations;
      success = true;
      error = [];
    },
    s,
  )

  abbrev pub after_guards :
      ℕ
      → HandoffRequest
      → HandoffState W
      → HandoffFailure ⊎ AgentInfo W A C E
      → HandoffResult × HandoffState W
  after_guards now req s (inl failure) = result_of req (inl (env.failure_text req failure), s)
  after_guards now req s (inr target) =
      let entered = enter_handoff now req target s in
      result_of req (
        env.run_loop (target_tools req target) (iterations_or_default target.max_iter)
          (build_handoff_system_prompt target entered.board) req.task entered)

  unfoldable pub execute_handoff :
      ℕ → HandoffRequest → HandoffState W → HandoffResult × HandoffState W
  unfolding enter_handoff target_tools build_handoff_system_prompt check_handoff
  execute_handoff now req s = after_guards now req s (check_handoff env.get_agent_info req)
