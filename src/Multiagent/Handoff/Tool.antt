-- ===== src/Multiagent/Handoff/Tool.antt =====
-- Execute of pkg/multiagent/handoff_tool.go, and FindAgentsByCapability of handoff.go.
use aetherclaw.Common.{
  ℕ, ◌⊎◌, inl, inr, ◌&&◌, not, Option, none, some, List, [], ◌∷◌, ◌++◌, if◌then◌else◌, nat_key,
}
use aetherclaw.Common.Text.{Text, text_key, codes, is_empty}
use aetherclaw.Common.Dict.{Dict}
use aetherclaw.Tools.Registry.Order.{is_listed}
use aetherclaw.Multiagent.Cascade.{ActiveRun, RunRegistry, register_run, deregister}
use aetherclaw.Multiagent.Spawn.{HandoffResult}
use aetherclaw.Multiagent.Handoff.{
  AgentInfo, HandoffRequest, HandoffTool, HandoffState, HandoffEnv, permits, execute_handoff,
}

-- the request of Execute for an agent, under the key of the child's session
unfoldable pub request_of : Text → Text → Dict Text Text → Text → HandoffTool → HandoffRequest
request_of agent_id task context child_session_key t = record {
  from_agent_id = t.from_agent_id;
  to_agent_id = agent_id;
  task = task;
  context = context;
  depth = t.depth;
  visited = t.visited;
  max_depth = t.max_depth;
  parent_run_key = child_session_key;
  allowlist_checker = none;
}

-- The arguments of the tool, and its own refusals.
pub record HandoffArgs : Type 0 where
  pub agent_id : Text
  pub capability : Text
  pub task : Text
  pub context : Dict Text Text

pub data HandoffRefusal : Type 0 where
  no_task no_capable_agent no_agent not_in_policy : HandoffRefusal

unfoldable pub find_agents_by_capability :
    {W A C E : Type 0} → Text → List (AgentInfo W A C E) → List (AgentInfo W A C E)
find_agents_by_capability capability [] = []
find_agents_by_capability capability (a ∷ agents) =
    let rest = find_agents_by_capability capability agents in
    if is_listed capability a.capabilities then a ∷ rest else rest

abbrev pub named_agent : Text → HandoffRefusal ⊎ Text
named_agent agent_id = if is_empty agent_id then inl no_agent else inr agent_id

abbrev pub first_agent : {W A C E : Type 0} → List (AgentInfo W A C E) → HandoffRefusal ⊎ Text
first_agent [] = inl no_capable_agent
first_agent (a ∷ agents) = named_agent a.id

abbrev pub policy_allows : HandoffTool → HandoffRefusal ⊎ Text → HandoffRefusal ⊎ Text
policy_allows t (inl refusal) = inl refusal
policy_allows t (inr agent_id) =
    if permits t.allowlist_checker t.from_agent_id agent_id then inr agent_id else inl not_in_policy

module _ {W A C E : Type 0} (decimal : ℕ → Text) (env : HandoffEnv W A C E) where
  -- the agent that Execute hands off to
  unfoldable pub choose_agent : HandoffTool → HandoffArgs → HandoffRefusal ⊎ Text
  unfolding find_agents_by_capability
  choose_agent t args =
      if is_empty args.task
      then inl no_task
      else if is_empty args.agent_id && not (is_empty args.capability)
      then policy_allows t (first_agent (find_agents_by_capability args.capability env.list_agents))
      else policy_allows t (named_agent args.agent_id)

  unfoldable pub child_key : ℕ → HandoffTool → Text → Text
  child_key now t agent_id =
      codes "handoff:"
      ++ (t.from_agent_id
          ++ (codes ":"
              ++ (agent_id ++ (codes ":" ++ (decimal t.depth ++ (codes ":" ++ decimal now))))))

  abbrev pub on_runs : (RunRegistry → RunRegistry) → HandoffState W → HandoffState W
  on_runs f s = record s {
    runs = elim s.runs as (λ x. Option RunRegistry) [ none ↦ none | some r ↦ some (f r) ];
  }

  -- Execute for the agent that was chosen, with the run registered around it
  unfoldable pub handoff_to :
      ℕ → HandoffTool → HandoffArgs → Text → HandoffState W → HandoffResult × HandoffState W
  unfolding register_run deregister request_of child_key
  handoff_to now t args agent_id s =
      let key = child_key now t agent_id in
      let run : ActiveRun = record {
        session_key = key;
        agent_id = agent_id;
        parent_key = t.parent_session_key;
        started_at = now;
      } in
      let (result, s') =
        execute_handoff env now (request_of agent_id args.task args.context key t)
          (on_runs (register_run run) s) in
      (result, on_runs (deregister key) s')

  abbrev pub handoff_chosen :
      ℕ
      → HandoffTool
      → HandoffArgs
      → HandoffState W
      → HandoffRefusal ⊎ Text
      → (HandoffRefusal ⊎ HandoffResult) × HandoffState W
  handoff_chosen now t args s (inl refusal) = (inl refusal, s)
  handoff_chosen now t args s (inr agent_id) =
      let (result, s') = handoff_to now t args agent_id s in (inr result, s')

  unfoldable pub handoff_execute :
      ℕ
      → HandoffTool
      → HandoffArgs
      → HandoffState W
      → (HandoffRefusal ⊎ HandoffResult) × HandoffState W
  unfolding handoff_to choose_agent
  handoff_execute now t args s = handoff_chosen now t args s (choose_agent t args)
