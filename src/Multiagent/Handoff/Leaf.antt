-- ===== src/Multiagent/Handoff/Leaf.antt =====
-- The tools of an agent at the depth limit (pkg/multiagent/handoff.go, pkg/tools/policy.go).
use aetherclaw.Common.{
  ◌+◌, ◌≤◌, ◌≡◌, refl, Bool, true, false, ◌||◌, none, some, List, [], ◌∷◌, arith, if◌then◌else◌,
  le→leb, ◌==◌, nat_key,
}
use aetherclaw.Common.Text.{Text, text_key, codes, text_beq}
use aetherclaw.Common.Dict.{get}
use aetherclaw.Tools.Registry.{ToolRegistry, get_tool, remove_tool, clone}
use aetherclaw.Tools.Registry.Order.{is_listed}
use aetherclaw.Tools.Registry.Policy.{
  group_of, resolve_tool_names, resolve_from, remove_all, apply_policy, depth_deny_list,
}
use aetherclaw.Tools.Registry.Policy.Survivors.{grants, apply_policy-survives}
use aetherclaw.Multiagent.Handoff.{AgentInfo, HandoffRequest, max_depth_of, target_tools}

-- What DepthDenyList denies at the limit.
abbrev pub leaf_denied : List Text
leaf_denied = codes "spawn" ∷ codes "handoff" ∷ codes "list_agents" ∷ []

grants-leaf_denied : (name : Text) → grants leaf_denied name ≡ is_listed name leaf_denied
unfolding group_of get is_listed text_beq
grants-leaf_denied name =
    three (codes "spawn" == name) (codes "handoff" == name) (codes "list_agents" == name)
  where
    three :
        (a b c : Bool)
        → ((a || false) || ((b || false) || ((c || false) || false))) ≡ (a || (b || (c || false)))
    three true b c = refl
    three false true c = refl
    three false false true = refl
    three false false false = refl

module _ {W A C E : Type 0} where
  hooks-remove_all :
      (names : List Text) (r : ToolRegistry W A C E) → (remove_all names r).hooks ≡ r.hooks
  unfolding remove_all remove_tool
  hooks-remove_all [] r = refl
  hooks-remove_all (name ∷ names) r = hooks-remove_all names (remove_tool name r)

  leaf_registry : ToolRegistry W A C E → ToolRegistry W A C E
  leaf_registry r = apply_policy (clone r) (record { allow = []; deny = leaf_denied })

  hooks-leaf_registry : (r : ToolRegistry W A C E) → (leaf_registry r).hooks ≡ []
  unfolding leaf_registry apply_policy clone resolve_tool_names resolve_from
  hooks-leaf_registry r = hooks-remove_all (resolve_tool_names leaf_denied) (clone r)

  get_tool-leaf_registry :
      (r : ToolRegistry W A C E) (name : Text)
      → get_tool name (leaf_registry r)
        ≡ (if is_listed name leaf_denied then none else get_tool name r)
  unfolding leaf_registry clone get_tool
  get_tool-leaf_registry r name = ground (
    arith,
    apply_policy-survives (clone r) (record { allow = []; deny = leaf_denied }) name,
    grants-leaf_denied name,
  )

  -- An agent that a handoff takes to the limit of the depth runs with the tools of its registry
  -- except those named spawn, handoff and list_agents, and with no hook at all.
  pub target_tools-leaf :
      (req : HandoffRequest) (target : AgentInfo W A C E) (r : ToolRegistry W A C E)
      → target.tools ≡ some r
      → max_depth_of req.max_depth ≤ req.depth + 1
      → (leaf : ToolRegistry W A C E) × (target_tools req target ≡ some leaf)
        × (leaf.hooks ≡ [])
        × ((name : Text)
            → get_tool name leaf ≡ (if is_listed name leaf_denied then none else get_tool name r))
  unfolding target_tools depth_deny_list leaf_registry
  target_tools-leaf req target r e le = (
    leaf_registry r,
    rw (le→leb (max_depth_of req.max_depth) (req.depth + 1) le, e, target_tools, depth_deny_list)
        refl,
    hooks-leaf_registry r,
    get_tool-leaf_registry r,
  )
