-- ===== src/Tools/Registry/Policy.antt =====
-- pkg/tools/policy.go and pkg/tools/groups.go: which tools a policy leaves in a registry.
pub mod Survivors
use aetherclaw.Common.{
  ℕ, ◌+◌, ◌-◌, ◌/◌, none, some, List, [], ◌∷◌, ◌++◌, leb, if◌then◌else◌, nat_key,
}
use aetherclaw.Common.Text.{Text, text_key, codes, is_empty, text_beq}
use aetherclaw.Common.Dict.{Dict, get, put, remove, get-put, get-remove}
use aetherclaw.Tools.Registry.{
  Tool, ToolRegistry, get_tool, remove_tool, sorted_tool_names, sort_strings, names_of,
}
use aetherclaw.Tools.Registry.Order.{is_listed, is_listed-sort_strings}

pub record ToolPolicy : Type 0 where
  pub allow : List Text
  pub deny : List Text

abbrev pub default_tool_groups : Dict Text (List Text)
default_tool_groups =
    (
      codes "group:fs",
      codes "read_file"
          ∷ codes "write_file"
          ∷ codes "edit_file"
          ∷ codes "append_file"
          ∷ codes "list_dir"
          ∷ [],
    )
    ∷ (codes "group:web", codes "web_search" ∷ codes "web_fetch" ∷ [])
    ∷ (codes "group:exec", codes "exec" ∷ [])
    ∷ (codes "group:hw", codes "i2c" ∷ codes "spi" ∷ [])
    ∷ (codes "group:comms", codes "message" ∷ codes "spawn" ∷ [])
    ∷ (codes "group:agents", codes "blackboard" ∷ codes "handoff" ∷ codes "list_agents" ∷ [])
    ∷ []

-- the names of a reference
unfoldable pub group_of : Text → List Text
group_of ref = elim (get ref default_tool_groups) [ none ↦ ref ∷ [] | some names ↦ names ]

-- `result`, whose names are the ones `seen`
unfoldable pub add_name : List Text → Text → List Text
add_name result name = if is_listed name result then result else result ++ name ∷ []

unfoldable pub add_names : List Text → List Text → List Text
unfolding add_name
add_names result [] = result
add_names result (name ∷ names) = add_names (add_name result name) names

unfoldable pub resolve_from : List Text → List Text → List Text
unfolding add_names group_of
resolve_from result [] = result
resolve_from result (ref ∷ refs) = resolve_from (add_names result (group_of ref)) refs

unfoldable pub resolve_tool_names : List Text → List Text
resolve_tool_names refs = resolve_from [] refs

module _ {W A C E : Type 0} where
  -- the loop over the names to keep
  unfoldable pub keep_only : List Text → List Text → ToolRegistry W A C E → ToolRegistry W A C E
  keep_only allowed [] r = r
  keep_only allowed (name ∷ names) r =
      keep_only allowed names (if is_listed name allowed then r else remove_tool name r)

  unfoldable pub remove_all : List Text → ToolRegistry W A C E → ToolRegistry W A C E
  remove_all [] r = r
  remove_all (name ∷ names) r = remove_all names (remove_tool name r)

  unfoldable pub apply_policy : ToolRegistry W A C E → ToolPolicy → ToolRegistry W A C E
  unfolding keep_only remove_all
  apply_policy r policy =
      let allow_names = resolve_tool_names policy.allow in
      let kept =
        if is_empty allow_names then r else keep_only allow_names (sorted_tool_names r) r in
      remove_all (resolve_tool_names policy.deny) kept

unfoldable pub depth_deny_list : ℕ → ℕ → List Text
depth_deny_list depth max_depth =
    if leb max_depth depth then codes "spawn" ∷ codes "handoff" ∷ codes "list_agents" ∷ [] else []
