-- ===== src/Tools/Registry.antt =====
-- pkg/tools/registry.go, with the interfaces of base.go and hooks.go and the results of result.go.
-- `W` is the state that tools and hooks work on, `A` the type of arguments, `C` of callbacks and
-- `E` of errors. The context is part of `W`; log lines are left out.
pub mod Order
pub mod Policy
pub mod Execution
use aetherclaw.Common.{
  ℕ, ◌+◌, ◌-◌, ◌/◌, Bool, true, false, ◌&&◌, ◌||◌, not, Option, none, some, List, [], ◌∷◌, ◌++◌,
  map, ltb, nat_beq, if◌then◌else◌, nat_key, length,
}
use aetherclaw.Common.Text.{Text, text_key, codes, is_empty}
use aetherclaw.Common.Dict.{Dict, get, put, remove}

pub record ToolResult (E : Type 0) : Type 0 where
  pub for_llm : Text
  pub for_user : Text
  pub silent : Bool
  pub is_error : Bool
  pub async : Bool
  pub err : Option E
  pub media : List Text

-- ErrorResult, with WithError
abbrev pub error_result : {E : Type 0} → Text → E → ToolResult E
error_result message e = record {
  for_llm = message;
  for_user = [];
  silent = false;
  is_error = true;
  async = false;
  err = some e;
  media = [];
}

-- `none` of an optional interface: the tool does not implement it.
pub record Tool (W A C E : Type 0) : Type 0 where
  pub name : Text
  pub description : Text
  pub parameters : A
  pub call : A → W → ToolResult E × W
  pub set_context : Option (Text → Text → W → W)
  pub set_callback : Option (C → W → W)

pub record ToolHook (W A E : Type 0) : Type 0 where
  pub before : Text → A → W → Option E × W
  pub after : Text → A → ToolResult E → W → W

pub record ToolRegistry (W A C E : Type 0) : Type 0 where
  pub tools : Dict Text (Tool W A C E)
  pub hooks : List (ToolHook W A E)

-- The texts of the two errors, which carry the tool's name and the error of the hook.
pub record Messages (E : Type 0) : Type 0 where
  pub not_found : Text → Text
  pub tool_not_found : E
  pub blocked : E → Text

-- the order of sort.Strings
unfoldable pub text_leb : Text → Text → Bool
text_leb [] t = true
text_leb (c ∷ s) [] = false
text_leb (c ∷ s) (d ∷ t) = if ltb c d then true else nat_beq c d && text_leb s t

unfoldable pub insert_sorted : Text → List Text → List Text
unfolding text_leb
insert_sorted s [] = s ∷ []
insert_sorted s (t ∷ ts) =
    let rest = insert_sorted s ts in if text_leb s t then s ∷ t ∷ ts else t ∷ rest

-- sort.Strings
unfoldable pub sort_strings : List Text → List Text
unfolding insert_sorted
sort_strings [] = []
sort_strings (s ∷ ss) = insert_sorted s (sort_strings ss)

module _ {W A E : Type 0} where
  -- the loop over the hooks before execution: the first error ends it
  unfoldable pub run_before : List (ToolHook W A E) → Text → A → W → Option E × W
  run_before [] name args w = (none, w)
  run_before (hook ∷ hooks) name args w =
      let (err, w') = hook.before name args w in
      elim err [ some e ↦ (some e, w') | none ↦ run_before hooks name args w' ]

  unfoldable pub run_after : List (ToolHook W A E) → Text → A → ToolResult E → W → W
  run_after [] name args result w = w
  run_after (hook ∷ hooks) name args result w =
      run_after hooks name args result (hook.after name args result w)

abbrev pub apply_callback : {W C : Type 0} → Option (C → W → W) → Option C → W → W
apply_callback none c w = w
apply_callback (some f) none w = w
apply_callback (some f) (some c) w = f c w

module _ {W A C E : Type 0} where
  unfoldable pub new_tool_registry : ToolRegistry W A C E
  new_tool_registry = record { tools = []; hooks = [] }

  unfoldable pub add_hook : ToolHook W A E → ToolRegistry W A C E → ToolRegistry W A C E
  add_hook hook r = record { tools = r.tools; hooks = r.hooks ++ hook ∷ [] }

  unfoldable pub register : Tool W A C E → ToolRegistry W A C E → ToolRegistry W A C E
  register tool r = record { tools = put tool.name tool r.tools; hooks = r.hooks }

  unfoldable pub get_tool : Text → ToolRegistry W A C E → Option (Tool W A C E)
  get_tool name r = get name r.tools

  unfoldable pub remove_tool : Text → ToolRegistry W A C E → ToolRegistry W A C E
  remove_tool name r = record { tools = remove name r.tools; hooks = r.hooks }

  unfoldable pub clone : ToolRegistry W A C E → ToolRegistry W A C E
  clone r = record { tools = r.tools; hooks = [] }

  abbrev pub names_of : Dict Text (Tool W A C E) → List Text
  names_of [] = []
  names_of ((name, tool) ∷ tools) = name ∷ names_of tools

  unfoldable pub sorted_tool_names : ToolRegistry W A C E → List Text
  sorted_tool_names r = sort_strings (names_of r.tools)

  unfoldable pub count_tools : ToolRegistry W A C E → ℕ
  count_tools r = length r.tools

  -- the tools under the sorted names, as both lists of definitions and the summaries go through them
  unfoldable pub lookup_all : List Text → ToolRegistry W A C E → List (Tool W A C E)
  unfolding get_tool
  lookup_all [] r = []
  lookup_all (name ∷ names) r =
      let rest = lookup_all names r in
      elim (get_tool name r) [ none ↦ rest | some tool ↦ tool ∷ rest ]

  -- ToolToSchema of each tool: its name, its description and its parameters
  unfoldable pub get_definitions : ToolRegistry W A C E → List (Text × Text × A)
  unfolding lookup_all
  get_definitions r =
      map (λ (t : Tool W A C E). (t.name, t.description, t.parameters))
        (lookup_all (sorted_tool_names r) r)

  -- "- `name` - description"
  unfoldable pub get_summaries : ToolRegistry W A C E → List Text
  unfolding lookup_all
  get_summaries r =
      map (λ (t : Tool W A C E). codes "- `" ++ (t.name ++ (codes "` - " ++ t.description)))
        (lookup_all (sorted_tool_names r) r)

  abbrev pub with_context : Tool W A C E → Text → Text → W → W
  with_context tool channel chat_id w = elim tool.set_context [
    | none ↦ w
    | some f ↦ if is_empty channel || is_empty chat_id then w else f channel chat_id w
  ]

  module _ (messages : Messages E) where
    -- the result: that of the tool, or the error of the hook that blocks it
    abbrev pub run_tool : Tool W A C E → A → Option E × W → ToolResult E × W
    run_tool tool args (none, w) = tool.call args w
    run_tool tool args (some e, w) = (error_result (messages.blocked e) e, w)

    -- ExecuteWithContext for a tool that is found
    unfoldable pub execute_found :
        Tool W A C E
        → List (ToolHook W A E)
        → Text
        → A
        → Text
        → Text
        → Option C
        → W
        → ToolResult E × W
    unfolding run_before run_after
    execute_found tool hooks name args channel chat_id callback w =
        let w1 = apply_callback tool.set_callback callback (with_context tool channel chat_id w) in
        let (result, w2) = run_tool tool args (run_before hooks name args w1) in
        (result, run_after hooks name args result w2)

    -- ExecuteWithContext with what Get returns
    abbrev pub execute_option :
        Option (Tool W A C E)
        → List (ToolHook W A E)
        → Text
        → A
        → Text
        → Text
        → Option C
        → W
        → ToolResult E × W
    execute_option none hooks name args channel chat_id callback w =
        (error_result (messages.not_found name) messages.tool_not_found, w)
    execute_option (some tool) hooks name args channel chat_id callback w =
        execute_found tool hooks name args channel chat_id callback w

    unfoldable pub execute_with_context :
        ToolRegistry W A C E → Text → A → Text → Text → Option C → W → ToolResult E × W
    execute_with_context r name args channel chat_id callback w =
        execute_option (get_tool name r) r.hooks name args channel chat_id callback w

    unfoldable pub execute_tool : ToolRegistry W A C E → Text → A → W → ToolResult E × W
    execute_tool r name args w = execute_with_context r name args [] [] none w
