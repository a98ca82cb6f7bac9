-- ===== src/Tools/Registry/Execution.antt =====
-- What hooks can do to the execution of a tool (pkg/tools/registry.go, pkg/tools/autonomy.go).
use aetherclaw.Common.{
  ℕ, ◌<◌, ◌≡◌, refl, ap, true, Option, none, some, List, [], ◌∷◌, ◌++◌, lt→leb, nat_key,
}
use aetherclaw.Common.Text.{Text, text_key}
use aetherclaw.Tools.Registry.{
  ToolResult, Tool, ToolHook, Messages, run_before, run_after, apply_callback, with_context,
  run_tool, execute_found,
}
use aetherclaw.Tools.Autonomy.{
  AutonomyError, AutonomyHook, autonomy_hook, check_autonomy, get_tool_level, ask,
  ApprovalRequester,
}

-- The tool with another implementation.
abbrev pub with_execute :
    {W A C E : Type 0} → Tool W A C E → (A → W → ToolResult E × W) → Tool W A C E
with_execute t f = record {
  name = t.name;
  description = t.description;
  parameters = t.parameters;
  call = f;
  set_context = t.set_context;
  set_callback = t.set_callback;
}

abbrev IsError : {E : Type 0} → Option E → Type 0
IsError none = ⊥
IsError (some e) = Unit

module _ {W A E : Type 0} where
  -- A hook that blocks in every state blocks behind any other hooks.
  run_before-IsError :
      (pre post : List (ToolHook W A E)) (hook : ToolHook W A E) (name : Text) (args : A) (w : W)
      → ((v : W) → IsError (hook.before name args v).0)
      → IsError (run_before (pre ++ hook ∷ post) name args w).0
  unfolding run_before
  run_before-IsError [] post hook name args w h =
      go (hook.before name args w).0 (hook.before name args w).1 (h w)
    where
      go :
          (o : Option E) (v : W)
          → IsError o
          → IsError (
              (elim o as (λ x. Option E × W) [
                | some e ↦ (some e, v)
                | none ↦ run_before post name args v
              ]).0)
      go none v err = absurd err
      go (some e) v err = tt
  run_before-IsError (first ∷ pre) post hook name args w h =
      go (run_before-IsError pre post hook name args (first.before name args w).1 h)
        (first.before name args w).0
    where
      v : W
      v = (first.before name args w).1

      go :
          IsError (run_before (pre ++ hook ∷ post) name args v).0
          → (o : Option E)
          → IsError (
              (elim o as (λ x. Option E × W) [
                | some e ↦ (some e, v)
                | none ↦ run_before (pre ++ hook ∷ post) name args v
              ]).0)
      go rest none = rest
      go rest (some e) = tt

module _ {W A C E : Type 0} (messages : Messages E) where
  run_tool-IsError :
      (t : Tool W A C E) (f : A → W → ToolResult E × W) (args : A) (r : Option E × W)
      → IsError r.0
      → (run_tool messages (with_execute t f) args r ≡ run_tool messages t args r)
        × ((run_tool messages t args r).0.is_error ≡ true)
  run_tool-IsError t f args (none, w) h = absurd h
  run_tool-IsError t f args (some e, w) h = (refl, refl)

  -- the hooks stopped the tool: what it would have done makes no difference
  pub execute_found-IsError :
      (t : Tool W A C E) (f : A → W → ToolResult E × W) (hooks : List (ToolHook W A E))
      (name : Text) (args : A) (channel chat_id : Text) (callback : Option C) (w : W)
      → IsError
          (run_before hooks name args
            (apply_callback t.set_callback callback (with_context t channel chat_id w))).0
      → (execute_found messages (with_execute t f) hooks name args channel chat_id callback w
          ≡ execute_found messages t hooks name args channel chat_id callback w)
        × ((execute_found messages t hooks name args channel chat_id callback w).0.is_error ≡ true)
  unfolding execute_found
  execute_found-IsError t f hooks name args channel chat_id callback w h =
      let w1 = apply_callback t.set_callback callback (with_context t channel chat_id w) in
      let (same, err) = run_tool-IsError t f args (run_before hooks name args w1) h in
      (ap (λ (r : ToolResult E × W). (r.0, run_after hooks name args r.0 r.1)) same, err)

ask-IsError :
    {W E : Type 0} (h : AutonomyHook W E) (o : Option (ApprovalRequester W E)) (name : Text)
    (level : ℕ) (w : W)
    → o ≡ none
    → IsError (ask h o name level w).0
ask-IsError h none name level w e = tt
ask-IsError h (some f) name level w e = cc e

-- With an agent below the level of a tool and nobody to ask, among any other hooks, an execution
-- returns an error, and the tool is not run: with any other implementation of the tool, the
-- result and the state are the same.
pub autonomy_stops :
    {W A C E : Type 0} (messages : Messages (AutonomyError E)) (h : AutonomyHook W E)
    (pre post : List (ToolHook W A (AutonomyError E))) (t : Tool W A C (AutonomyError E))
    (f : A → W → ToolResult (AutonomyError E) × W) (name : Text) (args : A) (channel chat_id : Text)
    (callback : Option C) (w : W)
    → h.approver ≡ none
    → h.agent_level < get_tool_level h name
    → let hooks = pre ++ autonomy_hook h ∷ post in
      (execute_found messages (with_execute t f) hooks name args channel chat_id callback w
        ≡ execute_found messages t hooks name args channel chat_id callback w)
      × ((execute_found messages t hooks name args channel chat_id callback w).0.is_error ≡ true)
autonomy_stops {W} {A} {C} {E} messages h pre post t f name args channel chat_id callback w alone
      low =
    execute_found-IsError messages t f (pre ++ autonomy_hook h ∷ post) name args channel chat_id
      callback w (run_before-IsError pre post (autonomy_hook h) name args _ stops)
  where
    stops : (v : W) → IsError ((autonomy_hook {A = A} h).before name args v).0
    stops v =
        unfold autonomy_hook check_autonomy in
        rw (lt→leb (get_tool_level h name) h.agent_level low)
          (ask-IsError h h.approver name (get_tool_level h name) v alone)
