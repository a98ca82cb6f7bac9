-- ===== src/Tools/ToolLoop.antt =====
-- pkg/tools/toolloop.go. The provider with its model and its options is the parameter `chat`, which
-- may change the state `W`, as the tools may. Its errors are returned without the text around them.
pub mod Conversation
mod Tests
use aetherclaw.Common.{
  ℕ, zero, suc, ◌+◌, ◌-◌, ◌/◌, ◌⊎◌, inl, inr, true, false, Option, none, some, List, [], ◌∷◌, ◌++◌,
  map, if◌then◌else◌, nat_key,
}
use aetherclaw.Common.Text.{Text, text_key, codes, is_empty}
use aetherclaw.Providers.ToolCall.{
  FunctionCall, ToolCall, Message, LlmResponse, Json, value_or, normalize_tool_call,
}
use aetherclaw.Tools.Registry.{
  ToolResult, ToolRegistry, Messages, get_definitions, execute_with_context,
}

-- ErrorResult
abbrev pub plain_error : {E : Type 0} → Text → ToolResult E
plain_error message = record {
  for_llm = message;
  for_user = [];
  silent = false;
  is_error = true;
  async = false;
  err = none;
  media = [];
}

pub record ToolLoopResult : Type 0 where
  pub content : Text
  pub iterations : ℕ

-- the error texts, and the two parameters of the registry
pub record LoopTexts (E : Type 0) : Type 0 where
  pub messages : Messages E
  pub error_text : E → Text

abbrev pub content_of : {E : Type 0} → LoopTexts E → ToolResult E → Text
content_of texts result =
    if is_empty result.for_llm
    then elim result.err [ none ↦ result.for_llm | some e ↦ texts.error_text e ]
    else result.for_llm

-- `X` is the type of the provider's errors.
pub record ToolLoopConfig (W A C E X : Type 0) : Type 0 where
  pub chat : List (Message A) → List (Text × Text × A) → W → (X ⊎ LlmResponse A) × W
  pub tools : Option (ToolRegistry W A C E)
  pub max_iterations : ℕ

-- the definitions for the provider
unfoldable pub to_provider_defs :
    {W A C E : Type 0} → Option (ToolRegistry W A C E) → List (Text × Text × A)
to_provider_defs none = []
to_provider_defs (some r) = get_definitions r

module _ {A : Type 0} (json : Json A) where
  -- a call as the assistant's message holds it
  unfoldable pub recorded_call : ToolCall A → ToolCall A
  recorded_call tc = record {
    id = tc.id;
    type = codes "function";
    function = some (record {
      name = tc.name;
      arguments = json.marshal (value_or json.empty tc.arguments);
      thought_signature = [];
    });
    name = tc.name;
    arguments = tc.arguments;
    thought_signature = [];
    extra_content = none;
  }

  unfoldable pub assistant_message : Text → List (ToolCall A) → Message A
  unfolding recorded_call
  assistant_message content calls = record {
    role = codes "assistant";
    content = content;
    tool_calls = map recorded_call calls;
    tool_call_id = [];
  }

  unfoldable pub tool_message : ToolCall A → Text → Message A
  tool_message tc content = record {
    role = codes "tool";
    content = content;
    tool_calls = [];
    tool_call_id = tc.id;
  }

  module _ {W C E : Type 0} (texts : LoopTexts E) (channel chat_id : Text) where
    unfoldable pub run_call : Option (ToolRegistry W A C E) → ToolCall A → W → ToolResult E × W
    run_call none tc w = (plain_error (codes "No tools available"), w)
    run_call (some r) tc w =
        execute_with_context texts.messages r tc.name (value_or json.empty tc.arguments) channel
          chat_id none w

    -- the loop over the calls, each with its message
    unfoldable pub run_calls :
        Option (ToolRegistry W A C E)
        → List (ToolCall A)
        → List (Message A)
        → W
        → List (Message A) × W
    unfolding tool_message run_call
    run_calls tools [] messages w = (messages, w)
    run_calls tools (tc ∷ calls) messages w =
        let (result, w') = run_call tools tc w in
        run_calls tools calls (messages ++ tool_message tc (content_of texts result) ∷ []) w'

    -- what the loop does with a reply; `continue` is its next iteration
    abbrev pub after_reply :
        {X : Type 0}
        → Option (ToolRegistry W A C E)
        → ℕ
        → List (Message A)
        → (List (Message A) → W → (X ⊎ ToolLoopResult) × W)
        → Text
        → List (ToolCall A)
        → W
        → (X ⊎ ToolLoopResult) × W
    after_reply tools iteration messages continue content [] w =
        (inr (record { content = content; iterations = iteration }), w)
    after_reply tools iteration messages continue content (call ∷ more) w =
        let calls = map (normalize_tool_call json) (call ∷ more) in
        let (messages', w') =
          run_calls tools calls (messages ++ assistant_message content calls ∷ []) w in
        continue messages' w'

    abbrev pub after_chat_reply :
        {X : Type 0}
        → Option (ToolRegistry W A C E)
        → ℕ
        → List (Message A)
        → (List (Message A) → W → (X ⊎ ToolLoopResult) × W)
        → (X ⊎ LlmResponse A) × W
        → (X ⊎ ToolLoopResult) × W
    after_chat_reply tools iteration messages continue (inl e, w) = (inl e, w)
    after_chat_reply tools iteration messages continue (inr response, w) =
        after_reply tools iteration messages continue response.content response.tool_calls w

    module _ {X : Type 0} (config : ToolLoopConfig W A C E X) where
      -- the loop, with the iterations that are left and those that were made
      unfoldable pub tool_loop : ℕ → ℕ → List (Message A) → W → (X ⊎ ToolLoopResult) × W
      tool_loop zero iteration messages w =
          (inr (record { content = []; iterations = iteration }), w)
      tool_loop (suc n) iteration messages w =
          after_chat_reply config.tools (iteration + 1) messages (tool_loop n (iteration + 1))
            (config.chat messages (to_provider_defs config.tools) w)

      unfoldable pub run_tool_loop : List (Message A) → W → (X ⊎ ToolLoopResult) × W
      unfolding tool_loop
      run_tool_loop messages w = tool_loop config.max_iterations 0 messages w
