-- ===== src/Tools/ToolLoop/Conversation.antt =====
-- What the provider is asked with (pkg/tools/toolloop.go).
use aetherclaw.Common.{
  ℕ, zero, suc, ◌+◌, ◌≡◌, refl, sym, ap, ◌∙◌, subst, ◌≢◌, ◌⊎◌, inl, inr, Option, List, [], ◌∷◌,
  ◌++◌, map, append-nil, append_assoc, nat_key,
}
use aetherclaw.Common.Text.{Text, text_key, codes}
use aetherclaw.Providers.ToolCall.{ToolCall, Message, LlmResponse, Json, normalize_tool_call}
use aetherclaw.Tools.Registry.{ToolRegistry}
use aetherclaw.Tools.ToolLoop.{
  ToolLoopConfig, ToolLoopResult, LoopTexts, content_of, to_provider_defs, assistant_message,
  tool_message, recorded_call, run_call, run_calls, after_reply, after_chat_reply, tool_loop,
  run_tool_loop,
}

-- one message of a tool for each call, in the order of the calls and under its id
abbrev pub Answers : {A : Type 0} → List (ToolCall A) → List (Message A) → Type 0
Answers [] [] = Unit
Answers [] (m ∷ replies) = ⊥
Answers (tc ∷ calls) [] = ⊥
Answers (tc ∷ calls) (m ∷ replies) =
    (m.role ≡ codes "tool") × (m.tool_call_id ≡ tc.id) × (m.tool_calls ≡ []) × Answers calls replies

abbrev pub ids_of : {A : Type 0} → List (ToolCall A) → List Text
ids_of [] = []
ids_of (tc ∷ calls) = tc.id ∷ ids_of calls

-- the message of the assistant for a reply of the provider with calls
pub record Says {A : Type 0} (response : LlmResponse A) (message : Message A) : Type 0 where
  pub assistant_says : message.role ≡ codes "assistant"
  pub same_content : message.content ≡ response.content
  pub same_ids : ids_of message.tool_calls ≡ ids_of response.tool_calls
  pub some_call : response.tool_calls ≢ []

-- The messages of the start, followed by rounds: what the provider replied to the messages up to
-- there, as a message of the assistant with the ids of its calls, and then the answer to each call of
-- that reply.
pub data Conversation {A W X : Type 0}
    (chat : List (Message A) → List (Text × Text × A) → W → (X ⊎ LlmResponse A) × W)
    (first : List (Message A)) : List (Message A) → Type 0 where
  start : Conversation chat first first
  turn :
      {messages : List (Message A)}
      → (defs : List (Text × Text × A)) → (w w' : W) → (response : LlmResponse A)
      → (message : Message A) → (replies : List (Message A)) → Conversation chat first messages
      → chat messages defs w ≡ (inr response, w')
      → Says response message
      → Answers response.tool_calls replies
      → Conversation chat first (messages ++ (message ∷ replies))

recorded-ids :
    {A : Type 0} (json : Json A) (calls : List (ToolCall A))
    → ids_of (map (recorded_call json) (map (normalize_tool_call json) calls)) ≡ ids_of calls
unfolding recorded_call normalize_tool_call
recorded-ids json [] = refl
recorded-ids json (tc ∷ calls) = ap (◌∷◌ tc.id) (recorded-ids json calls)

assistant_message-Says :
    {A : Type 0} (json : Json A) (response : LlmResponse A)
    → response.tool_calls ≢ []
    → Says response (
        assistant_message json response.content
          (map (normalize_tool_call json) response.tool_calls))
unfolding assistant_message
assistant_message-Says json response called = record {
  assistant_says = refl;
  same_content = refl;
  same_ids = recorded-ids json response.tool_calls;
  some_call = called;
}

module _ {A W C E : Type 0} (json : Json A) (texts : LoopTexts E) (channel chat_id : Text)
    (tools : Option (ToolRegistry W A C E)) where
  run_calls-Answers :
      (calls : List (ToolCall A)) (messages : List (Message A)) (w : W)
      → (replies : List (Message A)) × Answers calls replies
        × ((run_calls json texts channel chat_id tools
              (map (normalize_tool_call json) calls)
              messages
              w).0
            ≡ messages ++ replies)
  unfolding run_calls tool_message normalize_tool_call
  run_calls-Answers [] messages w = ([], tt, sym (append-nil messages))
  run_calls-Answers (tc ∷ calls) messages w =
      let call = normalize_tool_call json tc in
      let (result, w') = run_call json texts channel chat_id tools call w in
      let message = tool_message json call (content_of texts result) in
      let (replies, answered, e) = run_calls-Answers calls (messages ++ message ∷ []) w' in
      (
        message ∷ replies,
        (refl, refl, refl, answered),
        e ∙ append_assoc messages (message ∷ []) replies,
      )

  module _ {X : Type 0} (iteration : ℕ) (first messages : List (Message A))
      (chat : List (Message A) → List (Text × Text × A) → W → (X ⊎ LlmResponse A) × W)
      (go go' : List (Message A) → W → (X ⊎ ToolLoopResult) × W)
      (same : (next : List (Message A)) (w : W)
        → Conversation chat first next
        → go next w ≡ go' next w)
      (c : Conversation chat first messages) (defs : List (Text × Text × A)) (w₀ : W) where
    after_reply-same :
        (response : LlmResponse A) (w : W)
        → chat messages defs w₀ ≡ (inr response, w)
        → (calls : List (ToolCall A)) → response.tool_calls ≡ calls
        → after_reply json texts channel chat_id tools iteration messages go response.content calls
            w
          ≡ after_reply json texts channel chat_id tools iteration messages go' response.content
              calls w
    after_reply-same response w asked [] e = refl
    after_reply-same response w asked (call ∷ more) e =
        let calls = map (normalize_tool_call json) (call ∷ more) in
        let message = assistant_message json response.content calls in
        let (replies, answered, after) =
          run_calls-Answers (call ∷ more) (messages ++ message ∷ []) w in
        let (next, w') =
          run_calls json texts channel chat_id tools calls (messages ++ message ∷ []) w in
        let says : Says response message =
          subst
            (λ cs.
              Says response
                (assistant_message json response.content (map (normalize_tool_call json) cs)))
            e (assistant_message-Says json response (λ none_called. cc)) in
        same next w' (
          subst (Conversation chat first)
            (sym (after ∙ append_assoc messages (message ∷ []) replies))
            (turn defs w₀ w response message replies c asked says
              (subst (λ cs. Answers cs replies) (sym e) answered)))

    after_chat_reply-same :
        (reply : (X ⊎ LlmResponse A) × W)
        → chat messages defs w₀ ≡ reply
        → after_chat_reply json texts channel chat_id tools iteration messages go reply
          ≡ after_chat_reply json texts channel chat_id tools iteration messages go' reply
    after_chat_reply-same (inl e, w) asked = refl
    after_chat_reply-same (inr response, w) asked =
        after_reply-same response w asked response.tool_calls refl

-- The configuration with another provider.
abbrev pub with_chat :
    {W A C E X : Type 0}
    → ToolLoopConfig W A C E X
    → (List (Message A) → List (Text × Text × A) → W → (X ⊎ LlmResponse A) × W)
    → ToolLoopConfig W A C E X
with_chat config chat = record {
  chat = chat;
  tools = config.tools;
  max_iterations = config.max_iterations;
}

module _ {W A C E X : Type 0} (json : Json A) (texts : LoopTexts E) (channel chat_id : Text)
    (config : ToolLoopConfig W A C E X)
    (chat : List (Message A) → List (Text × Text × A) → W → (X ⊎ LlmResponse A) × W)
    (first : List (Message A))
    (agree : (messages : List (Message A)) (defs : List (Text × Text × A)) (w : W)
      → Conversation config.chat first messages
      → chat messages defs w ≡ config.chat messages defs w) where
  tool_loop-Conversation :
      (n iteration : ℕ) (messages : List (Message A)) (w : W)
      → Conversation config.chat first messages
      → tool_loop json texts channel chat_id (with_chat config chat) n iteration messages w
        ≡ tool_loop json texts channel chat_id config n iteration messages w
  unfolding tool_loop
  tool_loop-Conversation zero iteration messages w c = refl
  tool_loop-Conversation (suc n) iteration messages w c =
      ap
        (after_chat_reply json texts channel chat_id config.tools (iteration + 1) messages
          (tool_loop json texts channel chat_id (with_chat config chat) n (iteration + 1)))
        (agree messages (to_provider_defs config.tools) w c)
      ∙ after_chat_reply-same json texts channel chat_id config.tools (iteration + 1) first messages
          config.chat
          (tool_loop json texts channel chat_id (with_chat config chat) n (iteration + 1))
          (tool_loop json texts channel chat_id config n (iteration + 1))
          (tool_loop-Conversation n (iteration + 1)) c (to_provider_defs config.tools) w
          (config.chat messages (to_provider_defs config.tools) w) refl

  -- The loop asks the provider only with conversations that begin with the messages of the start: a
  -- provider that answers all those alike gives the same result and the same state. In a
  -- conversation each round is a reply of the provider to the messages before it, which has calls:
  -- a message of the assistant with its content and the ids of its calls, followed by exactly one
  -- message of a tool for each call of the reply, in their order, under the id of that call.
  pub run_tool_loop-Conversation :
      (w : W)
      → run_tool_loop json texts channel chat_id (with_chat config chat) first w
        ≡ run_tool_loop json texts channel chat_id config first w
  unfolding run_tool_loop
  run_tool_loop-Conversation w = tool_loop-Conversation config.max_iterations 0 first w start
