-- ===== src/Tools/ToolLoop/Tests.antt =====
-- A provider that asks for a tool once, and one that answers only to a user.
use aetherclaw.Common.{
  ℕ, zero, suc, ◌+◌, ◌≡◌, refl, ◌⊎◌, inl, inr, Bool, true, false, none, some, List, [], ◌∷◌, ◌++◌,
  if◌then◌else◌, ◌==◌, nat_key, length,
}
use aetherclaw.Common.Text.{Text, text_key, codes, text_beq}
use aetherclaw.Common.Dict.{get}
use aetherclaw.Providers.ToolCall.{ToolCall, Message, LlmResponse, Json, normalize_tool_call}
use aetherclaw.Tools.Registry.{
  Tool, execute_with_context, execute_found, run_before, run_after, get_tool, get_definitions,
  lookup_all, sorted_tool_names, sort_strings, insert_sorted, text_leb,
}
use aetherclaw.Tools.ToolLoop.{
  ToolLoopConfig, LoopTexts, to_provider_defs, assistant_message, recorded_call, tool_message,
  run_call, run_calls, tool_loop, run_tool_loop,
}
use aetherclaw.Tools.ToolLoop.Conversation.{
  Conversation, start, turn, with_chat, run_tool_loop-Conversation,
}

abbrev plain_json : Json Text
plain_json = record { empty = []; count = length; marshal = λ a. a; unmarshal = some }

abbrev loop_texts : LoopTexts ℕ
loop_texts = record {
  messages = record {
    not_found = λ name. name;
    tool_not_found = 0;
    blocked = λ e. codes "blocked";
  };
  error_text = λ e. codes "error";
}

-- A tool that answers with its arguments and counts its runs.
abbrev echo : Tool ℕ Text Text ℕ
echo = record {
  name = codes "echo";
  description = [];
  parameters = [];
  call = λ args w. (
    record {
      for_llm = args;
      for_user = [];
      silent = false;
      is_error = false;
      async = false;
      err = none;
      media = [];
    },
    w + 1,
  );
  set_context = none;
  set_callback = none;
}

abbrev asks_echo : ToolCall Text
asks_echo = record {
  id = codes "1";
  type = [];
  function = none;
  name = codes "echo";
  arguments = some (codes "hi");
  thought_signature = [];
  extra_content = none;
}

-- asks for the tool while it has not run, and then repeats the number of messages
abbrev asking : List (Message Text) → List (Text × Text × Text) → ℕ → (ℕ ⊎ LlmResponse Text) × ℕ
asking messages defs zero = (inr (record { content = []; tool_calls = asks_echo ∷ [] }), zero)
asking messages defs (suc w) =
    (inr (record { content = length messages ∷ []; tool_calls = [] }), suc w)

abbrev loop_config : ToolLoopConfig ℕ Text Text ℕ ℕ
loop_config = record {
  chat = asking;
  tools = some (record { tools = (codes "echo", echo) ∷ []; hooks = [] });
  max_iterations = 5;
}

abbrev hello : List (Message Text)
hello =
    record { role = codes "user"; content = codes "hello"; tool_calls = []; tool_call_id = [] } ∷ []

-- The second answer stands on three messages.
answers_second :
    run_tool_loop plain_json loop_texts [] [] loop_config hello 0
    ≡ (inr (record { content = 3 ∷ []; iterations = 2 }), 1)
unfolding run_tool_loop tool_loop to_provider_defs get_definitions lookup_all sorted_tool_names
    sort_strings insert_sorted text_leb run_calls run_call execute_with_context execute_found
    run_before run_after get_tool get text_beq normalize_tool_call assistant_message recorded_call
    tool_message
answers_second = refl

abbrev from_user : List (Message Text) → Bool
from_user [] = false
from_user (m ∷ messages) = m.role == codes "user"

abbrev strict : List (Message Text) → List (Text × Text × Text) → ℕ → (ℕ ⊎ LlmResponse Text) × ℕ
strict messages defs w = if from_user messages then asking messages defs w else (inl 400, w)

from_user-append :
    (ms rest : List (Message Text)) → from_user ms ≡ true → from_user (ms ++ rest) ≡ true
from_user-append [] rest h = cc h
from_user-append (m ∷ ms) rest h = h

conversation-from_user :
    (ms : List (Message Text)) → Conversation loop_config.chat hello ms → from_user ms ≡ true
unfolding text_beq
conversation-from_user _ start = refl
conversation-from_user _
      (turn {messages} defs w w' response message replies c asked says answered) =
    from_user-append messages _ (conversation-from_user messages c)

run_tool_loop-Conversation_example :
    run_tool_loop plain_json loop_texts [] [] (with_chat loop_config strict) hello 0
    ≡ run_tool_loop plain_json loop_texts [] [] loop_config hello 0
run_tool_loop-Conversation_example =
    run_tool_loop-Conversation plain_json loop_texts [] [] loop_config strict hello
      (λ messages defs w c. rw (conversation-from_user messages c) refl) 0
