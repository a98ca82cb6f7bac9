-- ===== src/Agent/History/Tests.antt =====
-- A history that begins in the middle of a last_round of calls (pkg/agent/context.go).
use aetherclaw.Common.{ℕ, ◌≡◌, refl, none, List, [], ◌∷◌, ◌++◌, nat_key}
use aetherclaw.Common.Text.{Text, text_key, codes, text_beq}
use aetherclaw.Providers.ToolCall.{ToolCall, Message}
use aetherclaw.Agent.History.{
  found_assistant, valid_predecessor, keeps_message, sanitize_after, sanitize_history_for_provider,
}
use aetherclaw.Agent.History.Valid.{
  ValidAfter, plain, answer, asking, by_user, here, done, next, sanitize_history-ValidAfter,
}
use aetherclaw.Agent.History.Suffix.{sanitize_history-cut}

abbrev said : Text → Message ℕ
said role = record { role = role; content = codes "text"; tool_calls = []; tool_call_id = [] }

abbrev call : ToolCall ℕ
call = record {
  id = codes "1";
  type = codes "function";
  function = none;
  name = codes "read";
  arguments = none;
  thought_signature = [];
  extra_content = none;
}

abbrev asks : Message ℕ
asks = record { role = codes "assistant"; content = []; tool_calls = call ∷ []; tool_call_id = [] }

abbrev user : Message ℕ
user = said (codes "user")

abbrev result : Message ℕ
result = said (codes "tool")

abbrev last_round : List (Message ℕ)
last_round = asks ∷ result ∷ said (codes "assistant") ∷ []

-- The answer of a call that was cut off is dropped, as is a system message.
orphans_dropped :
    sanitize_history_for_provider (result ∷ said (codes "system") ∷ user ∷ last_round)
    ≡ user ∷ last_round
unfolding sanitize_history_for_provider sanitize_after keeps_message found_assistant
    valid_predecessor text_beq
orphans_dropped = refl

-- So is a last_round of calls that does not follow a message of the user.
calls_dropped : sanitize_history_for_provider last_round ≡ said (codes "assistant") ∷ []
unfolding sanitize_history_for_provider sanitize_after keeps_message found_assistant
    valid_predecessor text_beq
calls_dropped = refl

last_round-ValidAfter : ValidAfter [] (user ∷ last_round)
unfolding valid_predecessor text_beq
last_round-ValidAfter = next (plain refl refl refl) (
    next (asking refl refl (by_user refl))
      (next (answer refl (here refl refl)) (next (plain refl refl refl) done)))

sanitize_history-ValidAfter_example :
    ValidAfter [] (sanitize_history_for_provider (result ∷ user ∷ last_round))
    × (ValidAfter [] (result ∷ user ∷ last_round)
        → sanitize_history_for_provider (result ∷ user ∷ last_round) ≡ result ∷ user ∷ last_round)
sanitize_history-ValidAfter_example = sanitize_history-ValidAfter (result ∷ user ∷ last_round)

sanitize_history-cut_example :
    sanitize_history_for_provider (result ∷ user ∷ last_round)
    ≡ sanitize_history_for_provider (result ∷ []) ++ user ∷ last_round
sanitize_history-cut_example =
    sanitize_history-cut user refl [] (result ∷ []) last_round last_round-ValidAfter
