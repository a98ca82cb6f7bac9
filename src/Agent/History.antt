-- ===== src/Agent/History.antt =====
-- pkg/agent/context.go, sanitizeHistoryForProvider. The messages kept so far are given newest first.
pub mod Valid
pub mod Suffix
mod Tests
use aetherclaw.Common.{
  Bool, true, false, ◌&&◌, ◌||◌, not, List, [], ◌∷◌, if◌then◌else◌, ◌==◌, nat_key,
}
use aetherclaw.Common.Text.{text_key, codes, is_empty}
use aetherclaw.Providers.ToolCall.{Message}

module _ {A : Type 0} where
  -- len(msg.ToolCalls) > 0
  abbrev pub has_calls : Message A → Bool
  has_calls msg = not (is_empty msg.tool_calls)

  -- foundAssistant: the walk back over the preceding tool messages
  unfoldable pub found_assistant : List (Message A) → Bool
  found_assistant [] = false
  found_assistant (msg ∷ kept) =
      let further = found_assistant kept in
      if msg.role == codes "tool" then further else msg.role == codes "assistant" && has_calls msg

  -- the test of the previous message for a turn with calls
  unfoldable pub valid_predecessor : List (Message A) → Bool
  valid_predecessor [] = false
  valid_predecessor (prev ∷ kept) = prev.role == codes "user" || prev.role == codes "tool"

  -- whether the switch on the role appends the message
  unfoldable pub keeps_message : List (Message A) → Message A → Bool
  keeps_message kept msg =
      if msg.role == codes "system"
      then false
      else if msg.role == codes "tool"
      then not (is_empty kept) && found_assistant kept
      else if msg.role == codes "assistant"
      then not (has_calls msg) || valid_predecessor kept
      else true

  -- the messages that the loop appends after those of `kept`
  unfoldable pub sanitize_after : List (Message A) → List (Message A) → List (Message A)
  sanitize_after kept [] = []
  sanitize_after kept (msg ∷ history) =
      let keep = keeps_message kept msg in
      let rest = sanitize_after (if keep then msg ∷ kept else kept) history in
      if keep then msg ∷ rest else rest

  unfoldable pub sanitize_history_for_provider : List (Message A) → List (Message A)
  sanitize_history_for_provider history =
      if is_empty history then history else sanitize_after [] history
