-- ===== src/Agent/Summarize.antt =====
-- pkg/agent/loop.go: maybeSummarize, forceCompression, summarizeSession, summarizeBatch and
-- estimateTokens. A state is the sessions with their directory. `chat` asks the provider with one
-- message of the user, `none` being an error; it may change the state, as others use the sessions
-- meanwhile. `count_text` prints a number.
pub mod Compress
pub mod Outcome
pub mod Failing
mod Tests
use aetherclaw.Common.{
  ℕ, ◌+◌, ◌-◌, ◌*◌, ◌/◌, Bool, true, false, ◌&&◌, ◌||◌, not, Option, none, some, List, [], ◌∷◌,
  ◌++◌, ltb, leb, if◌then◌else◌, ◌==◌, nat_key, length, take, drop,
}
use aetherclaw.Common.Text.{Text, text_key, codes, is_empty}
use aetherclaw.Common.Dict.{Dict}
use aetherclaw.Providers.ToolCall.{Message}
use aetherclaw.Session.Manager.{
  SessionManager, Node, SessionJson, get_history, get_summary, set_summary, truncate_history,
  set_history,
}
use aetherclaw.Session.Manager.Files.{save}

abbrev pub SessionState : Type 0 → Type 0 → Type 0
SessionState A B = SessionManager A × Dict Text (Node B)

abbrev pub is_running : Text → List Text → Bool
is_running key [] = false
is_running key (other ∷ keys) = other == key || is_running key keys

-- summarizing.Delete, when summarizeSession has ended
abbrev pub summarize_ended : Text → List Text → List Text
summarize_ended key [] = []
summarize_ended key (other ∷ keys) =
    let rest = summarize_ended key keys in if other == key then rest else other ∷ rest

module _ {A : Type 0} where
  abbrev pub total_chars : List (Message A) → ℕ
  total_chars [] = 0
  total_chars (m ∷ messages) = length m.content + total_chars messages

  unfoldable pub estimate_tokens : List (Message A) → ℕ
  estimate_tokens messages = total_chars messages * 2 / 5

  unfoldable pub needs_summary : ℕ → List (Message A) → Bool
  needs_summary context_window history =
      ltb 20 (length history) || ltb (context_window * 75 / 100) (estimate_tokens history)

  -- summarizing.LoadOrStore, for a history that needs it: whether summarizeSession is started
  unfoldable pub maybe_summarize : Text → ℕ → Text → List (Message A) → List Text → Bool × List Text
  maybe_summarize agent_id context_window session_key history summarizing =
      let key = agent_id ++ b':' ∷ session_key in
      if needs_summary context_window history
      then (if is_running key summarizing then (false, summarizing) else (true, key ∷ summarizing))
      else (false, summarizing)

  -- the messages of the user and the assistant that are not too large, and whether one is
  unfoldable pub split_valid : ℕ → List (Message A) → List (Message A) × Bool
  split_valid max_tokens [] = ([], false)
  split_valid max_tokens (m ∷ messages) =
      let (valid, omitted) = split_valid max_tokens messages in
      if not (m.role == codes "user") && not (m.role == codes "assistant")
      then (valid, omitted)
      else if ltb max_tokens (length m.content / 2)
      then (valid, true)
      else (m ∷ valid, omitted)

  abbrev pub batch_lines : List (Message A) → Text
  batch_lines [] = []
  batch_lines (m ∷ batch) = m.role ++ codes ": " ++ m.content ++ codes "\n" ++ batch_lines batch

  unfoldable pub batch_prompt : List (Message A) → Text → Text
  batch_prompt batch existing =
      codes
        "Provide a concise summary of this conversation segment, preserving core context and key points.\n"
      ++ (if is_empty existing then [] else codes "Existing context: " ++ existing ++ codes "\n")
      ++ codes "\nCONVERSATION:\n"
      ++ batch_lines batch

abbrev pub merge_prompt : Text → Text → Text
merge_prompt s1 s2 =
    codes "Merge these two conversation summaries into one cohesive summary:\n\n1: "
    ++ s1
    ++ codes "\n\n2: "
    ++ s2

abbrev pub omitted_note : Text
omitted_note =
    codes "\n[Note: Some oversized messages were omitted from this summary for efficiency.]"

abbrev pub compression_note : (ℕ → Text) → ℕ → Text
compression_note count_text dropped =
    codes "\n\n[System Note: Emergency compression dropped "
    ++ count_text dropped
    ++ codes " oldest messages due to context limit]"

abbrev pub last_of : {A : Type 0} → List (Message A) → List (Message A)
last_of history = drop (length history - 1) history

-- the new history of forceCompression, for one with a first message
abbrev pub compressed : {A : Type 0} → (ℕ → Text) → List (Message A) → List (Message A)
compressed count_text [] = []
compressed count_text (first ∷ rest) =
    let conversation = take (length rest - 1) rest in
    let mid = length conversation / 2 in
    let enhanced = record first { content = first.content ++ compression_note count_text mid } in
    enhanced ∷ drop mid conversation ++ last_of rest

abbrev pub noted : {S : Type 0} → Bool → Text × S → Text × S
noted omitted (summary, s) =
    (if omitted && not (is_empty summary) then summary ++ omitted_note else summary, s)

-- the text that is used, also when there is an error
abbrev pub reply_or : {S : Type 0} → Text → Option Text × S → Text × S
reply_or default (none, s) = (default, s)
reply_or default (some content, s) = (content, s)

module _ {S : Type 0} (chat : Text → S → Option Text × S) where
  unfoldable pub summarize_batch : {A : Type 0} → List (Message A) → Text → S → Text × S
  summarize_batch batch existing s = reply_or [] (chat (batch_prompt batch existing) s)

  abbrev pub summarize_parts : {A : Type 0} → List (Message A) → List (Message A) → S → Text × S
  summarize_parts part1 part2 s =
      let (s1, w1) = summarize_batch part1 [] s in
      let (s2, w2) = summarize_batch part2 [] w1 in
      reply_or (s1 ++ codes " " ++ s2) (chat (merge_prompt s1 s2) w2)

  unfoldable pub final_summary : {A : Type 0} → List (Message A) → Text → S → Text × S
  final_summary valid summary s =
      if ltb 10 (length valid)
      then summarize_parts (take (length valid / 2) valid) (drop (length valid / 2) valid) s
      else summarize_batch valid summary s

module _ {A B E : Type 0} (json : SessionJson A B) (is_local : Text → Bool)
    (steps : List (Option E)) where
  -- the calls of the session manager at the end; `set` and `cut` are the times that they read
  abbrev pub store_summary : ℕ → ℕ → Text → Text × SessionState A B → SessionState A B
  store_summary set cut key (summary, (sm, disk)) =
      let sm' = truncate_history cut key 4 (set_summary set key summary sm) in
      if is_empty summary then (sm, disk) else (sm', (save json is_local steps key sm' disk).1)

  abbrev pub summarize_valid :
      (Text → SessionState A B → Option Text × SessionState A B)
      → ℕ
      → ℕ
      → Text
      → Text
      → List (Message A) × Bool
      → SessionState A B
      → SessionState A B
  summarize_valid chat set cut key summary ([], omitted) s = s
  summarize_valid chat set cut key summary (m ∷ valid, omitted) s =
      store_summary set cut key (noted omitted (final_summary chat (m ∷ valid) summary s))

  unfoldable pub summarize_session :
      (Text → SessionState A B → Option Text × SessionState A B)
      → ℕ
      → ℕ
      → ℕ
      → Text
      → SessionState A B
      → SessionState A B
  summarize_session chat context_window set cut key (sm, disk) =
      let history = get_history key sm in
      let valid = split_valid (context_window / 2) (take (length history - 4) history) in
      let summarized = summarize_valid chat set cut key (get_summary key sm) valid (sm, disk) in
      if leb (length history) 4 then (sm, disk) else summarized

  unfoldable pub force_compression : (ℕ → Text) → ℕ → Text → SessionState A B → SessionState A B
  force_compression count_text now key (sm, disk) =
      let history = get_history key sm in
      let sm' = set_history now key (compressed count_text history) sm in
      if leb (length history) 4
      then (sm, disk)
      else (sm', (save json is_local steps key sm' disk).1)
