-- ===== src/Agent/Summarize/Tests.antt =====
-- A session of sixteen messages, and providers that fail or answer (pkg/agent/loop.go).
use aetherclaw.Common.{
  ℕ, ◌≤◌, ◌<◌, ◌≡◌, refl, Bool, true, false, Option, none, some, List, [], ◌∷◌, ◌++◌, arith,
  if◌then◌else◌, nat_key, length, take, replicate,
}
use aetherclaw.Common.Text.{Text, text_key, codes, text_beq}
use aetherclaw.Common.Dict.{Dict, get}
use aetherclaw.Providers.ToolCall.{Message}
use aetherclaw.Session.Manager.{
  Session, SessionManager, Node, SessionJson, get_history, get_summary,
}
use aetherclaw.Agent.Summarize.{
  SessionState, compression_note, estimate_tokens, needs_summary, maybe_summarize, split_valid,
  omitted_note, batch_prompt, summarize_session, force_compression,
}
use aetherclaw.Agent.Summarize.Compress.{force_compression-drop}
use aetherclaw.Agent.Summarize.Outcome.{KeptOrSummarized, HoldsSummary, summarize_session-outcome}
use aetherclaw.Agent.Summarize.Failing.{failing, summarize_session-failing}

abbrev said : Text → Message ℕ
said text = record { role = codes "user"; content = text; tool_calls = []; tool_call_id = [] }

abbrev many : List (Message ℕ)
many = replicate 16 (said (codes "hello"))

abbrev session : Session ℕ
session = record {
  key = codes "k";
  messages = many;
  summary = codes "before";
  created = 1;
  updated = 2;
}

abbrev sm : SessionManager ℕ
sm = record { sessions = (codes "k", session) ∷ []; storage = [] }

abbrev no_disk : Dict Text (Node ℕ)
no_disk = []

abbrev json : SessionJson ℕ ℕ
json = record { marshal = λ s. none; unmarshal = λ b. none }

abbrev all_local : Text → Bool
all_local filename = true

abbrev no_steps : List (Option ℕ)
no_steps = []

abbrev chat : Text → SessionState ℕ ℕ → Option Text × SessionState ℕ ℕ
chat prompt s = (some (codes "short"), s)

-- one text of each length
abbrev digits : ℕ → Text
digits n = replicate n b'1'

prompt_text :
    batch_prompt (said (codes "hi") ∷ []) (codes "old")
    ≡ codes
        "Provide a concise summary of this conversation segment, preserving core context and key points.\nExisting context: old\n\nCONVERSATION:\nuser: hi\n"
unfolding batch_prompt
prompt_text = refl

-- A second summarization of a session is not started while one runs.
started_once :
    (maybe_summarize (codes "main") 4 (codes "k") many [] ≡ (true, codes "main:k" ∷ []))
    × (maybe_summarize (codes "main") 4 (codes "k") many (codes "main:k" ∷ [])
        ≡ (false, codes "main:k" ∷ []))
unfolding maybe_summarize needs_summary estimate_tokens text_beq
started_once = (refl, refl)

force_compression-drop_example :
    let history =
      get_history
        (codes "k")
        (force_compression json all_local no_steps digits 9 (codes "k") (sm, no_disk)).0 in
    (history
      ≡ record (said (codes "hello")) { content = codes "hello" ++ compression_note digits 7 }
        ∷ replicate 8 (said (codes "hello")))
    × (length history < 16)
unfolding get text_beq
force_compression-drop_example =
    force_compression-drop json all_local no_steps digits 9 (codes "k") sm no_disk session
      (said (codes "hello")) (replicate 15 (said (codes "hello"))) refl refl (omega arith)

found : get (codes "k") sm.sessions ≡ some session
unfolding get text_beq
found = refl

summarize_session-outcome_example :
    KeptOrSummarized json all_local no_steps 3 4
      (codes "k")
      sm
      no_disk
      session
      found
      (summarize_session json all_local no_steps chat 100 3 4 (codes "k") (sm, no_disk))
summarize_session-outcome_example =
    summarize_session-outcome json all_local no_steps 100 3 4 (codes "k") sm no_disk session found
      chat (λ prompt s. refl)

summarize_session-failing_example :
    let (valid, omitted) = split_valid 50 (take 12 many) in
    let result =
      summarize_session json all_local no_steps failing 100 3 4 (codes "k") (sm, no_disk) in
    (length valid ≤ 10 → result ≡ (sm, no_disk))
    × (10 < length valid
        → HoldsSummary json all_local no_steps 3 4
            (codes "k")
            sm
            no_disk
            session
            found
            (if omitted then codes " " ++ omitted_note else codes " ")
            result)
summarize_session-failing_example =
    summarize_session-failing json all_local no_steps 100 3 4 (codes "k") sm no_disk session found

-- The twelve messages are lost, and so is the summary.
all_lost :
    let s =
      (summarize_session json all_local no_steps failing 100 3 4 (codes "k") (sm, no_disk)).0 in
    (get_history (codes "k") s ≡ replicate 4 (said (codes "hello")))
    × (get_summary (codes "k") s ≡ codes " ")
unfolding split_valid text_beq
all_lost =
    (summarize_session-failing json all_local no_steps 100 3 4 (codes "k") sm no_disk session
        found).1
      (omega arith)
