-- ===== src/Agent/Summarize/Failing.antt =====
-- A summarization by a provider that fails (pkg/agent/loop.go).
use aetherclaw.Common.{
  ℕ, ◌-◌, ◌/◌, ◌≤◌, ◌<◌, ◌≡◌, refl, sym, ap, ◌∙◌, subst, inl, inr, Bool, true, false, Option, none,
  some, List, [], ◌∷◌, ◌++◌, arith, ltb, leb, if◌then◌else◌, ltb→lt, lt→ltb, leb→le, nat_key,
  Bool-cases, length, take, length-take,
}
use aetherclaw.Common.Text.{Text, text_key, codes, is_empty}
use aetherclaw.Common.Dict.{Dict, get}
use aetherclaw.Providers.ToolCall.{Message}
use aetherclaw.Session.Manager.{
  Session, SessionManager, Node, SessionJson, get_history, get_summary,
}
use aetherclaw.Agent.Summarize.{
  SessionState, split_valid, omitted_note, summarize_batch, final_summary, store_summary, noted,
  summarize_valid, summarize_session,
}
use aetherclaw.Agent.Summarize.Compress.{get_history-found}
use aetherclaw.Agent.Summarize.Outcome.{HoldsSummary, store_summary-HoldsSummary}

-- a provider that always fails
abbrev pub failing : {S : Type 0} → Text → S → Option Text × S
failing prompt s = (none, s)

final_summary-failing :
    {S A : Type 0}
    → (valid : List (Message A)) (summary : Text) (s : S)
    → final_summary failing valid summary s ≡ (if ltb 10 (length valid) then codes " " else [], s)
unfolding final_summary summarize_batch
final_summary-failing valid summary s = elim (Bool-cases (ltb 10 (length valid))) [
  | inl e ↦ rw e refl
  | inr e ↦ rw e refl
]

length-split_valid :
    {A : Type 0}
    → (max_tokens : ℕ) (messages : List (Message A))
    → length (split_valid max_tokens messages).0 ≤ length messages
unfolding split_valid
length-split_valid max_tokens [] = omega arith
length-split_valid max_tokens (m ∷ messages) =
    ground (arith, length-split_valid max_tokens messages)

module _ {A B E : Type 0} (json : SessionJson A B) (is_local : Text → Bool)
    (steps : List (Option E)) (context_window set cut : ℕ) (key : Text) (sm : SessionManager A)
    (disk : Dict Text (Node B)) (s : Session A) (found : get key sm.sessions ≡ some s) where
  noted-blank :
      (omitted : Bool) (x : SessionState A B)
      → noted omitted (codes " ", x) ≡ (if omitted then codes " " ++ omitted_note else codes " ", x)
  noted-blank true x = refl
  noted-blank false x = refl

  noted-empty : (omitted : Bool) (x : SessionState A B) → noted omitted ([], x) ≡ ([], x)
  noted-empty true x = refl
  noted-empty false x = refl

  blank-full :
      (omitted : Bool) → is_empty (if omitted then codes " " ++ omitted_note else codes " ") ≡ false
  blank-full true = refl
  blank-full false = refl

  summarize_valid-few :
      (summary : Text) (valid : List (Message A) × Bool)
      → length valid.0 ≤ 10
      → summarize_valid json is_local steps failing set cut key summary valid (sm, disk)
        ≡ (sm, disk)
  summarize_valid-few summary ([], omitted) few = refl
  summarize_valid-few summary (m ∷ valid, omitted) few =
      let small : ltb 10 (length (m ∷ valid)) ≡ false =
        ground (arith, ltb→lt 10 (length (m ∷ valid))) in
      let final : final_summary {S = SessionState A B} failing (m ∷ valid) summary (sm, disk)
          ≡ ([], (sm, disk)) =
        final_summary-failing (m ∷ valid) summary (sm, disk) ∙ rw small refl in
      ap (λ r. store_summary json is_local steps set cut key (noted omitted r)) final
      ∙ ap (store_summary json is_local steps set cut key) (noted-empty omitted (sm, disk))

  summarize_valid-many :
      (summary : Text) (valid : List (Message A) × Bool)
      → leb (length s.messages) 4 ≡ false
      → 10 < length valid.0
      → HoldsSummary json is_local steps set cut key sm disk s found
          (if valid.1 then codes " " ++ omitted_note else codes " ")
          (summarize_valid json is_local steps failing set cut key summary valid (sm, disk))
  summarize_valid-many summary ([], omitted) long many = absurd (omega arith)
  summarize_valid-many summary (m ∷ valid, omitted) long many =
      let text = if omitted then codes " " ++ omitted_note else codes " " in
      let large : ltb 10 (length (m ∷ valid)) ≡ true = lt→ltb 10 (length (m ∷ valid)) many in
      let final : final_summary {S = SessionState A B} failing (m ∷ valid) summary (sm, disk)
          ≡ (codes " ", (sm, disk)) =
        final_summary-failing (m ∷ valid) summary (sm, disk) ∙ rw large refl in
      let result =
        ap (λ r. store_summary json is_local steps set cut key (noted omitted r)) final
        ∙ ap (store_summary json is_local steps set cut key) (noted-blank omitted (sm, disk)) in
      subst (HoldsSummary json is_local steps set cut key sm disk s found text) (sym result) (
        store_summary-HoldsSummary json is_local steps set cut key sm disk s found text long
          (blank-full omitted))

  -- With a provider that always fails, and with no other use of the sessions meanwhile, the
  -- summarization of a session changes nothing when at most ten messages are to be summarized. When
  -- more are, all but the last four messages are dropped all the same, and the summary is replaced
  -- by a space, with the note after it if a message was too large.
  pub summarize_session-failing :
      let (valid, omitted) =
        split_valid (context_window / 2) (take (length s.messages - 4) s.messages) in
      let result =
        summarize_session json is_local steps failing context_window set cut key (sm, disk) in
      (length valid ≤ 10 → result ≡ (sm, disk))
      × (10 < length valid
          → HoldsSummary json is_local steps set cut key sm disk s found
              (if omitted then codes " " ++ omitted_note else codes " ")
              result)
  unfolding summarize_session
  summarize_session-failing =
      let history = get_history key sm in
      let same : history ≡ s.messages = get_history-found key sm s found in
      let valid = split_valid (context_window / 2) (take (length s.messages - 4) s.messages) in
      elim (Bool-cases (leb (length s.messages) 4)) [
        | inl e ↦ (
          λ few. rw (same, e) refl,
          λ many. absurd (
              omega (
                arith,
                leb→le (length s.messages) 4 e,
                length-split_valid (context_window / 2) (take (length s.messages - 4) s.messages),
                length-take (length s.messages - 4) s.messages,
                many,
              )),
        )
        | inr e ↦ (
          λ few. rw (same, e) (summarize_valid-few (get_summary key sm) valid few),
          λ many. rw (same, e) (summarize_valid-many (get_summary key sm) valid e many),
        )
      ]
