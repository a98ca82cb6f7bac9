-- ===== src/Agent/History/Valid.antt =====
-- What a sanitized history looks like (pkg/agent/context.go).
use aetherclaw.Common.{
  ◌≡◌, refl, sym, ap, ◌∙◌, subst, inl, inr, true, false, ◌&&◌, List, [], ◌∷◌, arith, ◌==◌, nat_key,
  eq_iff, Bool-cases,
}
use aetherclaw.Common.Text.{text_key, codes, text_beq}
use aetherclaw.Providers.ToolCall.{Message}
use aetherclaw.Agent.History.{
  has_calls, found_assistant, valid_predecessor, keeps_message, sanitize_after,
  sanitize_history_for_provider,
}

module _ {A : Type 0} where
  -- Before, newest first, is a turn of the assistant with calls, and answers to it.
  pub data Asked : List (Message A) → Type 0 where
    here :
        {msg : Message A}
        → {before : List (Message A)} → msg.role ≡ codes "assistant"
        → has_calls msg ≡ true
        → Asked (msg ∷ before)
    also_answered :
        {msg : Message A}
        → {before : List (Message A)} → msg.role ≡ codes "tool"
        → Asked before
        → Asked (msg ∷ before)

  -- Before ends with a message of the user or of a tool.
  pub data Prompted : List (Message A) → Type 0 where
    by_user :
        {msg : Message A}
        → {before : List (Message A)} → msg.role ≡ codes "user"
        → Prompted (msg ∷ before)
    by_tool :
        {msg : Message A}
        → {before : List (Message A)} → msg.role ≡ codes "tool"
        → Prompted (msg ∷ before)

  pub data MayFollow (before : List (Message A)) (msg : Message A) : Type 0 where
    plain :
        (msg.role == codes "system") ≡ false
        → (msg.role == codes "tool") ≡ false
        → (msg.role == codes "assistant" && has_calls msg) ≡ false
        → MayFollow before msg
    answer : msg.role ≡ codes "tool" → Asked before → MayFollow before msg
    asking :
        msg.role ≡ codes "assistant" → has_calls msg ≡ true → Prompted before → MayFollow before msg

  -- What a provider accepts after some messages, newest first.
  pub data ValidAfter : List (Message A) → List (Message A) → Type 0 where
    done : {before : List (Message A)} → ValidAfter before []
    next :
        {before rest : List (Message A)}
        → {msg : Message A} → MayFollow before msg
        → ValidAfter (msg ∷ before) rest
        → ValidAfter before (msg ∷ rest)

  found_assistant-Asked : (before : List (Message A)) → found_assistant before ≡ true → Asked before
  unfolding found_assistant
  found_assistant-Asked [] e = ground arith
  found_assistant-Asked (msg ∷ before) e = elim (Bool-cases (msg.role == codes "tool")) [
    | inl t ↦
        let f : found_assistant before ≡ true = ground arith in
        also_answered ((eq_iff msg.role (codes "tool")).0 t) (found_assistant-Asked before f)
    | inr t ↦
        let r : (msg.role == codes "assistant") ≡ true = ground arith in
        here ((eq_iff msg.role (codes "assistant")).0 r) (ground arith)
  ]

  Asked-found_assistant : {before : List (Message A)} → Asked before → found_assistant before ≡ true
  unfolding found_assistant text_beq
  Asked-found_assistant (here r c) = rw (r, c) refl
  Asked-found_assistant (also_answered r a) = rw r (Asked-found_assistant a)

  valid_predecessor-Prompted :
      (before : List (Message A)) → valid_predecessor before ≡ true → Prompted before
  unfolding valid_predecessor
  valid_predecessor-Prompted [] e = ground arith
  valid_predecessor-Prompted (msg ∷ before) e = elim (Bool-cases (msg.role == codes "user")) [
    | inl u ↦ by_user ((eq_iff msg.role (codes "user")).0 u)
    | inr u ↦
        let t : (msg.role == codes "tool") ≡ true = ground arith in
        by_tool ((eq_iff msg.role (codes "tool")).0 t)
  ]

  Prompted-valid_predecessor :
      {before : List (Message A)} → Prompted before → valid_predecessor before ≡ true
  unfolding valid_predecessor text_beq
  Prompted-valid_predecessor (by_user r) = rw r refl
  Prompted-valid_predecessor (by_tool r) = rw r refl

  keeps_message-MayFollow :
      (before : List (Message A)) (msg : Message A)
      → keeps_message before msg ≡ true
      → MayFollow before msg
  unfolding keeps_message
  keeps_message-MayFollow before msg e = elim (Bool-cases (msg.role == codes "tool")) [
    | inl t ↦
        let f : found_assistant before ≡ true = ground arith in
        answer ((eq_iff msg.role (codes "tool")).0 t) (found_assistant-Asked before f)
    | inr t ↦ elim (Bool-cases (msg.role == codes "assistant" && has_calls msg)) [
      | inl c ↦
          let r : (msg.role == codes "assistant") ≡ true = ground arith in
          let h : has_calls msg ≡ true = ground arith in
          let v : valid_predecessor before ≡ true = ground arith in
          asking ((eq_iff msg.role (codes "assistant")).0 r) h (valid_predecessor-Prompted before v)
      | inr c ↦ plain (ground arith) t c
    ]
  ]

  MayFollow-keeps_message :
      (before : List (Message A)) (msg : Message A)
      → MayFollow before msg
      → keeps_message before msg ≡ true
  unfolding keeps_message found_assistant text_beq
  MayFollow-keeps_message before msg (plain s t c) = ground arith
  MayFollow-keeps_message [] msg (answer r a) = elim a [ ]
  MayFollow-keeps_message (m ∷ before) msg (answer r a) = rw (r, Asked-found_assistant a) refl
  MayFollow-keeps_message before msg (asking r h v) = rw (r, h, Prompted-valid_predecessor v) refl

  pub sanitize_after-keeps :
      (kept history : List (Message A)) (msg : Message A)
      → keeps_message kept msg ≡ true
      → sanitize_after kept (msg ∷ history) ≡ msg ∷ sanitize_after (msg ∷ kept) history
  unfolding sanitize_after
  sanitize_after-keeps kept history msg e = rw e refl

  pub sanitize_after-drops :
      (kept history : List (Message A)) (msg : Message A)
      → keeps_message kept msg ≡ false
      → sanitize_after kept (msg ∷ history) ≡ sanitize_after kept history
  unfolding sanitize_after
  sanitize_after-drops kept history msg e = rw e refl

  sanitize_after-ValidAfter :
      (kept history : List (Message A)) → ValidAfter kept (sanitize_after kept history)
  unfolding sanitize_after
  sanitize_after-ValidAfter kept [] = done
  sanitize_after-ValidAfter kept (msg ∷ history) = elim (Bool-cases (keeps_message kept msg)) [
    | inl e ↦
        subst (ValidAfter kept) (sym (sanitize_after-keeps kept history msg e)) (
          next (keeps_message-MayFollow kept msg e)
            (sanitize_after-ValidAfter (msg ∷ kept) history))
    | inr e ↦
        subst (ValidAfter kept) (sym (sanitize_after-drops kept history msg e))
          (sanitize_after-ValidAfter kept history)
  ]

  pub ValidAfter-same :
      {kept history : List (Message A)}
      → ValidAfter kept history
      → sanitize_after kept history ≡ history
  unfolding sanitize_after
  ValidAfter-same done = refl
  ValidAfter-same {kept} (next {rest = rest} {msg = msg} f v) =
      sanitize_after-keeps kept rest msg (MayFollow-keeps_message kept msg f)
      ∙ ap (◌∷◌ msg) (ValidAfter-same v)

  pub sanitize-after :
      (history : List (Message A))
      → sanitize_history_for_provider history ≡ sanitize_after [] history
  unfolding sanitize_history_for_provider sanitize_after
  sanitize-after [] = refl
  sanitize-after (msg ∷ history) = refl

  -- A sanitized history is valid: it holds no system message, each tool message comes after a turn
  -- of the assistant with calls, with only tool messages between, and each such turn comes right
  -- after a message of the user or a tool. A history that is valid already is left as it is.
  pub sanitize_history-ValidAfter :
      (history : List (Message A))
      → ValidAfter [] (sanitize_history_for_provider history)
        × (ValidAfter [] history → sanitize_history_for_provider history ≡ history)
  sanitize_history-ValidAfter history = (
    subst (ValidAfter []) (sym (sanitize-after history)) (sanitize_after-ValidAfter [] history),
    λ v. sanitize-after history ∙ ValidAfter-same v,
  )
