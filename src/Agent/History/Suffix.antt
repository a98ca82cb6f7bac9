-- ===== src/Agent/History/Suffix.antt =====
-- Histories whose beginning was cut off (pkg/agent/context.go).
use aetherclaw.Common.{
  ◌≡◌, refl, sym, ap, ◌∙◌, inl, inr, Bool, true, false, ◌&&◌, not, List, [], ◌∷◌, ◌++◌, arith,
  if◌then◌else◌, ◌==◌, nat_key, Bool-cases,
}
use aetherclaw.Common.Text.{text_key, codes, text_beq}
use aetherclaw.Providers.ToolCall.{Message}
use aetherclaw.Agent.History.{
  has_calls, found_assistant, valid_predecessor, keeps_message, sanitize_after,
  sanitize_history_for_provider,
}
use aetherclaw.Agent.History.Valid.{
  ValidAfter, next, ValidAfter-same, sanitize_after-keeps, sanitize_after-drops, sanitize-after,
}

module _ {A : Type 0} where
  -- the messages that no test of the previous ones can drop
  abbrev pub is_plain : Message A → Bool
  is_plain msg =
      not (msg.role == codes "system")
      && not (msg.role == codes "tool")
      && not (msg.role == codes "assistant" && has_calls msg)

  abbrev pub plain_messages : List (Message A) → List (Message A)
  plain_messages [] = []
  plain_messages (msg ∷ history) =
      let rest = plain_messages history in if is_plain msg then msg ∷ rest else rest

  is_plain-keeps :
      (kept : List (Message A)) (msg : Message A)
      → keeps_message kept msg ≡ false
      → is_plain msg ≡ false
  unfolding keeps_message
  is_plain-keeps kept msg e = ground arith

  sanitize_after-plain :
      (kept history : List (Message A))
      → plain_messages (sanitize_after kept history) ≡ plain_messages history
  unfolding sanitize_after
  sanitize_after-plain kept [] = refl
  sanitize_after-plain kept (msg ∷ history) = elim (Bool-cases (keeps_message kept msg)) [
    | inl e ↦ rw (e, sanitize_after-plain (msg ∷ kept) history) refl
    | inr e ↦ rw (e, is_plain-keeps kept msg e) (sanitize_after-plain kept history)
  ]

  -- Only tool messages, turns of the assistant with calls and system messages are ever dropped: all
  -- the others of a history are those of the sanitized one, in the same order.
  pub sanitize_history-plain :
      (history : List (Message A))
      → plain_messages (sanitize_history_for_provider history) ≡ plain_messages history
  sanitize_history-plain history =
      ap plain_messages (sanitize-after history) ∙ sanitize_after-plain [] history

  module _ (user : Message A) (is_user : user.role ≡ codes "user") where
    found_assistant-user :
        (recent before before' : List (Message A))
        → found_assistant (recent ++ user ∷ before) ≡ found_assistant (recent ++ user ∷ before')
    unfolding found_assistant text_beq
    found_assistant-user [] before before' = rw is_user refl
    found_assistant-user (msg ∷ recent) before before' =
        rw (found_assistant-user recent before before') refl

    keeps_message-user :
        (recent before before' : List (Message A)) (msg : Message A)
        → keeps_message (recent ++ user ∷ before) msg ≡ keeps_message (recent ++ user ∷ before') msg
    unfolding keeps_message valid_predecessor
    keeps_message-user [] before before' msg = rw (found_assistant-user [] before before') refl
    keeps_message-user (m ∷ recent) before before' msg =
        rw (found_assistant-user (m ∷ recent) before before') refl

    sanitize_after-user :
        (history recent before before' : List (Message A))
        → sanitize_after (recent ++ user ∷ before) history
          ≡ sanitize_after (recent ++ user ∷ before') history
    unfolding sanitize_after
    sanitize_after-user [] recent before before' = refl
    sanitize_after-user (msg ∷ history) recent before before' =
        elim (Bool-cases (keeps_message (recent ++ user ∷ before) msg)) [
          | inl e ↦
              sanitize_after-keeps (recent ++ user ∷ before) history msg e
              ∙ ap (◌∷◌ msg) (sanitize_after-user history (msg ∷ recent) before before')
              ∙ sym (
                  sanitize_after-keeps (recent ++ user ∷ before') history msg
                    (sym (keeps_message-user recent before before' msg) ∙ e))
          | inr e ↦
              sanitize_after-drops (recent ++ user ∷ before) history msg e
              ∙ sanitize_after-user history recent before before'
              ∙ sym (
                  sanitize_after-drops (recent ++ user ∷ before') history msg
                    (sym (keeps_message-user recent before before' msg) ∙ e))
        ]

    keeps_message-of_user : (kept : List (Message A)) → keeps_message kept user ≡ true
    unfolding keeps_message text_beq
    keeps_message-of_user kept = rw is_user refl

    ValidAfter-split :
        {before : List (Message A)}
        → (older recent : List (Message A)) → ValidAfter before (older ++ user ∷ recent)
        → (kept : List (Message A)) × ValidAfter (user ∷ kept) recent
    ValidAfter-split {before = before} [] recent (next f v) = (before, v)
    ValidAfter-split {before = before} (msg ∷ older) recent (next f v) =
        ValidAfter-split {before = msg ∷ before} older recent v

    sanitize_after-append :
        (cut recent kept before : List (Message A))
        → ValidAfter (user ∷ before) recent
        → sanitize_after kept (cut ++ user ∷ recent) ≡ sanitize_after kept cut ++ user ∷ recent
    unfolding sanitize_after
    sanitize_after-append [] recent kept before v =
        sanitize_after-keeps kept recent user (keeps_message-of_user kept)
        ∙ ap (◌∷◌ user) (sanitize_after-user recent [] kept before ∙ ValidAfter-same v)
    sanitize_after-append (msg ∷ cut) recent kept before v =
        elim (Bool-cases (keeps_message kept msg)) [
          | inl e ↦ rw e (ap (◌∷◌ msg) (sanitize_after-append cut recent (msg ∷ kept) before v))
          | inr e ↦ rw e (sanitize_after-append cut recent kept before v)
        ]

    -- When a valid history is cut at any place, or its beginning is replaced by anything, only
    -- messages before the next one of the user are dropped: that message and all after it are sent
    -- as they are.
    pub sanitize_history-cut :
        (older cut recent : List (Message A))
        → ValidAfter [] (older ++ user ∷ recent)
        → sanitize_history_for_provider (cut ++ user ∷ recent)
          ≡ sanitize_history_for_provider cut ++ user ∷ recent
    sanitize_history-cut older cut recent v =
        let (before, v') = ValidAfter-split older recent v in
        sanitize-after (cut ++ user ∷ recent)
        ∙ sanitize_after-append cut recent [] before v'
        ∙ ap (λ h. h ++ user ∷ recent) (sym (sanitize-after cut))
