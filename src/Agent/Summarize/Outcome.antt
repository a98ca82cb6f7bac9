-- ===== src/Agent/Summarize/Outcome.antt =====
-- What a summarization leaves of a session (pkg/agent/loop.go).
use aetherclaw.Common.{
  ℕ, ◌-◌, ◌/◌, ◌≡◌, refl, sym, ap, ◌∙◌, subst, ◌⊎◌, inl, inr, Bool, false, Option, none, some, List,
  [], ◌∷◌, ltb, leb, nat_key, eq_refl, Bool-cases, length, take, drop,
}
use aetherclaw.Common.Text.{Text, text_key, is_empty}
use aetherclaw.Common.Dict.{Dict, get, get-put}
use aetherclaw.Providers.ToolCall.{Message}
use aetherclaw.Session.Manager.{
  Session, SessionManager, Node, SessionJson, if_found, with_session, get_history, get_summary,
  last_messages, truncate_session, truncate_history, set_summary,
}
use aetherclaw.Agent.Summarize.{
  SessionState, split_valid, batch_prompt, reply_or, summarize_batch, final_summary, store_summary,
  noted, summarize_valid, summarize_session,
}
use aetherclaw.Agent.Summarize.Compress.{get_history-found, get_history-put}

module _ {A : Type 0} where
  get_summary-put :
      (key : Text) (s : Session A) (sm : SessionManager A)
      → get_summary key (with_session sm key s) ≡ s.summary
  unfolding get_summary
  get_summary-put key s sm = rw (get-put key key s sm.sessions, eq_refl key) refl

  -- the session at the end
  abbrev summarized : ℕ → ℕ → Text → Text → Session A → SessionManager A → SessionManager A
  summarized set cut key text s sm =
      with_session (with_session sm key (record s { summary = text; updated = set })) key
        (record s { messages = last_messages 4 s.messages; summary = text; updated = cut })

  truncate-summarized :
      (set cut : ℕ) (key text : Text) (sm : SessionManager A) (s : Session A)
      → get key sm.sessions ≡ some s
      → leb (length s.messages) 4 ≡ false
      → truncate_history cut key 4 (set_summary set key text sm) ≡ summarized set cut key text s sm
  unfolding truncate_history set_summary
  truncate-summarized set cut key text sm s e long =
      let marked = with_session sm key (record s { summary = text; updated = set }) in
      let found : get key marked.sessions ≡ some (record s { summary = text; updated = set }) =
        rw (get-put key key (record s { summary = text; updated = set }) sm.sessions, eq_refl key)
          refl in
      let set_first : set_summary set key text sm ≡ marked = rw e refl in
      ap (λ m. if_found m (λ session. truncate_session cut key 4 session m) (get key m.sessions))
        set_first
      ∙ rw (found, long) refl

module _ {A B E : Type 0} (json : SessionJson A B) (is_local : Text → Bool)
    (steps : List (Option E)) (set cut : ℕ) (key : Text) (sm : SessionManager A)
    (disk : Dict Text (Node B)) (s : Session A) (found : get key sm.sessions ≡ some s) where
  -- the session holds a summary and its last four messages
  abbrev pub HoldsSummary : Text → SessionState A B → Type 0
  HoldsSummary text (sm', disk') =
      (get_history key sm' ≡ last_messages 4 s.messages) × (get_summary key sm' ≡ text)

  pub store_summary-HoldsSummary :
      (text : Text)
      → leb (length s.messages) 4 ≡ false
      → is_empty text ≡ false
      → HoldsSummary text (store_summary json is_local steps set cut key (text, (sm, disk)))
  store_summary-HoldsSummary text long full =
      let e = truncate-summarized set cut key text sm s found long in
      rw full (
        ap (get_history key) e ∙ get_history-put key _ _,
        ap (get_summary key) e ∙ get_summary-put key _ _,
      )

  -- Nothing is changed, or the session holds a summary that is not empty and its last messages.
  abbrev pub KeptOrSummarized : SessionState A B → Type 0
  KeptOrSummarized s' =
      (s' ≡ (sm, disk)) ⊎ ((text : Text) × (is_empty text ≡ false) × HoldsSummary text s')

  store_summary-outcome :
      (r : Text × SessionState A B)
      → leb (length s.messages) 4 ≡ false
      → r.1 ≡ (sm, disk)
      → KeptOrSummarized (store_summary json is_local steps set cut key r)
  store_summary-outcome ([], s') long e = inl e
  store_summary-outcome (c ∷ text, s') long e =
      subst (λ x. KeptOrSummarized (store_summary json is_local steps set cut key (c ∷ text, x)))
        (sym e) (inr (c ∷ text, refl, store_summary-HoldsSummary (c ∷ text) long refl))

reply_or-state :
    {S : Type 0} → (default : Text) (r : Option Text × S) → (reply_or default r).1 ≡ r.1
reply_or-state default (none, s) = refl
reply_or-state default (some text, s) = refl

noted-state : {S : Type 0} → (omitted : Bool) (r : Text × S) → (noted omitted r).1 ≡ r.1
noted-state omitted (text, s) = refl

module _ {S A : Type 0} (chat : Text → S → Option Text × S)
    (steady : (prompt : Text) (s : S) → (chat prompt s).1 ≡ s) where
  summarize_batch-state :
      (batch : List (Message A)) (existing : Text) (s : S)
      → (summarize_batch chat batch existing s).1 ≡ s
  unfolding summarize_batch
  summarize_batch-state batch existing s =
      reply_or-state [] (chat (batch_prompt batch existing) s) ∙ steady _ s

  final_summary-state :
      (valid : List (Message A)) (summary : Text) (s : S)
      → (final_summary chat valid summary s).1 ≡ s
  unfolding final_summary
  final_summary-state valid summary s = elim (Bool-cases (ltb 10 (length valid))) [
    | inl e ↦ rw e (
        reply_or-state _ (chat _ _)
        ∙ steady _ _
        ∙ summarize_batch-state (drop (length valid / 2) valid) [] _
        ∙ summarize_batch-state (take (length valid / 2) valid) [] s)
    | inr e ↦ rw e (summarize_batch-state valid summary s)
  ]

module _ {A B E : Type 0} (json : SessionJson A B) (is_local : Text → Bool)
    (steps : List (Option E)) (context_window set cut : ℕ) (key : Text) (sm : SessionManager A)
    (disk : Dict Text (Node B)) (s : Session A) (found : get key sm.sessions ≡ some s) where
  summarize_valid-outcome :
      (chat : Text → SessionState A B → Option Text × SessionState A B) (summary : Text)
      → ((prompt : Text) (x : SessionState A B) → (chat prompt x).1 ≡ x)
      → (valid : List (Message A) × Bool) → leb (length s.messages) 4 ≡ false
      → KeptOrSummarized json is_local steps set cut key sm disk s found
          (summarize_valid json is_local steps chat set cut key summary valid (sm, disk))
  summarize_valid-outcome chat summary steady ([], omitted) long = inl refl
  summarize_valid-outcome chat summary steady (m ∷ valid, omitted) long =
      let r = final_summary chat (m ∷ valid) summary (sm, disk) in
      store_summary-outcome json is_local steps set cut key sm disk s found (noted omitted r) long
        (noted-state omitted r ∙ final_summary-state chat steady (m ∷ valid) summary (sm, disk))

  -- Whatever the provider replies, when nothing else uses the sessions meanwhile: the summarization
  -- of a session changes nothing at all, or leaves its last four messages with a summary that is
  -- not empty.
  pub summarize_session-outcome :
      (chat : Text → SessionState A B → Option Text × SessionState A B)
      → ((prompt : Text) (x : SessionState A B) → (chat prompt x).1 ≡ x)
      → KeptOrSummarized json is_local steps set cut key sm disk s found
          (summarize_session json is_local steps chat context_window set cut key (sm, disk))
  unfolding summarize_session
  summarize_session-outcome chat steady =
      let same = get_history-found key sm s found in
      elim (Bool-cases (leb (length (get_history key sm)) 4)) [
        | inl e ↦ rw e (inl refl)
        | inr e ↦ rw e (
            summarize_valid-outcome chat (get_summary key sm) steady
              (split_valid (context_window / 2)
                (take (length (get_history key sm) - 4) (get_history key sm)))
              (subst (λ h. leb (length h) 4 ≡ false) same e))
      ]
