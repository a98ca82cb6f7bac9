-- ===== src/Session/Manager/History.antt =====
-- Sequences of calls on the sessions (pkg/session/manager.go).
use aetherclaw.Common.{
  ℕ, ◌-◌, ◌≤◌, ◌≡◌, refl, sym, ap, ◌∙◌, inl, inr, false, Option, none, some, List, [], ◌∷◌, ◌++◌,
  arith, leb, if◌then◌else◌, leb→le, ◌==◌, nat_key, eq_iff, eq_refl, Bool-cases, Option-cases,
  length, drop,
}
use aetherclaw.Common.Text.{Text, text_key}
use aetherclaw.Common.Dict.{get, get-put}
use aetherclaw.Providers.ToolCall.{Message}
use aetherclaw.Session.Manager.{
  Session, SessionManager, with_session, found_or_created, if_found, get_or_create_session,
  add_full_message, set_summary, last_messages, truncate_session, truncate_history, set_history,
}

-- A call of a method that changes a session; the times are those that it reads.
pub data SessionCall (A : Type 0) : Type 0 where
  get_or_create_call : SessionCall A
  add_call : Message A → SessionCall A
  set_summary_call : Text → SessionCall A
  truncate_call : ℕ → SessionCall A
  set_history_call : List (Message A) → SessionCall A

pub record KeyedCall (A : Type 0) : Type 0 where
  pub session_key : Text
  pub now : ℕ
  pub later : ℕ
  pub call : SessionCall A

-- A session that was created, as its messages and its summary.
abbrev pub Talk : Type 0 → Type 0
Talk A = List (Message A) × Text

module _ {A : Type 0} where
  abbrev pub apply_call : Text → ℕ → ℕ → SessionCall A → SessionManager A → SessionManager A
  apply_call key now later get_or_create_call sm = (get_or_create_session now later key sm).1
  apply_call key now later (add_call msg) sm = add_full_message now later key msg sm
  apply_call key now later (set_summary_call summary) sm = set_summary now key summary sm
  apply_call key now later (truncate_call n) sm = truncate_history now key n sm
  apply_call key now later (set_history_call history) sm = set_history now key history sm

  unfoldable pub apply_calls : List (KeyedCall A) → SessionManager A → SessionManager A
  apply_calls [] sm = sm
  apply_calls (c ∷ calls) sm = apply_calls calls (apply_call c.session_key c.now c.later c.call sm)

  -- What a call does to one session. Only the first two create it.
  abbrev pub talk_call : SessionCall A → Option (Talk A) → Option (Talk A)
  talk_call get_or_create_call none = some ([], [])
  talk_call (add_call msg) none = some (msg ∷ [], [])
  talk_call (set_summary_call summary) none = none
  talk_call (truncate_call n) none = none
  talk_call (set_history_call history) none = none
  talk_call get_or_create_call (some talk) = some talk
  talk_call (add_call msg) (some (messages, summary)) = some (messages ++ msg ∷ [], summary)
  talk_call (set_summary_call new) (some (messages, summary)) = some (messages, new)
  talk_call (truncate_call n) (some (messages, summary)) = some (last_messages n messages, summary)
  talk_call (set_history_call history) (some (messages, summary)) = some (history, summary)

  abbrev pub talk_calls : Text → List (KeyedCall A) → Option (Talk A) → Option (Talk A)
  talk_calls key [] talk = talk
  talk_calls key (c ∷ calls) talk =
      talk_calls key calls (if c.session_key == key then talk_call c.call talk else talk)

  abbrev pub session_talk : Option (Session A) → Option (Talk A)
  session_talk none = none
  session_talk (some s) = some (s.messages, s.summary)

  abbrev pub talk_of : Text → SessionManager A → Option (Talk A)
  talk_of key sm = session_talk (get key sm.sessions)

  talk-put :
      (key : Text) (s : Session A) (k : Text) (sm : SessionManager A)
      → talk_of k (with_session sm key s)
        ≡ (if key == k then some (s.messages, s.summary) else talk_of k sm)
  talk-put key s k sm = elim (Bool-cases (key == k)) [
    | inl e ↦ rw (get-put key k s sm.sessions, e) refl
    | inr e ↦ rw (get-put key k s sm.sessions, e) refl
  ]

  drop-length : (xs : List (Message A)) → drop (length xs) xs ≡ []
  drop-length [] = refl
  drop-length (x ∷ xs) = drop-length xs

  last_messages-short :
      (n : ℕ) (messages : List (Message A))
      → length messages ≤ n
      → last_messages n messages ≡ messages
  last_messages-short n messages h = let e : length messages - n ≡ 0 = omega arith in rw e refl

  truncate_session-talk :
      (k key : Text) (now n : ℕ) (s : Session A) (sm : SessionManager A)
      → get key sm.sessions ≡ some s
      → talk_of k (truncate_session now key n s sm)
        ≡ (if key == k then some (last_messages n s.messages, s.summary) else talk_of k sm)
  truncate_session-talk k key now n s sm e = elim (Bool-cases (leb n 0)) [
    | inl z ↦
        let zero_kept : n ≡ 0 = omega (arith, leb→le n 0 z) in
        let whole : length s.messages - 0 ≡ length s.messages = omega arith in
        rw (zero_kept, whole, drop-length s.messages)
          (talk-put key (record s { messages = []; updated = now }) k sm)
    | inr z ↦ elim (Bool-cases (leb (length s.messages) n)) [
      | inl short ↦
          rw (z, short, last_messages-short n s.messages (leb→le _ _ short))
            (elim (Bool-cases (key == k)) [
              | inl same ↦ rw (same, sym ((eq_iff key k).0 same), e) refl
              | inr other ↦ rw other refl
            ])
      | inr long ↦
          rw (z, long)
            (talk-put key (record s { messages = last_messages n s.messages; updated = now }) k sm)
    ]
  ]

  found_or_created-same :
      (key : Text) (now later : ℕ) (sm : SessionManager A) (found : Option (Session A))
      → get key sm.sessions ≡ found
      → talk_of key (found_or_created now later key sm found).1
        ≡ talk_call get_or_create_call (session_talk found)
  found_or_created-same key now later sm none e =
      rw (get-put key key _ sm.sessions, eq_refl key) refl
  found_or_created-same key now later sm (some s) e = rw e refl

  found_or_created-other :
      (k key : Text) (now later : ℕ) (sm : SessionManager A) (found : Option (Session A))
      → (key == k) ≡ false
      → talk_of k (found_or_created now later key sm found).1 ≡ talk_of k sm
  found_or_created-other k key now later sm none other =
      rw (get-put key k _ sm.sessions, other) refl
  found_or_created-other k key now later sm (some s) other = refl

  if_found-same :
      (key : Text) (c : SessionCall A) (sm : SessionManager A) (f : Session A → SessionManager A)
      → (found : Option (Session A)) → get key sm.sessions ≡ found
      → talk_call c none ≡ none
      → ((s : Session A)
          → get key sm.sessions ≡ some s
          → talk_of key (f s) ≡ talk_call c (some (s.messages, s.summary)))
      → talk_of key (if_found sm f found) ≡ talk_call c (session_talk found)
  if_found-same key c sm f none e n h = ap session_talk e ∙ sym n
  if_found-same key c sm f (some s) e n h = h s e

  if_found-other :
      (k : Text) (sm : SessionManager A) (f : Session A → SessionManager A)
      → (found : Option (Session A))
      → ((s : Session A) → found ≡ some s → talk_of k (f s) ≡ talk_of k sm)
      → talk_of k (if_found sm f found) ≡ talk_of k sm
  if_found-other k sm f none h = refl
  if_found-other k sm f (some s) h = h s refl

  with_session-same :
      (key : Text) (s : Session A) (sm : SessionManager A)
      → talk_of key (with_session sm key s) ≡ some (s.messages, s.summary)
  with_session-same key s sm = rw (get-put key key s sm.sessions, eq_refl key) refl

  with_session-other :
      (key : Text) (s : Session A) (k : Text) (sm : SessionManager A)
      → (key == k) ≡ false
      → talk_of k (with_session sm key s) ≡ talk_of k sm
  with_session-other key s k sm other = rw (get-put key k s sm.sessions, other) refl

  apply_call-same :
      (key : Text) (now later : ℕ) (c : SessionCall A) (sm : SessionManager A)
      → talk_of key (apply_call key now later c sm) ≡ talk_call c (talk_of key sm)
  unfolding get_or_create_session add_full_message set_summary truncate_history set_history
  apply_call-same key now later get_or_create_call sm =
      found_or_created-same key now later sm (get key sm.sessions) refl
  apply_call-same key now later (add_call msg) sm = elim (Option-cases (get key sm.sessions)) [
    | inl e ↦ rw (e, get-put key key _ sm.sessions, eq_refl key) refl
    | inr (s, e) ↦ rw (e, get-put key key _ sm.sessions, eq_refl key) refl
  ]
  apply_call-same key now later (set_summary_call summary) sm =
      if_found-same key (set_summary_call summary) sm _ (get key sm.sessions) refl refl
        (λ s e. with_session-same key _ sm)
  apply_call-same key now later (truncate_call n) sm =
      if_found-same key (truncate_call n) sm _ (get key sm.sessions) refl refl
        (λ s e. truncate_session-talk key key now n s sm e ∙ rw (eq_refl key) refl)
  apply_call-same key now later (set_history_call history) sm =
      if_found-same key (set_history_call history) sm _ (get key sm.sessions) refl refl
        (λ s e. with_session-same key _ sm)

  apply_call-other :
      (k key : Text) (now later : ℕ) (c : SessionCall A) (sm : SessionManager A)
      → (key == k) ≡ false
      → talk_of k (apply_call key now later c sm) ≡ talk_of k sm
  unfolding get_or_create_session add_full_message set_summary truncate_history set_history
  apply_call-other k key now later get_or_create_call sm other =
      found_or_created-other k key now later sm (get key sm.sessions) other
  apply_call-other k key now later (add_call msg) sm other = with_session-other key _ k sm other
  apply_call-other k key now later (set_summary_call summary) sm other =
      if_found-other k sm _ (get key sm.sessions) (λ s e. with_session-other key _ k sm other)
  apply_call-other k key now later (truncate_call n) sm other =
      if_found-other k sm _ (get key sm.sessions)
        (λ s e. truncate_session-talk k key now n s sm e ∙ rw other refl)
  apply_call-other k key now later (set_history_call history) sm other =
      if_found-other k sm _ (get key sm.sessions) (λ s e. with_session-other key _ k sm other)

  -- After any calls on any sessions, what a session holds, its messages and its summary, is what the
  -- calls under its key alone make of it, one after the other: a call that adds a message appends
  -- it, a truncation keeps the last ones, a summary or a history replaces the one before, and the
  -- last three do nothing for a key that no call has created.
  pub apply_calls-talk :
      (calls : List (KeyedCall A)) (key : Text) (sm : SessionManager A)
      → talk_of key (apply_calls calls sm) ≡ talk_calls key calls (talk_of key sm)
  unfolding apply_calls
  apply_calls-talk [] key sm = refl
  apply_calls-talk (c ∷ calls) key sm =
      apply_calls-talk calls key (apply_call c.session_key c.now c.later c.call sm)
      ∙ ap (talk_calls key calls) (elim (Bool-cases (c.session_key == key)) [
        | inl same ↦
            rw (same, sym ((eq_iff c.session_key key).0 same))
              (apply_call-same c.session_key c.now c.later c.call sm)
        | inr other ↦ rw other (apply_call-other key c.session_key c.now c.later c.call sm other)
      ])
