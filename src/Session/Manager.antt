-- ===== src/Session/Manager.antt =====
-- pkg/session/manager.go. `B` is the type of what files hold; package json, filepath.IsLocal and the
-- clock are parameters. The directory of the sessions is a map from names to what they name.
pub mod History
pub mod Files
pub mod Load
pub mod Restart
mod Tests
use aetherclaw.Common.{
  ℕ, ◌-◌, Bool, not, Option, none, some, List, [], ◌∷◌, ◌++◌, leb, if◌then◌else◌, length, drop,
}
use aetherclaw.Common.Text.{Text, text_key, is_empty}
use aetherclaw.Common.Dict.{Dict, get, put}
use aetherclaw.Providers.ToolCall.{Message}

pub record Session (A : Type 0) : Type 0 where
  pub key : Text
  pub messages : List (Message A)
  pub summary : Text
  pub created : ℕ
  pub updated : ℕ

pub record SessionManager (A : Type 0) : Type 0 where
  pub sessions : Dict Text (Session A)
  pub storage : Text

pub data Node (B : Type 0) : Type 0 where
  directory : Node B
  unreadable : Node B
  file : B → Node B

-- json.MarshalIndent and json.Unmarshal, with `none` for an error
pub record SessionJson (A B : Type 0) : Type 0 where
  pub marshal : Session A → Option B
  pub unmarshal : B → Option (Session A)

pub record SessionInfo : Type 0 where
  pub info_key : Text
  pub message_count : ℕ
  pub info_created : ℕ
  pub info_updated : ℕ
  pub has_summary : Bool

module _ {A : Type 0} where
  abbrev pub with_session : SessionManager A → Text → Session A → SessionManager A
  with_session sm key session = record sm { sessions = put key session sm.sessions }

  abbrev pub found_or_created :
      ℕ → ℕ → Text → SessionManager A → Option (Session A) → Session A × SessionManager A
  found_or_created now later key sm (some session) = (session, sm)
  found_or_created now later key sm none =
      let session : Session A = record {
        key = key;
        messages = [];
        summary = [];
        created = now;
        updated = later;
      } in
      (session, with_session sm key session)

  -- the session and the manager; time.Now is called twice
  unfoldable pub get_or_create_session :
      ℕ → ℕ → Text → SessionManager A → Session A × SessionManager A
  get_or_create_session now later key sm = found_or_created now later key sm (get key sm.sessions)

  abbrev pub stored_or_new : ℕ → Text → Option (Session A) → Session A
  stored_or_new now key (some session) = session
  stored_or_new now key none = record {
    key = key;
    messages = [];
    summary = [];
    created = now;
    updated = 0;
  }

  unfoldable pub add_full_message : ℕ → ℕ → Text → Message A → SessionManager A → SessionManager A
  add_full_message now later key msg sm =
      let session = stored_or_new now key (get key sm.sessions) in
      with_session sm key
        (record session { messages = session.messages ++ msg ∷ []; updated = later })

  abbrev pub add_message : ℕ → ℕ → Text → Text → Text → SessionManager A → SessionManager A
  add_message now later key role content =
      add_full_message now later key
        (record { role = role; content = content; tool_calls = []; tool_call_id = [] })

  abbrev pub found_messages : Option (Session A) → List (Message A)
  found_messages none = []
  found_messages (some session) = session.messages

  unfoldable pub get_history : Text → SessionManager A → List (Message A)
  get_history key sm = found_messages (get key sm.sessions)

  abbrev pub found_summary : Option (Session A) → Text
  found_summary none = []
  found_summary (some session) = session.summary

  unfoldable pub get_summary : Text → SessionManager A → Text
  get_summary key sm = found_summary (get key sm.sessions)

  abbrev pub if_found :
      SessionManager A → (Session A → SessionManager A) → Option (Session A) → SessionManager A
  if_found sm f none = sm
  if_found sm f (some session) = f session

  unfoldable pub set_summary : ℕ → Text → Text → SessionManager A → SessionManager A
  set_summary now key summary sm =
      if_found sm
        (λ session. with_session sm key (record session { summary = summary; updated = now }))
        (get key sm.sessions)

  -- Messages[len(Messages)-keepLast:], for keepLast below the length
  abbrev pub last_messages : ℕ → List (Message A) → List (Message A)
  last_messages keep_last messages = drop (length messages - keep_last) messages

  -- A negative keepLast counts as 0.
  abbrev pub truncate_session : ℕ → Text → ℕ → Session A → SessionManager A → SessionManager A
  truncate_session now key keep_last session sm =
      if leb keep_last 0
      then with_session sm key (record session { messages = []; updated = now })
      else if leb (length session.messages) keep_last
      then sm
      else with_session sm key
          (record session { messages = last_messages keep_last session.messages; updated = now })

  unfoldable pub truncate_history : ℕ → Text → ℕ → SessionManager A → SessionManager A
  truncate_history now key keep_last sm =
      if_found sm (λ session. truncate_session now key keep_last session sm) (get key sm.sessions)

  unfoldable pub set_history : ℕ → Text → List (Message A) → SessionManager A → SessionManager A
  set_history now key history sm =
      if_found sm
        (λ session. with_session sm key (record session { messages = history; updated = now }))
        (get key sm.sessions)

  abbrev pub session_info : Session A → SessionInfo
  session_info s = record {
    info_key = s.key;
    message_count = length s.messages;
    info_created = s.created;
    info_updated = s.updated;
    has_summary = not (is_empty s.summary);
  }

  abbrev pub session_infos : Dict Text (Session A) → List SessionInfo
  session_infos [] = []
  session_infos ((key, s) ∷ sessions) = session_info s ∷ session_infos sessions

  abbrev pub list_sessions : SessionManager A → List SessionInfo
  list_sessions sm = session_infos sm.sessions
