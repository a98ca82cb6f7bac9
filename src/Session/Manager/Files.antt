-- ===== src/Session/Manager/Files.antt =====
-- pkg/session/manager.go: sanitizeFilename, Save, loadSessions, NewSessionManager.
use aetherclaw.Common.{
  Bool, false, ◌||◌, not, Option, none, some, List, [], ◌∷◌, ◌++◌, map, nat_beq, if◌then◌else◌,
  ◌==◌, nat_key,
}
use aetherclaw.Common.Text.{Text, text_key, codes, is_empty}
use aetherclaw.Common.Dict.{Dict, get, put}
use aetherclaw.Providers.ToolCall.{ToolCall, Message}
use aetherclaw.Session.Manager.{
  Session, SessionManager, Node, directory, unreadable, file, SessionJson,
}

-- strings.ReplaceAll(key, ":", "_")
abbrev pub sanitize_filename : Text → Text
sanitize_filename = map (λ c. if nat_beq c b':' then b'_' else c)

-- strings.ContainsAny(filename, `/\`)
abbrev pub has_separator : Text → Bool
has_separator [] = false
has_separator (c ∷ s) = nat_beq c b'/' || nat_beq c b'\\' || has_separator s

abbrev pub session_file : Text → Text
session_file filename = filename ++ codes ".json"

-- filepath.Ext of a name without separators
unfoldable pub ext : Text → Text
ext [] = []
ext (c ∷ name) =
    let rest = ext name in if is_empty rest then (if nat_beq c b'.' then c ∷ name else []) else rest

pub data SaveError (E : Type 0) : Type 0 where
  invalid : SaveError E
  not_marshalled : SaveError E
  failed : E → SaveError E

-- The errors of CreateTemp, Write, Chmod, Sync, Close and Rename, in this order.
abbrev pub first_error : {E : Type 0} → List (Option E) → Option E
first_error [] = none
first_error (none ∷ steps) = first_error steps
first_error (some e ∷ steps) = some e

abbrev pub session_snapshot : {A : Type 0} → Session A → Session A
session_snapshot stored = record {
  key = stored.key;
  messages = stored.messages;
  summary = stored.summary;
  created = stored.created;
  updated = stored.updated;
}

-- What JSON keeps of a call: Name, Arguments and ThoughtSignature have the tag `json:"-"`.
abbrev pub reloaded_call : {A : Type 0} → ToolCall A → ToolCall A
reloaded_call tc = record tc { name = []; arguments = none; thought_signature = [] }

abbrev pub reloaded_message : {A : Type 0} → Message A → Message A
reloaded_message m = record m { tool_calls = map reloaded_call m.tool_calls }

abbrev pub reloaded : {A : Type 0} → Session A → Session A
reloaded s = record s { messages = map reloaded_message s.messages }

module _ {A B E : Type 0} (json : SessionJson A B) where
  -- the temporary file is gone in each case: renamed, or removed
  abbrev pub write_file :
      Text → Dict Text (Node B) → Option E → B → Option (SaveError E) × Dict Text (Node B)
  write_file filename disk none bytes = (none, put (session_file filename) (file bytes) disk)
  write_file filename disk (some e) bytes = (some (failed e), disk)

  abbrev pub save_marshalled :
      Text
      → List (Option E)
      → Dict Text (Node B)
      → Option B
      → Option (SaveError E) × Dict Text (Node B)
  save_marshalled filename steps disk none = (some not_marshalled, disk)
  save_marshalled filename steps disk (some bytes) =
      write_file filename disk (first_error steps) bytes

  abbrev pub save_stored :
      Text
      → List (Option E)
      → Dict Text (Node B)
      → Option (Session A)
      → Option (SaveError E) × Dict Text (Node B)
  save_stored filename steps disk none = (none, disk)
  save_stored filename steps disk (some stored) =
      save_marshalled filename steps disk (json.marshal (session_snapshot stored))

  -- `steps` says how the calls of package os end, in their order.
  unfoldable pub save :
      (Text → Bool)
      → List (Option E)
      → Text
      → SessionManager A
      → Dict Text (Node B)
      → Option (SaveError E) × Dict Text (Node B)
  save is_local steps key sm disk =
      let filename = sanitize_filename key in
      if is_empty sm.storage
      then (none, disk)
      else if filename == codes "." || not (is_local filename) || has_separator filename
      then (some invalid, disk)
      else save_stored filename steps disk (get key sm.sessions)

module _ {A B : Type 0} (json : SessionJson A B) where
  -- what the loop of loadSessions reads from an entry of the directory
  abbrev pub read_node : Node B → Option (Session A)
  read_node directory = none
  read_node unreadable = none
  read_node (file bytes) = json.unmarshal bytes

  abbrev pub read_entry : Text → Node B → Option (Session A)
  read_entry name node = if ext name == codes ".json" then read_node node else none

  abbrev pub load_session : Option (Session A) → Dict Text (Session A) → Dict Text (Session A)
  load_session none sessions = sessions
  load_session (some session) sessions = put session.key session sessions

  unfoldable pub load_sessions : Dict Text (Node B) → Dict Text (Session A) → Dict Text (Session A)
  load_sessions [] sessions = sessions
  load_sessions ((name, node) ∷ files) sessions =
      load_sessions files (load_session (read_entry name node) sessions)

  -- with the directory as it is found; `none` if it cannot be listed
  unfoldable pub new_session_manager : Text → Option (Dict Text (Node B)) → SessionManager A
  new_session_manager storage none = record { sessions = []; storage = storage }
  new_session_manager storage (some disk) = record {
    sessions = if is_empty storage then [] else load_sessions disk [];
    storage = storage;
  }
