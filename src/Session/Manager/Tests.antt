-- ===== src/Session/Manager/Tests.antt =====
-- Two sessions whose files have one name (pkg/session/manager.go).
use aetherclaw.Common.{
  ℕ, ◌≡◌, refl, sym, ap, ◌∙◌, some_inj, Bool, true, none, some, List, [], ◌∷◌, if◌then◌else◌, ◌==◌,
  nat_key,
}
use aetherclaw.Common.Text.{Text, text_key, codes, text_beq}
use aetherclaw.Common.Dict.{Dict, get, put, NamedOnce}
use aetherclaw.Providers.ToolCall.{Message}
use aetherclaw.Session.Manager.{Session, SessionManager, Node, SessionJson}
use aetherclaw.Session.Manager.History.{
  KeyedCall, add_call, truncate_call, apply_calls, talk_of, talk_calls, apply_calls-talk,
}
use aetherclaw.Session.Manager.Files.{reloaded, save, load_sessions, ext, new_session_manager}
use aetherclaw.Session.Manager.Load.{session_name, FiledByKey}
use aetherclaw.Session.Manager.Restart.{save-restart}

abbrev said : Text → Message ℕ
said text = record { role = codes "user"; content = text; tool_calls = []; tool_call_id = [] }

abbrev no_sessions : SessionManager ℕ
no_sessions = record { sessions = []; storage = codes "sessions" }

abbrev calls : List (KeyedCall ℕ)
calls =
    record { session_key = codes "a"; now = 1; later = 2; call = add_call (said (codes "one")) }
    ∷ record { session_key = codes "b"; now = 3; later = 4; call = add_call (said (codes "two")) }
    ∷ record { session_key = codes "a"; now = 5; later = 6; call = add_call (said (codes "three")) }
    ∷ record { session_key = codes "a"; now = 7; later = 7; call = truncate_call 1 }
    ∷ []

apply_calls-talk_example :
    talk_of (codes "a") (apply_calls calls no_sessions)
    ≡ talk_calls (codes "a") calls (talk_of (codes "a") no_sessions)
apply_calls-talk_example = apply_calls-talk calls (codes "a") no_sessions

last_one_kept :
    talk_of (codes "a") (apply_calls calls no_sessions) ≡ some (said (codes "three") ∷ [], [])
unfolding get
last_one_kept = apply_calls-talk calls (codes "a") no_sessions ∙ kept
  where
    kept : talk_calls (codes "a") calls none ≡ some (said (codes "three") ∷ [], [])
    kept = unfold text_beq in refl

abbrev plain_json : SessionJson ℕ (Session ℕ)
plain_json = record { marshal = λ s. some s; unmarshal = λ s. some (reloaded s) }

-- a message of the assistant with a call
abbrev called : Message ℕ
called = record {
  role = codes "assistant";
  content = [];
  tool_calls =
      record {
        id = codes "1";
        type = codes "function";
        function =
            some (record { name = codes "list"; arguments = codes "{}"; thought_signature = [] });
        name = codes "list";
        arguments = some 0;
        thought_signature = codes "signed";
        extra_content = none;
      }
      ∷ [];
  tool_call_id = [];
}

abbrev session : Text → Session ℕ
session key = record {
  key = key;
  messages = said (codes "hello") ∷ called ∷ [];
  summary = [];
  created = 1;
  updated = 2;
}

abbrev colon : Session ℕ
colon = session (codes "a:b")

abbrev one_session : SessionManager ℕ
one_session = record { sessions = (codes "a:b", colon) ∷ []; storage = codes "sessions" }

abbrev all_local : Text → Bool
all_local filename = true

abbrev no_disk : Dict Text (Node (Session ℕ))
no_disk = []

abbrev saved : Dict Text (Node (Session ℕ))
saved = (save {E = ℕ} plain_json all_local [] (codes "a:b") one_session no_disk).1

save-restart_example :
    NamedOnce saved
    × FiledByKey plain_json saved
    × ((k : Text)
        → get k (new_session_manager plain_json (codes "sessions") (some saved)).sessions ≡ (
            if k == codes "a:b"
            then some (reloaded colon)
            else if session_name (codes "a:b") == session_name k
            then none
            else get k (new_session_manager plain_json (codes "sessions") (some no_disk)).sessions))
unfolding save get text_beq
save-restart_example =
    save-restart plain_json {E = ℕ} all_local [] one_session no_disk colon
      (λ bytes e. ap (λ s. some (reloaded s)) (sym (some_inj e))) tt tt refl refl refl

-- The second save replaces the file of the first.
first_lost :
    get
      (codes "a:b")
      (new_session_manager plain_json (codes "sessions") (
        some
          (save {E = ℕ} plain_json all_local []
            (codes "a_b")
            (record {
              sessions = (codes "a_b", session (codes "a_b")) ∷ [];
              storage = codes "sessions";
            })
            saved).1)).sessions
    ≡ none
unfolding save get text_beq put new_session_manager load_sessions ext
first_lost = refl
