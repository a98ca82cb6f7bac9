-- ===== src/Multiagent/Announce.antt =====
-- pkg/multiagent/announce.go. The channel of a session is the list of what it holds, oldest first.
-- A delivery is one step; `now` is the answer of time.Now.
pub mod Newest
use aetherclaw.Common.{
  ℕ, zero, suc, Option, none, some, List, [], ◌∷◌, ◌++◌, ltb, if◌then◌else◌, nat_key, length, drop,
}
use aetherclaw.Common.Text.{Text, text_key, codes, is_empty}
use aetherclaw.Common.Dict.{Dict, get, put, remove}

-- `O` is the type of outcomes, which are only passed on.
pub record Announcement (O : Type 0) : Type 0 where
  pub from_session_key : Text
  pub to_session_key : Text
  pub run_id : Text
  pub agent_id : Text
  pub content : Text
  pub outcome : Option O
  pub mode : Text
  pub created_at : ℕ
  pub reply_to_channel : Text
  pub reply_to_thread : Text

abbrev pub announce_queue : Text
announce_queue = codes "queue"

abbrev pub announce_direct : Text
announce_direct = codes "direct"

pub record Announcer (O : Type 0) : Type 0 where
  pub channels : Dict Text (List (Announcement O))
  pub buf_size : ℕ

-- A negative size counts as 0.
abbrev pub size_or_default : ℕ → ℕ
size_or_default zero = 32
size_or_default (suc n) = suc n

module _ {O : Type 0} where
  unfoldable pub new_announcer : ℕ → Announcer O
  new_announcer buf_size = record { channels = []; buf_size = size_or_default buf_size }

  abbrev pub stamp : ℕ → Announcement O → Announcement O
  stamp now ann = record {
    from_session_key = ann.from_session_key;
    to_session_key = ann.to_session_key;
    run_id = ann.run_id;
    agent_id = ann.agent_id;
    content = ann.content;
    outcome = ann.outcome;
    mode = if is_empty ann.mode then announce_queue else ann.mode;
    created_at = now;
    reply_to_channel = ann.reply_to_channel;
    reply_to_thread = ann.reply_to_thread;
  }

  abbrev pub pending_of : Option (List (Announcement O)) → List (Announcement O)
  pending_of none = []
  pending_of (some ch) = ch

  -- getOrCreateChan
  unfoldable pub get_or_create_chan : Text → Announcer O → List (Announcement O)
  get_or_create_chan key a = pending_of (get key a.channels)

  -- the selects of Deliver: send; or else receive the oldest, and send again
  unfoldable pub send : ℕ → Announcement O → List (Announcement O) → List (Announcement O)
  send buf_size ann ch =
      let dropped = drop 1 ch in
      if ltb (length ch) buf_size
      then ch ++ ann ∷ []
      else if ltb (length dropped) buf_size
      then dropped ++ ann ∷ []
      else dropped

  unfoldable pub deliver : ℕ → Text → Announcement O → Announcer O → Announcer O
  deliver now target ann a = record {
    channels =
        put target (send a.buf_size (stamp now ann) (get_or_create_chan target a)) a.channels;
    buf_size = a.buf_size;
  }

  abbrev pub drain_found :
      Text → Announcer O → Option (List (Announcement O)) → List (Announcement O) × Announcer O
  drain_found key a none = ([], a)
  drain_found key a (some ch) =
      (ch, record { channels = put key [] a.channels; buf_size = a.buf_size })

  unfoldable pub drain : Text → Announcer O → List (Announcement O) × Announcer O
  drain key a = drain_found key a (get key a.channels)

  unfoldable pub pending : Text → Announcer O → ℕ
  pending key a = length (pending_of (get key a.channels))

  unfoldable pub cleanup : Text → Announcer O → Announcer O
  cleanup key a = record { channels = remove key a.channels; buf_size = a.buf_size }
