-- ===== src/Tools/LoopDetector.antt =====
-- pkg/tools/loop_detector.go. A history is kept with the newest record first, so the loops that
-- walk back from its end are recursions on the list. Timestamps are never read and left out.
pub mod Bounds
pub mod Repeats
pub mod Counts
pub mod Counted
pub mod Soundness
pub mod Isolation
mod Tests
use aetherclaw.Common.{
  ℕ, zero, suc, ◌+◌, Bool, true, false, ◌&&◌, ◌||◌, not, Option, none, some, List, [], ◌∷◌, ◌++◌,
  ltb, leb, nat_beq, if◌then◌else◌, ◌==◌, nat_key, length, take,
}
use aetherclaw.Common.Text.{Text, text_key, codes, is_empty}
use aetherclaw.Common.Dict.{Dict, get, put, remove}

-- A negative size or threshold counts as 0.
pub record LoopDetectorConfig : Type 0 where
  pub history_size : ℕ
  pub warning_threshold : ℕ
  pub critical_threshold : ℕ
  pub circuit_breaker_threshold : ℕ
  pub enable_generic_repeat : Bool
  pub enable_ping_pong : Bool

abbrev pub default_loop_detector_config : LoopDetectorConfig
default_loop_detector_config = record {
  history_size = 30;
  warning_threshold = 10;
  critical_threshold = 20;
  circuit_breaker_threshold = 30;
  enable_generic_repeat = true;
  enable_ping_pong = true;
}

pub data Reason : Type 0 where
  circuit_breaker repeated possible_loop ping_pong possible_ping_pong : Reason

pub data LoopVerdict : Type 0 where
  passed : LoopVerdict
  warning : Reason → ℕ → LoopVerdict
  blocked : Reason → ℕ → LoopVerdict

pub record ToolCallRecord : Type 0 where
  pub tool_name : Text
  pub args_hash : Text
  pub result_hash : Text

abbrev pub History : Type 0
History = List ToolCallRecord

pub record LoopDetector : Type 0 where
  pub config : LoopDetectorConfig
  pub sessions : Dict Text History

abbrev pub positive_or : ℕ → ℕ → ℕ
positive_or d zero = d
positive_or d (suc n) = suc n

unfoldable pub new_loop_detector : LoopDetectorConfig → LoopDetector
new_loop_detector c = record {
  config = record {
    history_size = positive_or default_loop_detector_config.history_size c.history_size;
    warning_threshold =
        positive_or default_loop_detector_config.warning_threshold c.warning_threshold;
    critical_threshold =
        positive_or default_loop_detector_config.critical_threshold c.critical_threshold;
    circuit_breaker_threshold =
        positive_or default_loop_detector_config.circuit_breaker_threshold
          c.circuit_breaker_threshold;
    enable_generic_repeat = c.enable_generic_repeat;
    enable_ping_pong = c.enable_ping_pong;
  };
  sessions = [];
}

abbrev pub history_or_empty : Option History → History
history_or_empty none = []
history_or_empty (some h) = h

-- getSession, without the entry that it adds
unfoldable pub get_session : Text → LoopDetector → History
get_session key d = history_or_empty (get key d.sessions)

abbrev pub set_session : Text → History → LoopDetector → LoopDetector
set_session key h d = record { config = d.config; sessions = put key h d.sessions }

-- rec.ToolName == toolName && rec.ArgsHash == argsHash
unfoldable pub is_call : Text → Text → ToolCallRecord → Bool
is_call tool args r = r.tool_name == tool && r.args_hash == args

unfoldable pub count_repeats : Text → Text → History → ℕ
count_repeats tool args [] = 0
count_repeats tool args (r ∷ h) =
    let rest = count_repeats tool args h in if is_call tool args r then suc rest else rest

-- toolName + ":" + argsHash
abbrev pub signature : Text → Text → Text
signature tool args = tool ++ b':' ∷ args

abbrev pub record_signature : ToolCallRecord → Text
record_signature r = signature r.tool_name r.args_hash

-- the records that alternate, from the one that should have the first signature
unfoldable pub alternation : Text → Text → History → ℕ
alternation expected other [] = 0
alternation expected other (r ∷ h) =
    let rest = alternation other expected h in
    if record_signature r == expected then suc rest else 0

unfoldable pub get_ping_pong_streak : Text → Text → History → ℕ
unfolding alternation
get_ping_pong_streak tool args [] = 0
get_ping_pong_streak tool args (r ∷ []) = 0
get_ping_pong_streak tool args (r ∷ s ∷ h) =
    if signature tool args == record_signature r
    then 0
    else suc (alternation (signature tool args) (record_signature r) (s ∷ h))

-- the result of the newest call that has one; empty when there is none
unfoldable pub reference_hash : Text → Text → History → Text
reference_hash tool args [] = []
reference_hash tool args (r ∷ h) =
    if is_call tool args r && not (is_empty r.result_hash)
    then r.result_hash
    else reference_hash tool args h

unfoldable pub streak_of : Text → Text → Text → History → ℕ
streak_of reference tool args [] = 0
streak_of reference tool args (r ∷ h) =
    let rest = streak_of reference tool args h in
    if not (is_call tool args r)
    then 0
    else if is_empty r.result_hash
    then suc rest
    else if r.result_hash == reference
    then suc rest
    else 0

unfoldable pub get_no_progress_streak : Text → Text → History → ℕ
unfolding streak_of reference_hash
get_no_progress_streak tool args h =
    let reference = reference_hash tool args h in
    if is_empty reference then 0 else streak_of reference tool args h

unfoldable pub has_ping_pong_no_progress : ℕ → History → Bool
has_ping_pong_no_progress streak [] = false
has_ping_pong_no_progress streak (r0 ∷ []) = false
has_ping_pong_no_progress streak (r0 ∷ r1 ∷ []) = false
has_ping_pong_no_progress streak (r0 ∷ r1 ∷ r2 ∷ []) = false
has_ping_pong_no_progress streak (r0 ∷ r1 ∷ r2 ∷ r3 ∷ h) =
    if ltb streak 4
    then false
    else if (is_empty r3.result_hash || is_empty r2.result_hash)
        || (is_empty r1.result_hash || is_empty r0.result_hash)
    then false
    else r3.result_hash == r1.result_hash && r2.result_hash == r0.result_hash

-- The three engines of detect, each with what the next one finds.
unfoldable pub detect_ping_pong : LoopDetectorConfig → Text → Text → History → LoopVerdict
detect_ping_pong c tool args h =
    let streak = get_ping_pong_streak tool args h in
    if not c.enable_ping_pong
    then passed
    else if leb c.critical_threshold streak && has_ping_pong_no_progress streak h
    then blocked ping_pong streak
    else if leb c.warning_threshold streak
    then warning possible_ping_pong streak
    else passed

unfoldable pub detect_repeat : LoopDetectorConfig → Text → Text → History → LoopVerdict
unfolding detect_ping_pong
detect_repeat c tool args h =
    let count = count_repeats tool args h in
    let rest = detect_ping_pong c tool args h in
    if not c.enable_generic_repeat
    then rest
    else if leb c.critical_threshold count
    then blocked repeated count
    else if leb c.warning_threshold count
    then warning possible_loop count
    else rest

unfoldable pub detect : LoopDetectorConfig → Text → Text → History → LoopVerdict
unfolding detect_repeat
detect c tool args h =
    let streak = get_no_progress_streak tool args h in
    if leb c.circuit_breaker_threshold streak
    then blocked circuit_breaker streak
    else detect_repeat c tool args h

-- the newest record of the call without a result gets it
unfoldable pub fill_result : Text → Text → Text → History → History
fill_result result tool args [] = []
fill_result result tool args (r ∷ h) =
    let rest = fill_result result tool args h in
    if is_call tool args r && is_empty r.result_hash
    then (record { tool_name = r.tool_name; args_hash = r.args_hash; result_hash = result }) ∷ h
    else r ∷ rest

-- What the program takes of encoding/json and crypto/sha256: the number of arguments, their
-- JSON text (`none` is an error), and the first 16 hex digits of the digest of a text.
pub record Hashing (A : Type 0) : Type 0 where
  pub arg_count : A → ℕ
  pub marshal : A → Option Text
  pub digest : Text → Text

module _ {A : Type 0} (hashing : Hashing A) where
  unfoldable pub hash_args : A → Text
  hash_args args =
      if nat_beq (hashing.arg_count args) 0
      then codes "empty"
      else elim (hashing.marshal args) [ none ↦ codes "error" | some s ↦ hashing.digest s ]

  -- the argument is the result's ForLLM; `none` is nil
  unfoldable pub hash_result : Option Text → Text
  hash_result none = codes "nil"
  hash_result (some content) =
      hashing.digest (if ltb 1024 (length content) then take 1024 content else content)

  unfoldable pub before_execute : Text → Text → A → LoopDetector → LoopVerdict × LoopDetector
  before_execute session tool args d =
      let args_hash = hash_args args in
      let h = get_session session d in
      let added : History =
        record { tool_name = tool; args_hash = args_hash; result_hash = [] } ∷ h in
      let trimmed =
        if ltb d.config.history_size (length added)
        then take d.config.history_size added
        else added in
      (detect d.config tool args_hash h, set_session session trimmed d)

  unfoldable pub after_execute : Text → Text → A → Option Text → LoopDetector → LoopDetector
  unfolding fill_result
  after_execute session tool args result d =
      set_session session
        (fill_result (hash_result result) tool (hash_args args) (get_session session d)) d

unfoldable pub reset_session : Text → LoopDetector → LoopDetector
reset_session key d = record { config = d.config; sessions = remove key d.sessions }
