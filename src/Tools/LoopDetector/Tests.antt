-- ===== src/Tools/LoopDetector/Tests.antt =====
-- The detector with small thresholds and a hash that keeps the text.
use aetherclaw.Common.{◌≡◌, refl, true, none, some, [], ◌∷◌, arith, nat_key, length}
use aetherclaw.Common.Text.{Text, text_key, text_beq, codes}
use aetherclaw.Tools.LoopDetector.{
  LoopDetectorConfig, History, blocked, repeated, Hashing, before_execute, detect, detect_repeat,
  count_repeats, is_call, get_no_progress_streak, reference_hash,
}
use aetherclaw.Tools.LoopDetector.Repeats.{IsBlocked, repeat_call, repeat_call-IsBlocked}

abbrev plain : Hashing Text
plain = record { arg_count = length; marshal = some; digest = λ s. s }

abbrev small : LoopDetectorConfig
small = record {
  history_size = 3;
  warning_threshold = 1;
  critical_threshold = 2;
  circuit_breaker_threshold = 9;
  enable_generic_repeat = true;
  enable_ping_pong = true;
}

repeat_call-IsBlocked_example :
    IsBlocked
      (before_execute plain (codes "s") (codes "read") (codes "x") (
        repeat_call plain
          (codes "s")
          (codes "read")
          (codes "x")
          (none ∷ some (codes "ok") ∷ [])
          (record { config = small; sessions = [] }))).0
repeat_call-IsBlocked_example =
    repeat_call-IsBlocked plain (codes "s") (codes "read") (codes "x")
      (record { config = small; sessions = [] }) (none ∷ some (codes "ok") ∷ []) refl (omega arith)
      refl

abbrev two_reads : History
two_reads =
    record { tool_name = codes "read"; args_hash = codes "x"; result_hash = codes "1" }
    ∷ record { tool_name = codes "read"; args_hash = codes "x"; result_hash = codes "2" }
    ∷ []

two_reads_verdict : detect small (codes "read") (codes "x") two_reads ≡ blocked repeated 2
unfolding detect detect_repeat count_repeats is_call get_no_progress_streak reference_hash text_beq
two_reads_verdict = refl
