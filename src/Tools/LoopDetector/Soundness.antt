-- ===== src/Tools/LoopDetector/Soundness.antt =====
-- The verdicts of detect (pkg/tools/loop_detector.go) and the history they rest on.
use aetherclaw.Common.{ℕ, ◌≤◌, ◌<◌, ◌≡◌, ◌⊎◌, true, false, nat_key}
use aetherclaw.Common.Text.{Text, text_key}
use aetherclaw.Tools.LoopDetector.{
  LoopDetectorConfig, History, LoopVerdict, blocked, warning, passed, circuit_breaker, repeated,
  possible_loop, ping_pong, possible_ping_pong, count_repeats, get_no_progress_streak,
  get_ping_pong_streak,
}
use aetherclaw.Tools.LoopDetector.Counts.{Occurs, Streak, PingPong, NoProgress, joined}

-- The engine of repeated calls is off, or the count is below its thresholds.
abbrev pub RepeatQuiet : LoopDetectorConfig → ℕ → Type 0
RepeatQuiet c repeats =
    (c.enable_generic_repeat ≡ false)
    ⊎ ((repeats < c.warning_threshold) × (repeats < c.critical_threshold))

-- The engine of ping-pong does not block.
abbrev pub PingPongOpen : LoopDetectorConfig → ℕ → History → Type 0
PingPongOpen c alternating h = (alternating < c.critical_threshold) ⊎ (NoProgress alternating h → ⊥)

-- What the verdict is for these three counts of the history: that of the first engine that finds
-- something.
abbrev pub Decided : LoopDetectorConfig → ℕ → ℕ → ℕ → History → LoopVerdict → Type 0
Decided c streak repeats alternating h (blocked circuit_breaker n) =
    (n ≡ streak) × (c.circuit_breaker_threshold ≤ streak)
Decided c streak repeats alternating h (blocked repeated n) =
    (streak < c.circuit_breaker_threshold)
    × (c.enable_generic_repeat ≡ true)
    × (n ≡ repeats)
    × (c.critical_threshold ≤ repeats)
Decided c streak repeats alternating h (warning possible_loop n) =
    (streak < c.circuit_breaker_threshold)
    × (c.enable_generic_repeat ≡ true)
    × (n ≡ repeats)
    × (c.warning_threshold ≤ repeats)
    × (repeats < c.critical_threshold)
Decided c streak repeats alternating h (blocked ping_pong n) =
    (streak < c.circuit_breaker_threshold)
    × RepeatQuiet c repeats
    × (c.enable_ping_pong ≡ true)
    × (n ≡ alternating)
    × (c.critical_threshold ≤ alternating)
    × NoProgress alternating h
Decided c streak repeats alternating h (warning possible_ping_pong n) =
    (streak < c.circuit_breaker_threshold)
    × RepeatQuiet c repeats
    × (c.enable_ping_pong ≡ true)
    × (n ≡ alternating)
    × (c.warning_threshold ≤ alternating)
    × PingPongOpen c alternating h
Decided c streak repeats alternating h passed =
    (streak < c.circuit_breaker_threshold)
    × RepeatQuiet c repeats
    × ((c.enable_ping_pong ≡ false)
        ⊎ ((alternating < c.warning_threshold) × PingPongOpen c alternating h))
Decided c streak repeats alternating h (blocked possible_loop n) = ⊥
Decided c streak repeats alternating h (blocked possible_ping_pong n) = ⊥
Decided c streak repeats alternating h (warning circuit_breaker n) = ⊥
Decided c streak repeats alternating h (warning repeated n) = ⊥
Decided c streak repeats alternating h (warning ping_pong n) = ⊥

-- A verdict with the counts that it rests on.
pub record Justified (c : LoopDetectorConfig) (tool args : Text) (h : History)
    (verdict : LoopVerdict) : Type 0 where
  pub streak : ℕ
  pub repeats : ℕ
  pub alternating : ℕ
  pub is_streak : Streak tool args streak h
  pub is_count : Occurs tool args repeats h
  pub is_alternation : PingPong (joined tool args) alternating h
  pub decided : Decided c streak repeats alternating h verdict

module _ (c : LoopDetectorConfig) (tool args : Text) (h : History) where
  abbrev DecidedHere : LoopVerdict → Type 0
  DecidedHere =
      Decided c (get_no_progress_streak tool args h) (count_repeats tool args h)
        (get_ping_pong_streak tool args h) h
