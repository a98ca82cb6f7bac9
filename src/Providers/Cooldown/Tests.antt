-- ===== src/Providers/Cooldown/Tests.antt =====
-- The cooldown tracker at concrete calls.
use aetherclaw.Common.{◌+◌, ◌≡◌, refl, ◌≢◌, true, arith, leb, nat_key}
use aetherclaw.Common.Text.{Text, text_key, codes, text_beq, text_beq_iff}
use aetherclaw.Common.Dict.{get, put}
use aetherclaw.Providers.Types.{reason_key, reason_beq, rate_limit}
use aetherclaw.Providers.Cooldown.{
  CooldownTracker, new_cooldown_tracker, mark_failure, mark_success, fail_entry, is_available,
  cooldown_remaining, entry_remaining, error_count, calculate_standard_cooldown, failure_count,
  get_or_create,
}
use aetherclaw.Providers.Cooldown.Availability.{
  minute, is_available-cooldown_remaining, mark_success_clears,
}

abbrev openai : Text
openai = codes "openai"

abbrev gemini : Text
gemini = codes "gemini"

-- One rate limit at time 0.
abbrev failed_once : CooldownTracker
failed_once = mark_failure new_cooldown_tracker 0 openai rate_limit

failed_once_waits : cooldown_remaining failed_once 0 openai ≡ minute
unfolding mark_failure new_cooldown_tracker fail_entry get_or_create cooldown_remaining
    entry_remaining calculate_standard_cooldown get put text_beq reason_beq
failed_once_waits = refl

is_available-cooldown_remaining_example :
    is_available failed_once minute openai
    ≡ leb (0 + cooldown_remaining failed_once 0 openai) minute
is_available-cooldown_remaining_example =
    is_available-cooldown_remaining failed_once openai 0 minute (omega arith)

openai-ne-gemini : openai ≢ gemini
unfolding text_beq
openai-ne-gemini e = cc ((text_beq_iff openai gemini).1 e)

mark_success_clears_example :
    (is_available (mark_success failed_once openai) 0 openai ≡ true)
    × (cooldown_remaining (mark_success failed_once openai) 0 openai ≡ 0)
    × (error_count (mark_success failed_once openai) openai ≡ 0)
    × (failure_count (mark_success failed_once openai) openai rate_limit ≡ 0)
mark_success_clears_example = mark_success_clears failed_once openai 0 rate_limit
