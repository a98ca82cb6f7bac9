-- ===== src/Providers/Fallback/Tests.antt =====
-- The fallback chain at concrete candidates.
use aetherclaw.Common.{ℕ, ◌+◌, ◌≡◌, false, none, List, [], ◌∷◌, if◌then◌else◌, ◌==◌, nat_key}
use aetherclaw.Common.Text.{text_key, codes}
use aetherclaw.Providers.Types.{failed}
use aetherclaw.Providers.Cooldown.{new_cooldown_tracker}
use aetherclaw.Providers.Fallback.Candidates.{
  ModelConfig, FallbackCandidate, resolve_candidates_with_lookup,
}
use aetherclaw.Providers.Fallback.Candidates.Distinct.{
  first_of_each, parsed, resolve_candidates-first_of_each,
}
use aetherclaw.Providers.Fallback.Chain.{State, Env, responds, errs, execute}
use aetherclaw.Providers.Fallback.Chain.Complete.{Covers, execute-Covers}
use aetherclaw.Providers.Fallback.Chain.Success.{Cleared, execute-Cleared}

abbrev two_of_one_key : ModelConfig
two_of_one_key = record {
  primary = codes "gpt/o1";
  fallbacks = codes "openai/O1" ∷ codes "claude/opus" ∷ codes "  " ∷ [];
}

resolve_candidates-first_of_each_example :
    resolve_candidates_with_lookup two_of_one_key (codes "openai") none
    ≡ first_of_each
        (parsed none (codes "openai") (two_of_one_key.primary ∷ two_of_one_key.fallbacks))
resolve_candidates-first_of_each_example =
    resolve_candidates-first_of_each two_of_one_key (codes "openai") none

-- A clock that ticks, a context that stays, and a caller that is answered at the second call.
abbrev second_answers : Env ℕ ℕ
second_answers = record {
  now_func = λ w. (w, w + 1);
  is_canceled = λ w. (false, w);
  run = λ p m s.
      (if s.world == 1 then errs (failed (codes "429 too many requests")) 5 else responds 7 3, s);
}

abbrev start : State ℕ ℕ
start = record { tracker = new_cooldown_tracker; world = 0 }

abbrev two_models : List FallbackCandidate
two_models =
    record { provider = codes "openai"; model = codes "o1" }
    ∷ record { provider = codes "anthropic"; model = codes "opus" }
    ∷ []

execute-Covers_example :
    Covers second_answers two_models start
      (execute second_answers two_models start).0
      (execute second_answers two_models start).1
execute-Covers_example = execute-Covers second_answers two_models start

execute-Cleared_example :
    Cleared (execute second_answers two_models start).0 (execute second_answers two_models start).1
execute-Cleared_example = execute-Cleared second_answers two_models start
