-- ===== src/Providers/ModelRef/Tests.antt =====
-- Model references at concrete inputs.
use aetherclaw.Common.{◌≡◌, refl, some, nat_key}
use aetherclaw.Common.Text.{
  text_key, codes, text_beq, trim_space, trim_left, trim_right, is_space, lower, index,
}
use aetherclaw.Providers.ModelRef.{
  ModelRef, parse_model_ref, split_model_ref, normalize_provider, switch,
}

abbrev claude_ref : ModelRef
claude_ref = record { provider = codes "anthropic"; model = codes "opus" }

parse_claude : parse_model_ref (codes " Claude/ opus ") (codes "openai") ≡ some claude_ref
unfolding parse_model_ref split_model_ref normalize_provider switch trim_space trim_left trim_right
    is_space text_beq lower index
parse_claude = refl
