-- ===== src/Providers/ModelRef.antt =====
-- pkg/providers/model_ref.go.
pub mod Provider
pub mod RoundTrip
mod Tests
use aetherclaw.Common.{
  ℕ, suc, Option, none, some, List, [], ◌∷◌, ◌++◌, ltb, if◌then◌else◌, ◌==◌, nat_key, take, drop,
}
use aetherclaw.Common.Text.{Text, text_key, codes, is_empty, to_lower, trim_space, index}

pub record ModelRef : Type 0 where
  pub provider : Text
  pub model : Text

-- the cases of the switch of NormalizeProvider
abbrev pub provider_aliases : List (Text × Text)
provider_aliases =
    (codes "z.ai", codes "zai")
    ∷ (codes "z-ai", codes "zai")
    ∷ (codes "opencode-zen", codes "opencode")
    ∷ (codes "qwen", codes "qwen-portal")
    ∷ (codes "kimi-code", codes "kimi-coding")
    ∷ (codes "gpt", codes "openai")
    ∷ (codes "claude", codes "anthropic")
    ∷ (codes "glm", codes "zhipu")
    ∷ (codes "google", codes "gemini")
    ∷ []

-- the switch over such cases, tried in turn
pub switch : List (Text × Text) → Text → Text
switch [] p = p
switch ((k, v) ∷ cases) p = if p == k then v else switch cases p

pub normalize_provider : Text → Text
normalize_provider provider = switch provider_aliases (to_lower (trim_space provider))

-- the reference with a slash at `idx`
pub split_model_ref : Text → ℕ → Option ModelRef
split_model_ref raw idx =
    let provider = normalize_provider (take idx raw) in
    let model = trim_space (drop (suc idx) raw) in
    if is_empty model then none else some (record { provider = provider; model = model })

pub bare_model_ref : Text → Text → ModelRef
bare_model_ref raw default_provider = record {
  provider = normalize_provider default_provider;
  model = raw;
}

pub parse_trimmed : Text → Text → Option ModelRef
unfolding split_model_ref bare_model_ref
parse_trimmed raw default_provider = if is_empty raw then none else elim (index b'/' raw) [
  | none ↦ some (bare_model_ref raw default_provider)
  | some idx ↦
      if ltb 0 idx then split_model_ref raw idx else some (bare_model_ref raw default_provider)
]

pub parse_model_ref : Text → Text → Option ModelRef
unfolding parse_trimmed
parse_model_ref raw default_provider = parse_trimmed (trim_space raw) default_provider

pub model_key : Text → Text → Text
model_key provider model = normalize_provider provider ++ (codes "/" ++ to_lower (trim_space model))
