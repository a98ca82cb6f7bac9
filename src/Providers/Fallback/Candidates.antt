-- ===== src/Providers/Fallback/Candidates.antt =====
-- ResolveCandidatesWithLookup of pkg/providers/fallback.go, and ModelConfig of types.go.
pub mod Distinct
use aetherclaw.Common.{
  Bool, true, false, Option, none, some, List, [], ◌∷◌, ◌++◌, if◌then◌else◌, nat_key,
}
use aetherclaw.Common.Text.{Text, text_key, trim_space}
use aetherclaw.Common.Dict.{Dict, get, put}
use aetherclaw.Providers.ModelRef.{ModelRef, parse_model_ref, model_key}

pub record ModelConfig : Type 0 where
  pub primary : Text
  pub fallbacks : List Text

pub record FallbackCandidate : Type 0 where
  pub provider : Text
  pub model : Text

-- the variables of ResolveCandidatesWithLookup: the keys that are `seen`, and the candidates
pub record Resolving : Type 0 where
  pub seen : Dict Text Bool
  pub candidates : List FallbackCandidate

-- candidateRaw: `lookup` is nil where it is `none`, and an answer `none` of it has ok = false
pub candidate_raw : Option (Text → Option Text) → Text → Text
candidate_raw none raw = trim_space raw
candidate_raw (some lookup) raw = elim (lookup (trim_space raw)) [
  | none ↦ trim_space raw
  | some resolved ↦ resolved
]

-- seen[key]
abbrev pub is_seen : Text → Dict Text Bool → Bool
is_seen key seen = elim (get key seen) [ none ↦ false | some b ↦ b ]

pub add_candidate_ref : Resolving → Option ModelRef → Resolving
add_candidate_ref r none = r
add_candidate_ref r (some ref) =
    let key = model_key ref.provider ref.model in
    if is_seen key r.seen then r else record {
      seen = put key true r.seen;
      candidates = r.candidates ++ record { provider = ref.provider; model = ref.model } ∷ [];
    }

pub add_candidate : Option (Text → Option Text) → Text → Resolving → Text → Resolving
unfolding candidate_raw add_candidate_ref
add_candidate lookup default_provider r raw =
    add_candidate_ref r (parse_model_ref (candidate_raw lookup raw) default_provider)

pub add_candidates : Option (Text → Option Text) → Text → Resolving → List Text → Resolving
unfolding add_candidate
add_candidates lookup default_provider r [] = r
add_candidates lookup default_provider r (raw ∷ raws) =
    add_candidates lookup default_provider (add_candidate lookup default_provider r raw) raws

pub resolve_candidates_with_lookup :
    ModelConfig → Text → Option (Text → Option Text) → List FallbackCandidate
unfolding add_candidates
resolve_candidates_with_lookup cfg default_provider lookup =
    (add_candidates lookup default_provider
      (add_candidate lookup default_provider (record { seen = []; candidates = [] }) cfg.primary)
      cfg.fallbacks).candidates

pub resolve_candidates : ModelConfig → Text → List FallbackCandidate
resolve_candidates cfg default_provider = resolve_candidates_with_lookup cfg default_provider none
