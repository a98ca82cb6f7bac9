-- ===== src/Providers/Fallback/Image.antt =====
-- ExecuteImage of pkg/providers/fallback.go, over the environment of Execute.
use aetherclaw.Common.{ℕ, Bool, false, ◌||◌, none, List, [], ◌∷◌, ◌++◌, if◌then◌else◌, nat_key}
use aetherclaw.Common.Text.{is_empty, to_lower}
use aetherclaw.Providers.Types.{format, GoError, error_text}
use aetherclaw.Providers.Classify.{failover, is_image_dimension_error, is_image_size_error}
use aetherclaw.Providers.Fallback.Candidates.{FallbackCandidate}
use aetherclaw.Providers.Fallback.Chain.{
  raised, FallbackAttempt, State, Reply, responds, errs, Env, FallbackResult, Outcome, success,
  no_candidates, aborted, refused, exhausted, Step, returns, goes_on, canceled_of,
}

module _ {Response World : Type 0} (env : Env Response World) where
  -- ExecuteImage, after an error of `run` that is no cancellation
  pub after_image_error :
      List FallbackAttempt → FallbackCandidate → Bool → GoError → ℕ → Step Response World
  after_image_error attempts c is_last err elapsed =
      let err_msg = to_lower (error_text err) in
      let attempt : FallbackAttempt = record {
        provider = c.provider;
        model = c.model;
        error = raised err;
        reason = none;
        duration = elapsed;
        skipped = false;
      } in
      let attempts' = attempts ++ attempt ∷ [] in
      if is_image_dimension_error err_msg || is_image_size_error err_msg
      then returns (refused (failover format c.provider c.model 0 err))
      else if is_last
      then returns (exhausted attempts')
      else goes_on attempts'

  pub after_image_run :
      List FallbackAttempt
      → FallbackCandidate
      → Bool
      → Reply Response World
      → State Response World
      → Step Response World × State Response World
  after_image_run attempts c is_last (responds resp elapsed) s =
      let result : FallbackResult Response World = record {
        response = resp;
        provider = c.provider;
        model = c.model;
        attempts = attempts;
      } in
      (returns (success result), s)
  after_image_run attempts c is_last (errs err elapsed) s =
      let (canceled, s') = canceled_of env s in
      if canceled
      then (returns aborted, s')
      else (after_image_error attempts c is_last err elapsed, s')

  -- the body of the loop of ExecuteImage
  pub try_image :
      List FallbackAttempt
      → FallbackCandidate
      → Bool
      → State Response World
      → Step Response World × State Response World
  try_image attempts c is_last s =
      let (canceled, s1) = canceled_of env s in
      let (reply, s2) = env.run c.provider c.model s1 in
      if canceled then (returns aborted, s1) else after_image_run attempts c is_last reply s2

  pub execute_image_loop :
      List FallbackAttempt
      → List FallbackCandidate
      → State Response World
      → Outcome Response World × State Response World
  execute_image_loop attempts [] s = (exhausted attempts, s)
  execute_image_loop attempts (c ∷ rest) s =
      let (step, s') = try_image attempts c (is_empty rest) s in
      elim step [
        | returns outcome ↦ (outcome, s')
        | goes_on attempts' ↦ execute_image_loop attempts' rest s'
      ]

  pub execute_image :
      List FallbackCandidate → State Response World → Outcome Response World × State Response World
  execute_image candidates s =
      if is_empty candidates then (no_candidates, s) else execute_image_loop [] candidates s
