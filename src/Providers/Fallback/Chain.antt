-- ===== src/Providers/Fallback/Chain.antt =====
-- Execute of pkg/providers/fallback.go. The caller's `run` and the context are
-- parameters; `run` may also change the tracker, as a provider that rotates its keys does.
pub mod Coverage
pub mod Complete
pub mod Success
use aetherclaw.Common.{
  ℕ, Bool, true, false, not, Option, none, some, List, [], ◌∷◌, ◌++◌, if◌then◌else◌, ◌==◌, nat_key,
}
use aetherclaw.Common.Text.{Text, is_empty, to_lower}
use aetherclaw.Providers.Types.{
  FailoverReason, reason_key, rate_limit, format, GoError, error_text, FailoverError, is_retriable,
}
use aetherclaw.Providers.Cooldown.{
  CooldownTracker, is_available, cooldown_remaining, mark_failure, mark_success,
}
use aetherclaw.Providers.Classify.{
  classify_error, failover, is_image_dimension_error, is_image_size_error,
}
use aetherclaw.Providers.Fallback.Candidates.{FallbackCandidate}

-- The error that an attempt records.
pub data AttemptError : Type 0 where
  in_cooldown : Text → ℕ → AttemptError
  raised : GoError → AttemptError
  classified : FailoverError → AttemptError

-- No reason is the empty one.
pub record FallbackAttempt : Type 0 where
  pub provider : Text
  pub model : Text
  pub error : AttemptError
  pub reason : Option FailoverReason
  pub duration : ℕ
  pub skipped : Bool

module _ (Response World : Type 0) where
  pub record State : Type 0 where
    pub tracker : CooldownTracker
    pub world : World

  -- What `run` returns: a response or an error, and the time that it took.
  pub data Reply : Type 0 where
    responds : Response → ℕ → Reply
    errs : GoError → ℕ → Reply

  -- The tracker's nowFunc, the test ctx.Err() == context.Canceled, and the caller's `run`.
  pub record Env : Type 0 where
    pub now_func : World → ℕ × World
    pub is_canceled : World → Bool × World
    pub run : Text → Text → State → Reply × State

  pub record FallbackResult : Type 0 where
    pub response : Response
    pub provider : Text
    pub model : Text
    pub attempts : List FallbackAttempt

  pub data Outcome : Type 0 where
    success : FallbackResult → Outcome
    no_candidates : Outcome
    aborted : Outcome
    unclassified : Text → Text → GoError → Outcome
    refused : FailoverError → Outcome
    exhausted : List FallbackAttempt → Outcome

  -- What the body of the loop does: it returns, or goes on with these attempts.
  pub data Step : Type 0 where
    returns : Outcome → Step
    goes_on : List FallbackAttempt → Step

module _ {Response World : Type 0} (env : Env Response World) where
  pub now_of : State Response World → ℕ × State Response World
  now_of s = let (t, w) = env.now_func s.world in (t, record s { world = w })

  pub canceled_of : State Response World → Bool × State Response World
  canceled_of s = let (b, w) = env.is_canceled s.world in (b, record s { world = w })

  -- the branch of a candidate in cooldown
  pub skip_candidate :
      List FallbackAttempt
      → FallbackCandidate
      → State Response World
      → Step Response World × State Response World
  unfolding now_of
  skip_candidate attempts c s =
      let (now, s') = now_of s in
      let remaining = cooldown_remaining s'.tracker now c.provider in
      let attempt : FallbackAttempt = record {
        provider = c.provider;
        model = c.model;
        error = in_cooldown c.provider remaining;
        reason = some rate_limit;
        duration = 0;
        skipped = true;
      } in
      (goes_on (attempts ++ attempt ∷ []), s')

  -- a retriable error: the provider is marked, and the last candidate ends the chain
  pub record_failure :
      List FallbackAttempt
      → FallbackCandidate
      → Bool
      → FailoverError
      → ℕ
      → State Response World
      → Step Response World × State Response World
  unfolding now_of
  record_failure attempts c is_last fail_err elapsed s =
      let (now, s') = now_of s in
      let marked = record s' { tracker = mark_failure s'.tracker now c.provider fail_err.reason } in
      let attempt : FallbackAttempt = record {
        provider = c.provider;
        model = c.model;
        error = classified fail_err;
        reason = some fail_err.reason;
        duration = elapsed;
        skipped = false;
      } in
      let attempts' = attempts ++ attempt ∷ [] in
      (if is_last then returns (exhausted attempts') else goes_on attempts', marked)

  pub after_classify :
      List FallbackAttempt
      → FallbackCandidate
      → Bool
      → GoError
      → Option FailoverError
      → ℕ
      → State Response World
      → Step Response World × State Response World
  after_classify attempts c is_last err none elapsed s =
      (returns (unclassified c.provider c.model err), s)
  after_classify attempts c is_last err (some fail_err) elapsed s =
      if not (is_retriable fail_err)
      then (returns (refused fail_err), s)
      else record_failure attempts c is_last fail_err elapsed s

  pub after_run :
      List FallbackAttempt
      → FallbackCandidate
      → Bool
      → Reply Response World
      → State Response World
      → Step Response World × State Response World
  after_run attempts c is_last (responds resp elapsed) s =
      let result : FallbackResult Response World = record {
        response = resp;
        provider = c.provider;
        model = c.model;
        attempts = attempts;
      } in
      (returns (success result), record s { tracker = mark_success s.tracker c.provider })
  after_run attempts c is_last (errs err elapsed) s =
      let (canceled, s') = canceled_of s in
      if canceled
      then (returns aborted, s')
      else after_classify attempts c is_last err (classify_error (some err) c.provider c.model)
          elapsed s'

  -- the body of the loop of Execute
  pub try_candidate :
      List FallbackAttempt
      → FallbackCandidate
      → Bool
      → State Response World
      → Step Response World × State Response World
  try_candidate attempts c is_last s =
      let (canceled, s1) = canceled_of s in
      let (now, s2) = now_of s1 in
      let (reply, s3) = env.run c.provider c.model s2 in
      if canceled
      then (returns aborted, s1)
      else if not (is_available s2.tracker now c.provider)
      then skip_candidate attempts c s2
      else after_run attempts c is_last reply s3

  pub execute_loop :
      List FallbackAttempt
      → List FallbackCandidate
      → State Response World
      → Outcome Response World × State Response World
  execute_loop attempts [] s = (exhausted attempts, s)
  execute_loop attempts (c ∷ rest) s =
      let (step, s') = try_candidate attempts c (is_empty rest) s in
      elim step [
        | returns outcome ↦ (outcome, s')
        | goes_on attempts' ↦ execute_loop attempts' rest s'
      ]

  pub execute :
      List FallbackCandidate → State Response World → Outcome Response World × State Response World
  execute candidates s =
      if is_empty candidates then (no_candidates, s) else execute_loop [] candidates s
