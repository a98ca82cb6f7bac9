-- ===== src/Providers/Fallback/Chain/Success.antt =====
-- What Execute of fallback.go leaves in the tracker on a success.
use aetherclaw.Common.{
  ℕ, ◌≡◌, inl, inr, Bool, true, false, not, Option, none, some, List, [], ◌∷◌, if◌then◌else◌,
  nat_key, Bool-cases,
}
use aetherclaw.Common.Text.{is_empty}
use aetherclaw.Providers.Types.{FailoverReason, GoError, FailoverError, is_retriable}
use aetherclaw.Providers.Cooldown.{is_available, error_count, cooldown_remaining}
use aetherclaw.Providers.Cooldown.Availability.{mark_success_clears}
use aetherclaw.Providers.Fallback.Candidates.{FallbackCandidate}
use aetherclaw.Providers.Fallback.Chain.{
  FallbackAttempt, State, Reply, responds, errs, Env, Outcome, success, Step, returns, goes_on,
  canceled_of, now_of, skip_candidate, record_failure, after_classify, after_run, try_candidate,
  execute_loop, execute,
}

module _ {Response World : Type 0} where
  -- After a success the tracker has nothing against the provider that answered.
  abbrev pub Cleared : Outcome Response World → State Response World → Type 0
  Cleared (success r) s =
      (now : ℕ)
      → (is_available s.tracker now r.provider ≡ true)
        × (cooldown_remaining s.tracker now r.provider ≡ 0)
        × (error_count s.tracker r.provider ≡ 0)
  Cleared _ s = Unit

  abbrev StepCleared : Step Response World → State Response World → Type 0
  StepCleared (returns o) s = Cleared o s
  StepCleared (goes_on xs) s = Unit

module _ {Response World : Type 0} (env : Env Response World) where
  after_classify-StepCleared :
      (xs : List FallbackAttempt) (c : FallbackCandidate) (is_last : Bool) (err : GoError)
      (o : Option FailoverError) (elapsed : ℕ) (s : State Response World)
      → let (step, s') = after_classify env xs c is_last err o elapsed s in StepCleared step s'
  unfolding after_classify record_failure
  after_classify-StepCleared xs c is_last err none elapsed s = tt
  after_classify-StepCleared xs c is_last err (some f) elapsed s =
      elim (Bool-cases (is_retriable f)) [
        | inl q ↦ rw (q, after_classify) (last is_last)
        | inr q ↦ rw (q, after_classify) tt
      ]
    where
      last :
          (b : Bool) → let (step, s') = record_failure env xs c b f elapsed s in StepCleared step s'
      last true = tt
      last false = tt

  after_run-StepCleared :
      (xs : List FallbackAttempt) (c : FallbackCandidate) (is_last : Bool)
      (reply : Reply Response World) (s : State Response World)
      → let (step, s') = after_run env xs c is_last reply s in StepCleared step s'
  unfolding after_run
  after_run-StepCleared xs c is_last (responds resp elapsed) s = λ now.
      let (a, r, e, _) = mark_success_clears s.tracker c.provider now FailoverReason.auth in
      (a, r, e)
  after_run-StepCleared xs c is_last (errs err elapsed) s =
      elim (Bool-cases (canceled_of env s).0) [
        | inl q ↦ rw (q, after_run) tt
        | inr q ↦
            rw (q, after_run)
              (after_classify-StepCleared xs c is_last err _ elapsed (canceled_of env s).1)
      ]

  try_candidate-StepCleared :
      (xs : List FallbackAttempt) (c : FallbackCandidate) (is_last : Bool)
      (s : State Response World)
      → let (step, s') = try_candidate env xs c is_last s in StepCleared step s'
  unfolding try_candidate
  try_candidate-StepCleared xs c is_last s = elim (Bool-cases (canceled_of env s).0) [
    | inl q ↦ rw (q, try_candidate) tt
    | inr q ↦ rw (q, try_candidate) (available (canceled_of env s).1)
  ]
    where
      available :
          (s1 : State Response World)
          → let (now, s2) = now_of env s1 in
            let (reply, s3) = env.run c.provider c.model s2 in
            let (step, s') =
              if not (is_available s2.tracker now c.provider)
              then skip_candidate env xs c s2
              else after_run env xs c is_last reply s3 in
            StepCleared step s'
      available s1 =
          let (now, s2) = now_of env s1 in
          elim (Bool-cases (is_available s2.tracker now c.provider)) [
            | inl q ↦ rw q (after_run-StepCleared xs c is_last _ _)
            | inr q ↦ rw q (unfold skip_candidate in tt)
          ]

  execute_loop-Cleared :
      (cs : List FallbackCandidate) (xs : List FallbackAttempt) (s : State Response World)
      → let (o, s') = execute_loop env xs cs s in Cleared o s'
  unfolding execute_loop
  execute_loop-Cleared [] xs s = tt
  execute_loop-Cleared (c ∷ cs) xs s =
      go (try_candidate env xs c (is_empty cs) s).0 (try_candidate-StepCleared xs c (is_empty cs) s)
        (λ ys. execute_loop-Cleared cs ys (try_candidate env xs c (is_empty cs) s).1)
    where
      s' : State Response World
      s' = (try_candidate env xs c (is_empty cs) s).1

      go :
          (st : Step Response World)
          → StepCleared st s'
          → ((ys : List FallbackAttempt) → let (o, t) = execute_loop env ys cs s' in Cleared o t)
          → let (o, t) = elim st as (λ x. Outcome Response World × State Response World) [
            | returns outcome ↦ (outcome, s')
            | goes_on attempts' ↦ execute_loop env attempts' cs s'
          ] in
            Cleared o t
      go (goes_on ys) h ih = ih ys
      go (returns o) h ih = h

  -- When Execute succeeds, the provider that answered is available at every time, with no wait left
  -- and no error counted, whatever `run` did to the tracker before.
  pub execute-Cleared :
      (cs : List FallbackCandidate) (s : State Response World)
      → let (o, s') = execute env cs s in Cleared o s'
  unfolding execute
  execute-Cleared [] s = tt
  execute-Cleared (c ∷ cs) s = execute_loop-Cleared (c ∷ cs) [] s
