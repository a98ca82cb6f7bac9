-- ===== src/Providers/Fallback/Chain/Coverage.antt =====
-- How a chain passes a candidate and how it ends at one (Execute of pkg/providers/fallback.go), as
-- relations on what the clock, the context, the caller's `run` and the tracker say.
use aetherclaw.Common.{
  ℕ, ◌≡◌, refl, ap, ◌≢◌, ◌⊎◌, inl, inr, Bool, true, false, not, Option, none, some, List, [], ◌∷◌,
  ◌++◌, arith, if◌then◌else◌, nat_key, Bool-cases,
}
use aetherclaw.Providers.Types.{
  reason_beq_iff, rate_limit, format, GoError, FailoverError, is_retriable,
}
use aetherclaw.Providers.Cooldown.{is_available, cooldown_remaining, mark_failure, mark_success}
use aetherclaw.Providers.Classify.{classify_error}
use aetherclaw.Providers.Fallback.Candidates.{FallbackCandidate}
use aetherclaw.Providers.Fallback.Chain.{
  in_cooldown, classified, FallbackAttempt, State, Reply, responds, errs, Env, Outcome, success,
  aborted, unclassified, refused, exhausted, Step, returns, goes_on, canceled_of, now_of,
  skip_candidate, record_failure, after_classify, after_run, try_candidate,
}

module _ {Response World : Type 0} (env : Env Response World) where
  -- The context is not cancelled, the provider is available, and `run` gives this reply.
  pub data Asked (c : FallbackCandidate) (s : State Response World)
      : Reply Response World → State Response World → Type 0 where
    asked :
        {reply : Reply Response World}
        → {s1 s2 s3 : State Response World} → (now : ℕ) → canceled_of env s ≡ (false, s1)
        → now_of env s1 ≡ (now, s2)
        → is_available s2.tracker now c.provider ≡ true
        → env.run c.provider c.model s2 ≡ (reply, s3)
        → Asked c s reply s3

  -- The chain goes on after a candidate, with this attempt.
  pub data Passes (c : FallbackCandidate) (s : State Response World)
      : FallbackAttempt → State Response World → Type 0 where
    cools_down :
        {s1 s2 s3 : State Response World}
        → (now later : ℕ) → canceled_of env s ≡ (false, s1)
        → now_of env s1 ≡ (now, s2)
        → is_available s2.tracker now c.provider ≡ false
        → now_of env s2 ≡ (later, s3)
        → Passes c s
            (record {
              provider = c.provider;
              model = c.model;
              error = in_cooldown c.provider (cooldown_remaining s3.tracker later c.provider);
              reason = some rate_limit;
              duration = 0;
              skipped = true;
            })
            s3
    fails :
        {s3 s4 s5 : State Response World}
        → (err : GoError) → (elapsed now : ℕ) → (f : FailoverError)
        → Asked c s (errs err elapsed) s3
        → canceled_of env s3 ≡ (false, s4)
        → classify_error (some err) c.provider c.model ≡ some f
        → f.reason ≢ format
        → now_of env s4 ≡ (now, s5)
        → Passes c s
            (record {
              provider = c.provider;
              model = c.model;
              error = classified f;
              reason = some f.reason;
              duration = elapsed;
              skipped = false;
            })
            (record s5 { tracker = mark_failure s5.tracker now c.provider f.reason })

  -- The chain ends at a candidate, after these attempts.
  pub data Ends (c : FallbackCandidate) (attempts : List FallbackAttempt) (s : State Response World)
      : Outcome Response World → State Response World → Type 0 where
    canceled_before :
        {s1 : State Response World} → canceled_of env s ≡ (true, s1) → Ends c attempts s aborted s1
    canceled_after :
        {s3 s4 : State Response World}
        → (err : GoError) → (elapsed : ℕ) → Asked c s (errs err elapsed) s3
        → canceled_of env s3 ≡ (true, s4)
        → Ends c attempts s aborted s4
    answers :
        {s3 : State Response World}
        → (response : Response) → (elapsed : ℕ) → Asked c s (responds response elapsed) s3
        → Ends c attempts s
            (success (record {
              response = response;
              provider = c.provider;
              model = c.model;
              attempts = attempts;
            }))
            (record s3 { tracker = mark_success s3.tracker c.provider })
    is_unknown :
        {s3 s4 : State Response World}
        → (err : GoError) → (elapsed : ℕ) → Asked c s (errs err elapsed) s3
        → canceled_of env s3 ≡ (false, s4)
        → classify_error (some err) c.provider c.model ≡ none
        → Ends c attempts s (unclassified c.provider c.model err) s4
    is_refused :
        {s3 s4 : State Response World}
        → (err : GoError) → (elapsed : ℕ) → (f : FailoverError) → Asked c s (errs err elapsed) s3
        → canceled_of env s3 ≡ (false, s4)
        → classify_error (some err) c.provider c.model ≡ some f
        → f.reason ≡ format
        → Ends c attempts s (refused f) s4

  -- what the body of the loop does at a candidate
  abbrev pub StepCovers :
      FallbackCandidate
      → List FallbackAttempt
      → Bool
      → State Response World
      → Step Response World
      → State Response World
      → Type 0
  StepCovers c attempts is_last s (goes_on attempts') s' =
      (a : FallbackAttempt) × Passes c s a s' × (attempts' ≡ attempts ++ a ∷ [])
  StepCovers c attempts is_last s (returns o) s' =
      Ends c attempts s o s'
      ⊎ ((a : FallbackAttempt) × (is_last ≡ true)
          × Passes c s a s'
          × (o ≡ exhausted (attempts ++ a ∷ [])))

-- what the body of the loop does, as a pair
abbrev StepOf :
    {Response World : Type 0}
    → Env Response World
    → FallbackCandidate
    → List FallbackAttempt
    → Bool
    → State Response World
    → Step Response World × State Response World
    → Type 0
StepOf env c xs is_last s (step, s') = StepCovers env c xs is_last s step s'

not_retriable : (f : FailoverError) → is_retriable f ≡ false → f.reason ≡ format
unfolding is_retriable
not_retriable f h = ground (arith, reason_beq_iff f.reason format)

retriable : (f : FailoverError) → is_retriable f ≡ true → f.reason ≢ format
unfolding is_retriable
retriable f h = ground (arith, reason_beq_iff f.reason format)

pair-first : {A : Type 0} (p : Bool × A) (b : Bool) → p.0 ≡ b → p ≡ (b, p.1)
pair-first p b e = ap (λ (x : Bool). (x, p.1)) e

module _ {Response World : Type 0} (env : Env Response World) (c : FallbackCandidate)
    (xs : List FallbackAttempt) (is_last : Bool) (s : State Response World) where
  record_failure-StepCovers :
      (err : GoError) (f : FailoverError) (elapsed : ℕ) (s3 s4 : State Response World)
      → Asked env c s (errs err elapsed) s3
      → canceled_of env s3 ≡ (false, s4)
      → classify_error (some err) c.provider c.model ≡ some f
      → f.reason ≢ format
      → StepOf env c xs is_last s (record_failure env xs c is_last f elapsed s4)
  unfolding record_failure
  record_failure-StepCovers err f elapsed s3 s4 ask going e r = elim (Bool-cases is_last) [
    | inl q ↦ rw q (inr (_, refl, fails err elapsed _ f ask going e r refl, refl))
    | inr q ↦ rw q (_, fails err elapsed _ f ask going e r refl, refl)
  ]

  after_classify-StepCovers :
      (err : GoError) (o : Option FailoverError) (elapsed : ℕ) (s3 s4 : State Response World)
      → Asked env c s (errs err elapsed) s3
      → canceled_of env s3 ≡ (false, s4)
      → classify_error (some err) c.provider c.model ≡ o
      → StepOf env c xs is_last s (after_classify env xs c is_last err o elapsed s4)
  unfolding after_classify
  after_classify-StepCovers err none elapsed s3 s4 ask going e =
      inl (is_unknown err elapsed ask going e)
  after_classify-StepCovers err (some f) elapsed s3 s4 ask going e =
      elim (Bool-cases (is_retriable f)) [
        | inl q ↦
            rw (q, after_classify)
              (record_failure-StepCovers err f elapsed s3 s4 ask going e (retriable f q))
        | inr q ↦
            rw (q, after_classify) (inl (is_refused err elapsed f ask going e (not_retriable f q)))
      ]

  after_run-StepCovers :
      (reply : Reply Response World) (s3 : State Response World)
      → Asked env c s reply s3
      → StepOf env c xs is_last s (after_run env xs c is_last reply s3)
  unfolding after_run
  after_run-StepCovers (responds resp elapsed) s3 ask = inl (answers resp elapsed ask)
  after_run-StepCovers (errs err elapsed) s3 ask =
      let after = pair-first (canceled_of env s3) in
      elim (Bool-cases (canceled_of env s3).0) [
        | inl q ↦ rw (q, after_run) (inl (canceled_after err elapsed ask (after true q)))
        | inr q ↦
            rw (q, after_run)
              (after_classify-StepCovers err _ elapsed s3 (canceled_of env s3).1 ask (after false q)
                refl)
      ]

  skip_candidate-StepCovers :
      (now : ℕ) (s1 s2 : State Response World)
      → canceled_of env s ≡ (false, s1)
      → now_of env s1 ≡ (now, s2)
      → is_available s2.tracker now c.provider ≡ false
      → StepOf env c xs is_last s (skip_candidate env xs c s2)
  unfolding skip_candidate
  skip_candidate-StepCovers now s1 s2 going clock cooling =
      (_, cools_down now _ going clock cooling refl, refl)

  available-StepCovers :
      (s1 : State Response World)
      → canceled_of env s ≡ (false, s1)
      → let (now, s2) = now_of env s1 in
        let (reply, s3) = env.run c.provider c.model s2 in
        StepOf env c xs is_last s (
          if not (is_available s2.tracker now c.provider)
          then skip_candidate env xs c s2
          else after_run env xs c is_last reply s3)
  available-StepCovers s1 going =
      let (now, s2) = now_of env s1 in
      elim (Bool-cases (is_available s2.tracker now c.provider)) [
        | inl q ↦ rw q (after_run-StepCovers _ _ (asked now going refl q refl))
        | inr q ↦ rw q (skip_candidate-StepCovers now s1 s2 going refl q)
      ]

  pub try_candidate-StepCovers :
      let (step, s') = try_candidate env xs c is_last s in StepCovers env c xs is_last s step s'
  unfolding try_candidate
  try_candidate-StepCovers =
      let before = pair-first (canceled_of env s) in
      elim (Bool-cases (canceled_of env s).0) [
        | inl q ↦ rw (q, try_candidate) (inl (canceled_before (before true q)))
        | inr q ↦
            rw (q, try_candidate) (available-StepCovers (canceled_of env s).1 (before false q))
      ]
