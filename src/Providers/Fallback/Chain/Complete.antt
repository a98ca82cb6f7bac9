-- ===== src/Providers/Fallback/Chain/Complete.antt =====
-- The loop of Execute of fallback.go, from its body to the whole chain.
use aetherclaw.Common.{
  ◌≡◌, refl, sym, ap, subst, ◌≢◌, inl, inr, true, List, [], ◌∷◌, ◌++◌, append-nil, append_assoc,
  nat_key,
}
use aetherclaw.Common.Text.{is_empty}
use aetherclaw.Providers.Fallback.Candidates.{FallbackCandidate}
use aetherclaw.Providers.Fallback.Chain.{
  FallbackAttempt, State, Env, Outcome, no_candidates, exhausted, Step, returns, goes_on,
  try_candidate, execute_loop, execute,
}
use aetherclaw.Providers.Fallback.Chain.Coverage.{
  Passes, Ends, StepCovers, try_candidate-StepCovers,
}

module _ {Response World : Type 0} (env : Env Response World) where
  -- Candidates are passed one after another, each with its attempt.
  pub data Walk
      : State Response World
        → List FallbackCandidate
        → List FallbackAttempt
        → State Response World
        → Type 0 where
    at_start : {s : State Response World} → Walk s [] [] s
    after_one :
        {c : FallbackCandidate}
        → {cs : List FallbackCandidate} → {a : FallbackAttempt} → {attempts : List FallbackAttempt}
        → {s s1 s2 : State Response World} → Passes env c s a s1
        → Walk s1 cs attempts s2
        → Walk s (c ∷ cs) (a ∷ attempts) s2

  -- What a loop over the candidates `cs` may return, after the attempts `before`.
  data LoopCovers (before : List FallbackAttempt) (cs : List FallbackCandidate)
      (s : State Response World) : Outcome Response World → State Response World → Type 0 where
    passed_all :
        {s' : State Response World}
        → (attempts : List FallbackAttempt) → Walk s cs attempts s'
        → LoopCovers before cs s (exhausted (before ++ attempts)) s'
    ended_at :
        {o : Outcome Response World}
        → {s1 s' : State Response World} → (passed rest : List FallbackCandidate)
        → (c : FallbackCandidate) → (attempts : List FallbackAttempt) → cs ≡ passed ++ c ∷ rest
        → Walk s passed attempts s1
        → Ends env c (before ++ attempts) s1 o s'
        → LoopCovers before cs s o s'

  -- What Execute may return: nothing was to be tried, or each candidate was passed and the attempts
  -- are theirs, or those before one candidate were passed and the chain ended at this one.
  pub data Covers (cs : List FallbackCandidate) (s : State Response World)
      : Outcome Response World → State Response World → Type 0 where
    nothing : cs ≡ [] → Covers cs s no_candidates s
    all_passed :
        {s' : State Response World}
        → (attempts : List FallbackAttempt) → cs ≢ []
        → Walk s cs attempts s'
        → Covers cs s (exhausted attempts) s'
    ends_at :
        {o : Outcome Response World}
        → {s1 s' : State Response World} → (passed rest : List FallbackCandidate)
        → (c : FallbackCandidate) → (attempts : List FallbackAttempt) → cs ≡ passed ++ c ∷ rest
        → Walk s passed attempts s1
        → Ends env c attempts s1 o s'
        → Covers cs s o s'

  -- A candidate that is passed, before the rest of the loop.
  passed-LoopCovers :
      {before : List FallbackAttempt} {a : FallbackAttempt} {c : FallbackCandidate}
      {cs : List FallbackCandidate} {s s1 s2 : State Response World} {o : Outcome Response World}
      → Passes env c s a s1
      → LoopCovers (before ++ a ∷ []) cs s1 o s2
      → LoopCovers before (c ∷ cs) s o s2
  passed-LoopCovers {before} {a} {c} {cs} {s} {s1} {s2} p (passed_all attempts w) =
      subst (λ xs. LoopCovers before (c ∷ cs) s (exhausted xs) s2)
        (sym (append_assoc before (a ∷ []) attempts)) (passed_all (a ∷ attempts) (after_one p w))
  passed-LoopCovers {before} {a} {c} {cs} {s} {s1} {s2} {o} p
        (ended_at {s1 = t} passed rest d attempts split w e) =
      ended_at (c ∷ passed) rest d (a ∷ attempts) (ap (◌∷◌ c) split) (after_one p w)
        (subst (λ xs. Ends env d xs t o s2) (append_assoc before (a ∷ []) attempts) e)

  no_rest : (cs : List FallbackCandidate) → is_empty cs ≡ true → cs ≡ []
  no_rest [] h = refl
  no_rest (c ∷ cs) h = cc

  returns-LoopCovers :
      (before : List FallbackAttempt) (c : FallbackCandidate) (cs : List FallbackCandidate)
      (s s' : State Response World) (o : Outcome Response World)
      → StepCovers env c before (is_empty cs) s (returns o) s'
      → LoopCovers before (c ∷ cs) s o s'
  returns-LoopCovers before c cs s s' o (inl e) =
      ended_at [] cs c [] refl at_start
        (subst (λ xs. Ends env c xs s o s') (sym (append-nil before)) e)
  returns-LoopCovers before c cs s s' o (inr (a, last, p, same)) =
      subst (λ r. LoopCovers before (c ∷ cs) s r s') (sym same)
        (passed_all (a ∷ [])
          (subst (λ r. Walk s (c ∷ r) (a ∷ []) s') (sym (no_rest cs last)) (after_one p at_start)))

  execute_loop-LoopCovers :
      (cs : List FallbackCandidate) (before : List FallbackAttempt) (s : State Response World)
      → let (o, s') = execute_loop env before cs s in LoopCovers before cs s o s'
  unfolding execute_loop
  execute_loop-LoopCovers [] before s =
      subst (λ xs. LoopCovers before [] s (exhausted xs) s) (append-nil before)
        (passed_all [] at_start)
  execute_loop-LoopCovers (c ∷ cs) before s =
      go (try_candidate env before c (is_empty cs) s).0
        (try_candidate-StepCovers env c before (is_empty cs) s)
        (λ ys. execute_loop-LoopCovers cs ys s1)
    where
      s1 : State Response World
      s1 = (try_candidate env before c (is_empty cs) s).1

      go :
          (st : Step Response World)
          → StepCovers env c before (is_empty cs) s st s1
          → ((ys : List FallbackAttempt)
              → let (o, s') = execute_loop env ys cs s1 in LoopCovers ys cs s1 o s')
          → let (o, s') = elim st as (λ x. Outcome Response World × State Response World) [
            | returns outcome ↦ (outcome, s1)
            | goes_on attempts' ↦ execute_loop env attempts' cs s1
          ] in
            LoopCovers before (c ∷ cs) s o s'
      go (goes_on ys) (a, p, same) ih =
          let (o, s') = execute_loop env ys cs s1 in
          passed-LoopCovers p (subst (λ xs. LoopCovers xs cs s1 o s') same (ih ys))
      go (returns o) h ih = returns-LoopCovers before c cs s s1 o h

  from_loop :
      {c : FallbackCandidate} {cs : List FallbackCandidate} {s s' : State Response World}
      {o : Outcome Response World}
      → LoopCovers [] (c ∷ cs) s o s'
      → Covers (c ∷ cs) s o s'
  from_loop (passed_all attempts w) = all_passed attempts (λ e. cc) w
  from_loop (ended_at passed rest c attempts split w e) = ends_at passed rest c attempts split w e

  -- Execute tries the candidates in their order, each with the state that the one before left,
  -- whatever `run`, the clock and the context do. A candidate is passed, with one attempt, only if
  -- its provider is not available, which the attempt records as skipped with the time that is left,
  -- or if it was asked and its error is classified and not a format error, which the attempt records
  -- and the tracker too; only an available provider is asked, and only while the context is not
  -- cancelled. Exhaustion: each candidate was passed, and the attempts are theirs. Otherwise those
  -- before one candidate were passed, and there the context is cancelled before it is asked or after
  -- its error, or it answers, with exactly the attempts of those before and the tracker told, or its
  -- error is not classified, or it is a format error. The error for no candidates is returned only
  -- for none.
  pub execute-Covers :
      (cs : List FallbackCandidate) (s : State Response World)
      → let (o, s') = execute env cs s in Covers cs s o s'
  unfolding execute
  execute-Covers [] s = nothing refl
  execute-Covers (c ∷ cs) s = from_loop (execute_loop-LoopCovers (c ∷ cs) [] s)
