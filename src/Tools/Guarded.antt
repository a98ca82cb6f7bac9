-- ===== src/Tools/Guarded.antt =====
-- The loop detector as a hook of the registry (pkg/tools/loop_detector.go, pkg/tools/registry.go).
-- The state is the detector beside the state `W` that the tools work on.
use aetherclaw.Common.{
  ℕ, zero, suc, ◌≤◌, ◌≡◌, refl, sym, ap, ◌∙◌, subst, true, Option, none, some, List, [], ◌∷◌,
  nat_key, eq_refl, length,
}
use aetherclaw.Common.Text.{Text, text_key}
use aetherclaw.Common.Dict.{get}
use aetherclaw.Tools.LoopDetector.{
  LoopDetector, LoopVerdict, Reason, passed, warning, blocked, Hashing, before_execute,
  after_execute,
}
use aetherclaw.Tools.LoopDetector.Repeats.{IsBlocked, repeat_call, repeat_call-IsBlocked}
use aetherclaw.Tools.Registry.{
  ToolResult, Tool, ToolHook, ToolRegistry, Messages, run_before, run_after, run_tool,
  execute_found, execute_option, execute_with_context, execute_tool, get_tool,
}

pub record Guarded (W : Type 0) : Type 0 where
  pub detector : LoopDetector
  pub outer : W

-- the error that BeforeExecute returns
abbrev pub verdict_error : LoopVerdict → Option (Reason × ℕ)
verdict_error passed = none
verdict_error (warning r n) = none
verdict_error (blocked r n) = some (r, n)

-- A tool that implements no optional interface and leaves the detector alone.
abbrev pub plain_tool :
    {W A C E : Type 0} → Text → A → (A → W → ToolResult E × W) → Tool (Guarded W) A C E
plain_tool name parameters f = record {
  name = name;
  description = [];
  parameters = parameters;
  call =
      λ args g. ((f args g.outer).0, record { detector = g.detector; outer = (f args g.outer).1 });
  set_context = none;
  set_callback = none;
}

module _ {W A : Type 0} (hashing : Hashing A) (session : Text) where
  -- the detector's hook, in the context of a session
  unfoldable pub loop_hook : ToolHook (Guarded W) A (Reason × ℕ)
  loop_hook = record {
    before = λ name args g.
        let (verdict, d) = before_execute hashing session name args g.detector in
        (verdict_error verdict, record { detector = d; outer = g.outer });
    after = λ name args result g. record {
      detector = after_execute hashing session name args (some result.for_llm) g.detector;
      outer = g.outer;
    };
  }

  run_before-loop_hook :
      (name : Text) (args : A) (g : Guarded W)
      → run_before (loop_hook ∷ []) name args g ≡ (
          let (verdict, d) = before_execute hashing session name args g.detector in
          (verdict_error verdict, record { detector = d; outer = g.outer }))
  unfolding run_before loop_hook
  run_before-loop_hook name args g = go (verdict_error verdict)
    where
      verdict : LoopVerdict
      verdict = (before_execute hashing session name args g.detector).0

      h : Guarded W
      h = record {
        detector = (before_execute hashing session name args g.detector).1;
        outer = g.outer;
      }

      go :
          (o : Option (Reason × ℕ))
          → (elim o as (λ x. Option (Reason × ℕ) × Guarded W) [
            | some e ↦ (some e, h)
            | none ↦ (none, h)
          ])
            ≡ (o, h)
      go none = refl
      go (some e) = refl

  module _ (C : Type 0) (messages : Messages (Reason × ℕ)) (name : Text) (args : A)
      (f : A → W → ToolResult (Reason × ℕ) × W) where
    -- the registry with the tool and the hook
    abbrev pub guarded_registry : ToolRegistry (Guarded W) A C (Reason × ℕ)
    guarded_registry = record {
      tools = (name, plain_tool name args f) ∷ [];
      hooks = loop_hook ∷ [];
    }

    -- n executions of the tool
    unfoldable pub execute_times : ℕ → Guarded W → Guarded W
    execute_times zero g = g
    execute_times (suc n) g = execute_times n (execute_tool messages guarded_registry name args g).1

    -- what becomes of the detector, and of the rest
    abbrev executed : Option (Reason × ℕ) × Guarded W → ToolResult (Reason × ℕ) × Guarded W
    executed r =
        let (result, h) = run_tool messages (plain_tool {C = C} name args f) args r in
        (
          result,
          record {
            detector = after_execute hashing session name args (some result.for_llm) h.detector;
            outer = h.outer;
          },
        )

    execute-executed :
        (g : Guarded W)
        → execute_tool messages guarded_registry name args g ≡ (
            let (verdict, d) = before_execute hashing session name args g.detector in
            executed (verdict_error verdict, record { detector = d; outer = g.outer }))
    unfolding execute_tool execute_with_context get_tool get execute_found run_after loop_hook
    execute-executed g =
        ap
          (λ (o : Option (Tool (Guarded W) A C (Reason × ℕ))).
            execute_option messages o (loop_hook ∷ []) name args [] [] none g)
          found
        ∙ ap executed (run_before-loop_hook name args g)
      where
        found : get_tool name guarded_registry ≡ some (plain_tool name args f)
        found = rw (eq_refl name, get_tool, get) refl

    executed-detector :
        (o : Option (Reason × ℕ)) (d : LoopDetector) (w : W)
        → (executed (o, record { detector = d; outer = w })).1.detector
          ≡ after_execute hashing session name args
              (some (executed (o, record { detector = d; outer = w })).0.for_llm)
              d
    executed-detector none d w = refl
    executed-detector (some e) d w = refl

    -- the results that the detector saw
    execute_times-repeat_call :
        (n : ℕ) (g : Guarded W)
        → (rs : List (Option Text)) × (length rs ≡ n)
          × ((execute_times n g).detector ≡ repeat_call hashing session name args rs g.detector)
    unfolding execute_times repeat_call
    execute_times-repeat_call zero g = ([], refl, refl)
    execute_times-repeat_call (suc n) g =
        let h = (execute_tool messages guarded_registry name args g).1 in
        let (verdict, d) = before_execute hashing session name args g.detector in
        let r = executed (verdict_error verdict, record { detector = d; outer = g.outer }) in
        let (rs, count, e) = execute_times-repeat_call n h in
        (
          some r.0.for_llm ∷ rs,
          ap suc count,
          e
              ∙ ap (repeat_call hashing session name args rs) (
                  ap (λ (p : ToolResult (Reason × ℕ) × Guarded W). p.1.detector)
                    (execute-executed g)
                  ∙ executed-detector (verdict_error verdict) d g.outer),
        )

    -- With a detector of repeats whose window is at least as long as its critical threshold, and
    -- whatever happened before, a tool that was asked as often as that threshold in a row is not
    -- run the next time: the execution returns an error and leaves the state of the tools as it was.
    pub execute_times-stopped :
        (g : Guarded W)
        → g.detector.config.enable_generic_repeat ≡ true
        → g.detector.config.critical_threshold ≤ g.detector.config.history_size
        → let h = execute_times g.detector.config.critical_threshold g in
          let (result, h') = execute_tool messages guarded_registry name args h in
          (result.is_error ≡ true) × (h'.outer ≡ h.outer)
    execute_times-stopped g enabled le =
        let n = g.detector.config.critical_threshold in
        let h = execute_times n g in
        let (rs, count, e) = execute_times-repeat_call n g in
        let is_blocked =
          subst (λ d. IsBlocked (before_execute hashing session name args d).0) (sym e)
            (repeat_call-IsBlocked hashing session name args g.detector rs enabled le count) in
        subst
          (λ (p : ToolResult (Reason × ℕ) × Guarded W).
            (p.0.is_error ≡ true) × (p.1.outer ≡ h.outer))
          (sym (execute-executed h))
          (stopped (before_execute hashing session name args h.detector).0
            (before_execute hashing session name args h.detector).1 h.outer is_blocked)
      where
        stopped :
            (v : LoopVerdict) (d : LoopDetector) (w : W)
            → IsBlocked v
            → let r = executed (verdict_error v, record { detector = d; outer = w }) in
              (r.0.is_error ≡ true) × (r.1.outer ≡ w)
        stopped passed d w b = absurd b
        stopped (warning r n) d w b = absurd b
        stopped (blocked r n) d w b = (refl, refl)
