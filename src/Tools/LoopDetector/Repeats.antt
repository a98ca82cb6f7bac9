-- ===== src/Tools/LoopDetector/Repeats.antt =====
-- A call repeated in a row, from BeforeExecute to AfterExecute (pkg/tools/loop_detector.go).
use aetherclaw.Common.{
  ℕ, zero, suc, ◌+◌, ◌≤◌, ◌≡◌, refl, sym, ◌∙◌, subst, inl, inr, Bool, true, false, ◌&&◌, Option,
  List, [], ◌∷◌, arith, ltb, leb, if◌then◌else◌, le→leb, ◌==◌, nat_key, eq_refl, Bool-cases, length,
  take,
}
use aetherclaw.Common.Text.{Text, text_key, is_empty}
use aetherclaw.Tools.LoopDetector.{
  LoopDetectorConfig, History, LoopDetector, LoopVerdict, blocked, warning, passed, Hashing,
  get_session, set_session, is_call, count_repeats, hash_args, before_execute, fill_result,
  after_execute, hash_result, detect, detect_repeat, get_no_progress_streak,
}
use aetherclaw.Tools.LoopDetector.Bounds.{get_session-set_session}

-- The n newest records are of the call.
abbrev Starts : Text → Text → ℕ → History → Type 0
Starts tool args zero h = Unit
Starts tool args (suc n) [] = ⊥
Starts tool args (suc n) (r ∷ h) = (is_call tool args r ≡ true) × Starts tool args n h

count_repeats-Starts :
    (tool args : Text) (n : ℕ) (h : History) → Starts tool args n h → n ≤ count_repeats tool args h
unfolding count_repeats
count_repeats-Starts tool args zero h s = omega arith
count_repeats-Starts tool args (suc n) [] s = absurd s
count_repeats-Starts tool args (suc n) (r ∷ h) s =
    rw s.0 (omega (arith, count_repeats-Starts tool args n h s.1))

Starts-take :
    (tool args : Text) (m n : ℕ) (h : History)
    → n ≤ m
    → Starts tool args n h
    → Starts tool args n (take m h)
Starts-take tool args m zero h le s = tt
Starts-take tool args m (suc n) [] le s = absurd s
Starts-take tool args zero (suc n) (r ∷ h) le s = absurd (omega arith)
Starts-take tool args (suc m) (suc n) (r ∷ h) le s =
    (s.0, Starts-take tool args m n h (omega arith) s.1)

Starts-fill_result :
    (result tool args : Text) (n : ℕ) (h : History)
    → Starts tool args n h
    → Starts tool args n (fill_result result tool args h)
unfolding fill_result is_call
Starts-fill_result result tool args zero h s = tt
Starts-fill_result result tool args (suc n) [] s = absurd s
Starts-fill_result result tool args (suc n) (r ∷ h) s =
    go (is_call tool args r && is_empty r.result_hash) (Starts-fill_result result tool args n h s.1)
  where
    go :
        (b : Bool)
        → Starts tool args n (fill_result result tool args h)
        → Starts tool args (suc n) (
            if b
            then (record { tool_name = r.tool_name; args_hash = r.args_hash; result_hash = result })
              ∷ h
            else r ∷ fill_result result tool args h)
    go true f = (s.0, s.1)
    go false f = (s.0, f)

abbrev pub IsBlocked : LoopVerdict → Type 0
IsBlocked passed = ⊥
IsBlocked (warning r n) = ⊥
IsBlocked (blocked r n) = Unit

detect-IsBlocked :
    (c : LoopDetectorConfig) (tool args : Text) (h : History)
    → c.enable_generic_repeat ≡ true
    → c.critical_threshold ≤ count_repeats tool args h
    → IsBlocked (detect c tool args h)
unfolding detect detect_repeat
detect-IsBlocked c tool args h enabled le =
    elim (Bool-cases (leb c.circuit_breaker_threshold (get_no_progress_streak tool args h))) [
      | inl e ↦ rw e tt
      | inr e ↦ rw (e, enabled, le→leb _ _ le) tt
    ]

module _ {A : Type 0} (hashing : Hashing A) (session tool : Text) (args : A) where
  -- The call executed once for each result.
  unfoldable pub repeat_call : List (Option Text) → LoopDetector → LoopDetector
  repeat_call [] d = d
  repeat_call (r ∷ rs) d =
      repeat_call rs
        (after_execute hashing session tool args r (before_execute hashing session tool args d).1)

  abbrev StartsIn : ℕ → LoopDetector → Type 0
  StartsIn n d = Starts tool (hash_args hashing args) n (get_session session d)

  set_session-StartsIn :
      (n : ℕ) (h : History) (d : LoopDetector)
      → Starts tool (hash_args hashing args) n h
      → StartsIn n (set_session session h d)
  set_session-StartsIn n h d s =
      subst (Starts tool (hash_args hashing args) n)
        (sym (get_session-set_session session session h d ∙ same)) s
    where
      same : (if session == session then h else get_session session d) ≡ h
      same = rw (eq_refl session) refl

  before_execute-StartsIn :
      (n : ℕ) (d : LoopDetector)
      → suc n ≤ d.config.history_size
      → StartsIn n d
      → StartsIn (suc n) (before_execute hashing session tool args d).1
  unfolding before_execute is_call
  before_execute-StartsIn n d le s =
      set_session-StartsIn (suc n)
        (if ltb d.config.history_size (length added)
          then take d.config.history_size added
          else added)
        d (go (ltb d.config.history_size (length added)))
    where
      added : History
      added =
          record { tool_name = tool; args_hash = hash_args hashing args; result_hash = [] }
          ∷ get_session session d

      starts : Starts tool (hash_args hashing args) (suc n) added
      starts = (rw (eq_refl tool, eq_refl (hash_args hashing args)) refl, s)

      go :
          (b : Bool)
          → Starts tool
              (hash_args hashing args)
              (suc n)
              (if b then take d.config.history_size added else added)
      go true =
          Starts-take tool (hash_args hashing args) d.config.history_size (suc n) added le starts
      go false = starts

  repeat_call-StartsIn :
      (rs : List (Option Text)) (n : ℕ) (d : LoopDetector)
      → n + length rs ≤ d.config.history_size
      → StartsIn n d
      → StartsIn (n + length rs) (repeat_call rs d) × ((repeat_call rs d).config ≡ d.config)
  unfolding repeat_call after_execute before_execute
  repeat_call-StartsIn [] n d le s = (subst (λ k. StartsIn k d) (omega arith) s, refl)
  repeat_call-StartsIn (r ∷ rs) n d le s =
      let d1 = (before_execute hashing session tool args d).1 in
      let filled =
        Starts-fill_result (hash_result hashing r) tool (hash_args hashing args) (suc n)
          (get_session session d1) (before_execute-StartsIn n d (omega arith) s) in
      let rest =
        repeat_call-StartsIn rs (suc n) (after_execute hashing session tool args r d1) (omega arith)
          (set_session-StartsIn (suc n) _ d1 filled) in
      (subst (λ k. StartsIn k (repeat_call (r ∷ rs) d)) (omega arith) rest.0, rest.1)

  -- Whatever came before and whatever the calls return, with repeats detected and a window at
  -- least as long as the critical threshold, a call that was executed as often as that threshold
  -- in a row is blocked the next time.
  pub repeat_call-IsBlocked :
      (d : LoopDetector) (rs : List (Option Text))
      → d.config.enable_generic_repeat ≡ true
      → d.config.critical_threshold ≤ d.config.history_size
      → length rs ≡ d.config.critical_threshold
      → IsBlocked (before_execute hashing session tool args (repeat_call rs d)).0
  unfolding before_execute
  repeat_call-IsBlocked d rs enabled le len =
      let r = repeat_call-StartsIn rs 0 d (omega arith) tt in
      detect-IsBlocked (repeat_call rs d).config tool (hash_args hashing args)
        (get_session session (repeat_call rs d))
        (subst (λ c. c.enable_generic_repeat ≡ true) (sym r.1) enabled)
        (subst
          (λ c.
            c.critical_threshold
            ≤ count_repeats tool (hash_args hashing args) (get_session session (repeat_call rs d)))
          (sym r.1)
          (omega (
            arith,
            len,
            count_repeats-Starts tool (hash_args hashing args) (0 + length rs)
                (get_session session (repeat_call rs d)) r.0,
          )))
