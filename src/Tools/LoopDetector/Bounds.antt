-- ===== src/Tools/LoopDetector/Bounds.antt =====
-- The sliding window over sequences of operations (pkg/tools/loop_detector.go).
use aetherclaw.Common.{
  ℕ, ◌≤◌, ◌≡◌, refl, sym, subst, inl, inr, Bool, true, false, Option, none, List, [], ◌∷◌, arith,
  ltb, if◌then◌else◌, ◌==◌, nat_key, Bool-cases, length, take, length-take,
}
use aetherclaw.Common.Text.{Text, text_key}
use aetherclaw.Common.Dict.{get, get-put, get-remove}
use aetherclaw.Tools.LoopDetector.{
  LoopDetectorConfig, History, LoopDetector, Hashing, history_or_empty, get_session, set_session,
  hash_args, before_execute, fill_result, after_execute, hash_result, reset_session,
  new_loop_detector,
}

-- What callers can do to a detector.
pub data Op (A : Type 0) : Type 0 where
  before : Text → Text → A → Op A
  after : Text → Text → A → Option Text → Op A
  reset : Text → Op A

abbrev pub IsBounded : LoopDetector → Type 0
IsBounded d = (key : Text) → length (get_session key d) ≤ d.config.history_size

pub get_session-set_session :
    (key j : Text) (h : History) (d : LoopDetector)
    → get_session j (set_session key h d) ≡ (if key == j then h else get_session j d)
unfolding get_session
get_session-set_session key j h d = elim (Bool-cases (key == j)) [
  | inl e ↦ rw (get-put key j h d.sessions, e) refl
  | inr e ↦ rw (get-put key j h d.sessions, e) refl
]

pub length-fill_result :
    (result tool args : Text) (h : History) → length (fill_result result tool args h) ≡ length h
unfolding fill_result
length-fill_result result tool args [] = refl
length-fill_result result tool args (r ∷ h) = ground (arith, length-fill_result result tool args h)

set_session-IsBounded :
    (key : Text) (h : History) (d : LoopDetector)
    → IsBounded d
    → length h ≤ d.config.history_size
    → IsBounded (set_session key h d)
set_session-IsBounded key h d bounded le j =
    subst (λ k. length k ≤ d.config.history_size) (sym (get_session-set_session key j h d))
      (go (key == j))
  where
    go : (b : Bool) → length (if b then h else get_session j d) ≤ d.config.history_size
    go true = le
    go false = bounded j

trimmed_le :
    {A : Type 0} (n : ℕ) (h : List A) → length (if ltb n (length h) then take n h else h) ≤ n
trimmed_le n h = elim (Bool-cases (ltb n (length h))) [
  | inl e ↦ rw e (omega (arith, length-take n h))
  | inr e ↦ rw e (ground arith)
]

module _ {A : Type 0} (hashing : Hashing A) where
  unfoldable pub step : LoopDetector → Op A → LoopDetector
  step d (before session tool args) = (before_execute hashing session tool args d).1
  step d (after session tool args result) = after_execute hashing session tool args result d
  step d (reset session) = reset_session session d

  unfoldable pub run : LoopDetector → List (Op A) → LoopDetector
  unfolding step
  run d [] = d
  run d (op ∷ ops) = run (step d op) ops

  step-IsBounded : (d : LoopDetector) (op : Op A) → IsBounded d → IsBounded (step d op)
  unfolding step before_execute after_execute reset_session
  step-IsBounded d (before session tool args) bounded =
      set_session-IsBounded session
        (if ltb d.config.history_size (length added)
          then take d.config.history_size added
          else added)
        d bounded (trimmed_le d.config.history_size added)
    where
      added : History
      added =
          record { tool_name = tool; args_hash = hash_args hashing args; result_hash = [] }
          ∷ get_session session d
  step-IsBounded d (after session tool args result) bounded =
      set_session-IsBounded session _ d bounded (
        subst (λ n. n ≤ d.config.history_size)
          (sym (
            length-fill_result (hash_result hashing result) tool (hash_args hashing args)
              (get_session session d)))
          (bounded session))
  step-IsBounded d (reset session) bounded = λ j.
      unfold get_session in
      subst (λ o. length (history_or_empty o) ≤ d.config.history_size)
        (sym (get-remove session j d.sessions)) (go j (session == j))
    where
      go :
          (j : Text) (b : Bool)
          → length (history_or_empty (if b then none else get j d.sessions)) ≤ d.config.history_size
      go j true = omega arith
      go j false = unfold get_session in bounded j

  run_from-IsBounded : (d : LoopDetector) (ops : List (Op A)) → IsBounded d → IsBounded (run d ops)
  unfolding run
  run_from-IsBounded d [] bounded = bounded
  run_from-IsBounded d (op ∷ ops) bounded =
      run_from-IsBounded (step d op) ops (step-IsBounded d op bounded)

  -- From a new detector, after any sequence of calls, results and resets of any sessions, the
  -- history of every session is at most as long as the window.
  pub run-IsBounded :
      (config : LoopDetectorConfig) (ops : List (Op A))
      → IsBounded (run (new_loop_detector config) ops)
  run-IsBounded config ops =
      run_from-IsBounded (new_loop_detector config) ops
        (λ key. unfold get_session new_loop_detector get in omega arith)
