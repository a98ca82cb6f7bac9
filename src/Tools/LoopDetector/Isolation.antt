-- ===== src/Tools/LoopDetector/Isolation.antt =====
-- Sessions and each other (pkg/tools/loop_detector.go).
use aetherclaw.Common.{◌≡◌, refl, ap, ◌∙◌, false, List, [], ◌∷◌, ◌==◌, nat_key, All}
use aetherclaw.Common.Text.{Text, text_key}
use aetherclaw.Common.Dict.{get, remove, get-remove}
use aetherclaw.Tools.LoopDetector.{
  LoopDetector, History, Hashing, get_session, set_session, history_or_empty, before_execute,
  after_execute, reset_session, detect, hash_args,
}
use aetherclaw.Tools.LoopDetector.Bounds.{
  Op, before, after, reset, step, run, get_session-set_session,
}

module _ {A : Type 0} where
  abbrev session_of : Op A → Text
  session_of (before session tool args) = session
  session_of (after session tool args result) = session
  session_of (reset session) = session

  -- No operation is of the session.
  abbrev pub Avoids : Text → List (Op A) → Type 0
  Avoids key = All (λ op. (session_of op == key) ≡ false)

-- The session's history and the configuration are the same.
record SameSession (key : Text) (d e : LoopDetector) : Type 0 where
  history : get_session key d ≡ get_session key e
  configuration : d.config ≡ e.config

set_session-SameSession :
    (session key : Text) (h : History) (d : LoopDetector)
    → (session == key) ≡ false
    → SameSession key (set_session session h d) d
set_session-SameSession session key h d other = record {
  history = get_session-set_session session key h d ∙ rw other refl;
  configuration = refl;
}

reset_session-SameSession :
    (session key : Text) (d : LoopDetector)
    → (session == key) ≡ false
    → SameSession key (reset_session session d) d
unfolding reset_session get_session
reset_session-SameSession session key d other = record {
  history = ap history_or_empty kept;
  configuration = refl;
}
  where
    kept : get key (remove session d.sessions) ≡ get key d.sessions
    kept = rw (get-remove session key d.sessions, other) refl

module _ {A : Type 0} (hashing : Hashing A) where
  step-SameSession :
      (op : Op A) (key : Text) (d : LoopDetector)
      → (session_of op == key) ≡ false
      → SameSession key (step hashing d op) d
  unfolding step before_execute after_execute
  step-SameSession (before session tool args) key d other =
      set_session-SameSession session key _ d other
  step-SameSession (after session tool args result) key d other =
      set_session-SameSession session key _ d other
  step-SameSession (reset session) key d other = reset_session-SameSession session key d other

  run-SameSession :
      (ops : List (Op A)) (key : Text) (d : LoopDetector)
      → Avoids key ops
      → SameSession key (run hashing d ops) d
  unfolding run
  run-SameSession [] key d avoids = record { history = refl; configuration = refl }
  run-SameSession (op ∷ ops) key d avoids =
      let rest = run-SameSession ops key (step hashing d op) avoids.1 in
      let this = step-SameSession op key d avoids.0 in
      record {
        history = rest.history ∙ this.history;
        configuration = rest.configuration ∙ this.configuration;
      }

  -- Whatever calls, results and resets of other sessions come before, the verdict on a call is the
  -- one it would get without them.
  pub before_execute_isolated :
      (d : LoopDetector) (ops : List (Op A)) (session tool : Text) (args : A)
      → Avoids session ops
      → (before_execute hashing session tool args (run hashing d ops)).0
        ≡ (before_execute hashing session tool args d).0
  unfolding before_execute
  before_execute_isolated d ops session tool args avoids =
      let same = run-SameSession ops session d avoids in
      ap (λ c. detect c tool (hash_args hashing args) (get_session session (run hashing d ops)))
        same.configuration
      ∙ ap (detect d.config tool (hash_args hashing args)) same.history
