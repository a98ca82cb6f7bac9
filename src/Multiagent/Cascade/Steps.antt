-- ===== src/Multiagent/Cascade/Steps.antt =====
-- The steps of CascadeStop and what each makes of the registry (pkg/multiagent/cascade.go).
use aetherclaw.Common.{
  ℕ, suc, ◌≤◌, ◌<◌, ◌≡◌, refl, sym, ◌∙◌, ◌⊎◌, inl, inr, true, false, Option, none, some, List, [],
  ◌∷◌, arith, if◌then◌else◌, ◌==◌, nat_key, eq_iff, eq_refl, Bool-cases, Option-cases, length,
}
use aetherclaw.Common.Text.{Text, text_key}
use aetherclaw.Common.Dict.{Dict, get, remove, get-remove, length-remove-le}
use aetherclaw.Tools.Registry.Order.{is_listed, is_listed-append}
use aetherclaw.Multiagent.Cascade.{
  ActiveRun, Stopping, keys_of, cancel_run, stop_run, stop_children, cascade_from,
}

-- A run, or a run below it by the keys of the parents.
pub data Below (runs : Dict Text ActiveRun) (root : Text) : Text → Type 0 where
  itself : Below runs root root
  under :
      {key : Text}
      → (run : ActiveRun) → get key runs ≡ some run
      → Below runs root run.parent_key
      → Below runs root key

pub get-keys_of :
    (key : Text) (runs : Dict Text ActiveRun) (run : ActiveRun)
    → get key runs ≡ some run
    → is_listed key (keys_of runs) ≡ true
unfolding get is_listed
get-keys_of key [] run h = cc h
get-keys_of key ((j, v) ∷ runs) run h = elim (Bool-cases (j == key)) [
  | inl e ↦ rw e refl
  | inr e ↦ rw e (get-keys_of key runs run (rw e at h))
]

length-remove-lt :
    (key : Text) (runs : Dict Text ActiveRun) (run : ActiveRun)
    → get key runs ≡ some run
    → length (remove key runs) < length runs
unfolding get remove
length-remove-lt key [] run h = cc h
length-remove-lt key ((j, v) ∷ runs) run h = elim (Bool-cases (j == key)) [
  | inl e ↦ rw e (omega (arith, length-remove-le key runs))
  | inr e ↦ rw e (omega (arith, length-remove-lt key runs run (rw e at h)))
]

-- The steps of the loop over the children, and of the recursion.
module _ (stop : Text → Stopping → Option Stopping) (root key : Text) (keys : List Text)
    (s : Stopping) where
  pub stop_children-absent :
      get key s.registry.runs ≡ none
      → stop_children stop root (key ∷ keys) s ≡ stop_children stop root keys s
  unfolding stop_children
  stop_children-absent e = rw (e, stop_children) refl

  pub stop_children-other :
      (child : ActiveRun)
      → get key s.registry.runs ≡ some child
      → (child.parent_key == root) ≡ false
      → stop_children stop root (key ∷ keys) s ≡ stop_children stop root keys s
  unfolding stop_children
  stop_children-other child e other = rw (e, other, stop_children) refl

  pub stop_children-own :
      (child : ActiveRun) (t : Stopping)
      → get key s.registry.runs ≡ some child
      → (child.parent_key == root) ≡ true
      → stop key s ≡ some t
      → stop_children stop root (key ∷ keys) s ≡ stop_children stop root keys t
  unfolding stop_children
  stop_children-own child t e own f = rw (e, own, f, stop_children) refl

pub cascade_from-fresh :
    (fuel : ℕ) (key : Text) (s : Stopping)
    → is_listed key s.seen ≡ false
    → cascade_from (suc fuel) key s
      ≡ stop_children
          (cascade_from fuel)
          key
          (keys_of (stop_run key s).registry.runs)
          (stop_run key s)
unfolding cascade_from stop_children
cascade_from-fresh fuel key s fresh = rw (fresh, cascade_from) refl

get-stop_run :
    (key k : Text) (s : Stopping)
    → get k (stop_run key s).registry.runs ≡ (if key == k then none else get k s.registry.runs)
unfolding stop_run cancel_run
get-stop_run key k s = elim (Option-cases (get key s.registry.runs)) [
  | inl e ↦ rw (e, stop_run) (ground (arith, eq_iff key k))
  | inr (run, e) ↦ rw (e, stop_run) (get-remove key k s.registry.runs)
]

pub seen-stop_run : (key : Text) (s : Stopping) → (stop_run key s).seen ≡ key ∷ s.seen
unfolding stop_run
seen-stop_run key s = elim (Option-cases (get key s.registry.runs)) [
  | inl e ↦ rw (e, stop_run) refl
  | inr (run, e) ↦ rw (e, stop_run) refl
]

pub key_seen : (key : Text) (s : Stopping) → is_listed key (stop_run key s).seen ≡ true
unfolding is_listed
key_seen key s = rw (seen-stop_run key s, eq_refl key) refl

pub length-stop_run-le :
    (key : Text) (s : Stopping) → length (stop_run key s).registry.runs ≤ length s.registry.runs
unfolding stop_run cancel_run
length-stop_run-le key s = elim (Option-cases (get key s.registry.runs)) [
  | inl e ↦ rw (e, stop_run) (omega arith)
  | inr (run, e) ↦ rw (e, stop_run) (length-remove-le key s.registry.runs)
]

pub length-stop_run-lt :
    (key : Text) (s : Stopping) (run : ActiveRun)
    → get key s.registry.runs ≡ some run
    → length (stop_run key s).registry.runs < length s.registry.runs
unfolding stop_run cancel_run
length-stop_run-lt key s run e = rw (e, stop_run) (length-remove-lt key s.registry.runs run e)

module _ (runs : Dict Text ActiveRun) where
  -- The seen runs are gone and their Cancel is called, the others are as they were.
  pub record Consistent (s : Stopping) : Type 0 where
    pub gone : (k : Text) → is_listed k s.seen ≡ true → get k s.registry.runs ≡ none
    pub kept : (k : Text) → is_listed k s.seen ≡ false → get k s.registry.runs ≡ get k runs
    pub called :
        (k : Text) (run : ActiveRun)
        → get k runs ≡ some run
        → is_listed k s.seen ≡ true
        → is_listed k s.registry.cancelled ≡ true

  -- What a step below `root` makes of the state.
  pub record Stops (root : Text) (s t : Stopping) : Type 0 where
    pub consistent : Consistent t
    pub grows : (k : Text) → is_listed k s.seen ≡ true → is_listed k t.seen ≡ true
    pub sound :
        (k : Text) → is_listed k t.seen ≡ true → (is_listed k s.seen ≡ true) ⊎ Below runs root k
    pub closed :
        (k : Text) (run : ActiveRun)
        → get k runs ≡ some run
        → is_listed run.parent_key t.seen ≡ true
        → is_listed run.parent_key s.seen ≡ false
        → is_listed k t.seen ≡ true
    pub shrinks : length t.registry.runs ≤ length s.registry.runs

  pub stays : (root : Text) (s : Stopping) → Consistent s → Stops root s s
  stays root s c = record {
    consistent = c;
    grows = λ k h. h;
    sound = λ k h. inl h;
    closed = λ k run e new old. cc (new, old);
    shrinks = omega arith;
  }

  Below-trans : (root mid k : Text) → Below runs root mid → Below runs mid k → Below runs root k
  Below-trans root mid _ a itself = a
  Below-trans root mid _ a (under run e b) = under run e (Below-trans root mid _ a b)

  pub composed :
      (root mid : Text) (s t u : Stopping)
      → Below runs root mid
      → Stops mid s t
      → Stops root t u
      → Stops root s u
  composed root mid s t u b st tu = record {
    consistent = tu.consistent;
    grows = λ k h. tu.grows k (st.grows k h);
    sound = λ k h. elim (tu.sound k h) [
      | inr below ↦ inr below
      | inl seen ↦ elim (st.sound k seen) [
        | inl old ↦ inl old
        | inr below ↦ inr (Below-trans root mid k b below)
      ]
    ];
    closed = λ k run e new old. elim (Bool-cases (is_listed run.parent_key t.seen)) [
      | inl early ↦ tu.grows k (st.closed k run e early old)
      | inr late ↦ tu.closed k run e new late
    ];
    shrinks = omega (arith, st.shrinks, tu.shrinks);
  }

  called-stop_run :
      (key k : Text) (s : Stopping) (run : ActiveRun)
      → Consistent s
      → is_listed key s.seen ≡ false
      → get k runs ≡ some run
      → is_listed k (stop_run key s).seen ≡ true
      → is_listed k (stop_run key s).registry.cancelled ≡ true
  unfolding is_listed stop_run cancel_run
  called-stop_run key k s run c fresh e h = elim (Option-cases (get key s.registry.runs)) [
    | inr (r, f) ↦
        rw (f, stop_run, cancel_run, is_listed-append k s.registry.cancelled (key ∷ []))
          (ground (arith, seen-stop_run key s, c.called k run e))
    | inl f ↦
        rw (f, stop_run)
          (ground (arith, seen-stop_run key s, c.called k run e, c.kept key fresh, eq_iff key k))
  ]

  pub stop_run-Consistent :
      (key : Text) (s : Stopping)
      → Consistent s
      → is_listed key s.seen ≡ false
      → Consistent (stop_run key s)
  unfolding is_listed
  stop_run-Consistent key s c fresh = record {
    gone = λ k h. ground (arith, get-stop_run key k s, c.gone k, seen-stop_run key s);
    kept = λ k h. ground (arith, get-stop_run key k s, c.kept k, seen-stop_run key s);
    called = λ k run e h. called-stop_run key k s run c fresh e h;
  }

  pub unseen :
      (s : Stopping)
      → Consistent s
      → (k : Text) (run : ActiveRun) → get k s.registry.runs ≡ some run
      → (is_listed k s.seen ≡ false) × (get k runs ≡ some run)
  unseen s c k run e = elim (Bool-cases (is_listed k s.seen)) [
    | inl h ↦ cc (c.gone k h, e)
    | inr h ↦ (h, sym (c.kept k h) ∙ e)
  ]
