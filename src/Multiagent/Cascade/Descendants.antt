-- ===== src/Multiagent/Cascade/Descendants.antt =====
-- What CascadeStop stops (pkg/multiagent/cascade.go).
use aetherclaw.Common.{
  ℕ, zero, suc, ◌≤◌, ◌<◌, ◌≡◌, refl, sym, ap, ◌∙◌, subst, ◌⊎◌, inl, inr, Bool, true, false, ◌||◌,
  none, some, List, [], ◌∷◌, arith, ◌==◌, nat_key, eq_iff, some_inj, Bool-cases, Option-cases,
  length,
}
use aetherclaw.Common.Text.{Text, text_key}
use aetherclaw.Common.Dict.{Dict, get}
use aetherclaw.Tools.Registry.Order.{is_listed}
use aetherclaw.Multiagent.Cascade.{
  ActiveRun, RunRegistry, Stopping, keys_of, stop_run, stop_children, cascade_from, cascade_stop,
}
use aetherclaw.Multiagent.Cascade.Steps.{
  Below, itself, under, Consistent, Stops, itself, under, get-keys_of, stop_children-absent,
  stop_children-other, stop_children-own, cascade_from-fresh, seen-stop_run, key_seen,
  length-stop_run-le, length-stop_run-lt, stays, composed, stop_run-Consistent, unseen,
}

module _ (runs : Dict Text ActiveRun) where
  -- What a recursive call with enough fuel does.
  abbrev StopsFrom : ℕ → Type 0
  StopsFrom fuel =
      (key : Text) (s : Stopping)
      → Consistent runs s
      → is_listed key s.seen ≡ false
      → length (stop_run key s).registry.runs < fuel
      → (t : Stopping) × (cascade_from fuel key s ≡ some t)
        × Stops runs key s t
        × (is_listed key t.seen ≡ true)

  -- The children among the keys are seen at the end.
  abbrev Visited : Text → List Text → Stopping → Type 0
  Visited root keys t =
      (k : Text) (run : ActiveRun)
      → is_listed k keys ≡ true
      → get k runs ≡ some run
      → run.parent_key ≡ root
      → is_listed k t.seen ≡ true

  abbrev VisitsAll : (fuel : ℕ) (root : Text) (keys : List Text) (s : Stopping) → Type 0
  VisitsAll fuel root keys s =
      (t : Stopping) × (stop_children (cascade_from fuel) root keys s ≡ some t)
      × Stops runs root s t
      × Visited root keys t

  Visited-cons :
      (root key : Text) (keys : List Text) (t : Stopping)
      → Visited root keys t
      → ((run : ActiveRun)
          → get key runs ≡ some run
          → run.parent_key ≡ root
          → is_listed key t.seen ≡ true)
      → Visited root (key ∷ keys) t
  unfolding is_listed
  Visited-cons root key keys t rest first k run h e p = elim (Bool-cases (key == k)) [
    | inr other ↦ rest k run (rw other at h) e p
    | inl same ↦
        let same_key : key ≡ k = (eq_iff key k).0 same in
        subst (λ j. is_listed j t.seen ≡ true) same_key
          (first run (subst (λ j. get j runs ≡ some run) (sym same_key) e) p)
  ]

  module _ (fuel : ℕ) (calls : StopsFrom fuel) (root : Text) where
    -- the children go on after a recursive call for `key`
    after_call :
        (key : Text) (keys : List Text) (s : Stopping) (child : ActiveRun)
        → get key s.registry.runs ≡ some child
        → child.parent_key ≡ root
        → Consistent runs s
        → length s.registry.runs ≤ fuel
        → ((t : Stopping)
            → Consistent runs t
            → length t.registry.runs ≤ fuel
            → VisitsAll fuel root keys t)
        → VisitsAll fuel root (key ∷ keys) s
    after_call key keys s child e own c le rest =
        let (fresh, known) = unseen runs s c key child e in
        let (t, runs_t, st, seen_t) =
          calls key s c fresh (omega (arith, length-stop_run-lt key s child e)) in
        let (u, runs_u, tu, visited) = rest t st.consistent (omega (arith, st.shrinks)) in
        (
          u,
          stop_children-own (cascade_from fuel) root key keys s child t e
                ((eq_iff child.parent_key root).1 own) runs_t
              ∙ runs_u,
          composed runs root key s t u
              (under child known (subst (Below runs root) (sym own) itself)) st tu,
          Visited-cons root key keys u visited (λ run f p. tu.grows key seen_t),
        )

    stop_children-visits :
        (keys : List Text) (s : Stopping)
        → Consistent runs s
        → length s.registry.runs ≤ fuel
        → VisitsAll fuel root keys s
    unfolding stop_children is_listed
    stop_children-visits [] s c le = (s, refl, stays runs root s c, λ k run h e p. cc h)
    stop_children-visits (key ∷ keys) s c le = elim (Option-cases (get key s.registry.runs)) [
      | inl e ↦
          let (t, ends, st, visited) = stop_children-visits keys s c le in
          (
            t,
            stop_children-absent (cascade_from fuel) root key keys s e ∙ ends,
            st,
            Visited-cons root key keys t visited (λ run f p.
                elim (Bool-cases (is_listed key s.seen)) [
                  | inl seen ↦ st.grows key seen
                  | inr not_seen ↦ cc (c.kept key not_seen, e, f)
                ]),
          )
      | inr (child, e) ↦ elim (Bool-cases (child.parent_key == root)) [
        | inl own ↦
            after_call key keys s child e ((eq_iff child.parent_key root).0 own) c le
              (λ t. stop_children-visits keys t)
        | inr other ↦
            let (t, ends, st, visited) = stop_children-visits keys s c le in
            (
              t,
              stop_children-other (cascade_from fuel) root key keys s child e other ∙ ends,
              st,
              Visited-cons root key keys t visited (λ run f p.
                  let same : run ≡ child = some_inj (sym f ∙ (unseen runs s c key child e).1) in
                  cc (
                    sym other
                    ∙ (eq_iff child.parent_key root).1
                        (ap (λ (r : ActiveRun). r.parent_key) (sym same) ∙ p))),
            )
      ]
    ]

  -- the run itself, before its children
  first_stop :
      (key : Text) (s u : Stopping)
      → is_listed key s.seen ≡ false
      → Consistent runs s
      → Stops runs key (stop_run key s) u
      → Visited key (keys_of (stop_run key s).registry.runs) u
      → Stops runs key s u
  unfolding is_listed
  first_stop key s u fresh c tu visited = record {
    consistent = tu.consistent;
    grows = λ k h. tu.grows k (listed_t k ∙ or_right (key == k) (is_listed k s.seen) h);
    sound = λ k h. elim (tu.sound k h) [
      | inr below ↦ inr below
      | inl seen ↦ elim (Bool-cases (key == k)) [
        | inl same ↦ inr (subst (Below runs key) ((eq_iff key k).0 same) itself)
        | inr other ↦ inl (rw other at (sym (listed_t k) ∙ seen))
      ]
    ];
    closed = λ k run e new old. elim (Bool-cases (key == run.parent_key)) [
      | inr other ↦ tu.closed k run e new (listed_t run.parent_key ∙ rw (other, old) refl)
      | inl same ↦ elim (Bool-cases (is_listed k (stop_run key s).seen)) [
        | inl seen ↦ tu.grows k seen
        | inr not_seen ↦
            visited k run
              (get-keys_of k _ run ((stop_run-Consistent runs key s c fresh).kept k not_seen ∙ e)) e
              (sym ((eq_iff key run.parent_key).0 same))
      ]
    ];
    shrinks = omega (arith, tu.shrinks, length-stop_run-le key s);
  }
    where
      or_right : (a b : Bool) → b ≡ true → (a || b) ≡ true
      or_right true b h = refl
      or_right false b h = h

      listed_t : (k : Text) → is_listed k (stop_run key s).seen ≡ (key == k || is_listed k s.seen)
      listed_t k = ap (is_listed k) (seen-stop_run key s)

  cascade_from-stops : (fuel : ℕ) → StopsFrom fuel
  cascade_from-stops zero key s c fresh lt = absurd (omega arith)
  cascade_from-stops (suc fuel) key s c fresh lt =
      let t = stop_run key s in
      let (u, ends, tu, visited) =
        stop_children-visits fuel (cascade_from-stops fuel) key (keys_of t.registry.runs) t
          (stop_run-Consistent runs key s c fresh) (omega arith) in
      (
        u,
        cascade_from-fresh fuel key s fresh ∙ ends,
        first_stop key s u fresh c tu visited,
        tu.grows key (key_seen key s),
      )

Below-seen :
    (runs : Dict Text ActiveRun) (root : Text) (t : Stopping)
    → is_listed root t.seen ≡ true
    → ((k : Text) (run : ActiveRun)
        → get k runs ≡ some run
        → is_listed run.parent_key t.seen ≡ true
        → false ≡ false
        → is_listed k t.seen ≡ true)
    → (k : Text) → Below runs root k
    → is_listed k t.seen ≡ true
Below-seen runs root t seen closed _ itself = seen
Below-seen runs root t seen closed k (under run e b) =
    closed k run e (Below-seen runs root t seen closed run.parent_key b) refl

-- CascadeStop ends, and afterwards each run is either below the stopped one, and then it is out of
-- the registry and its Cancel was called if it was there, or it is not below and is as it was.
pub cascade_stop-Below :
    (root : Text) (r : RunRegistry)
    → (t : Stopping) × (cascade_stop root r ≡ some t)
      × ((k : Text)
          → (Below r.runs root k
              × (get k t.registry.runs ≡ none)
              × ((run : ActiveRun)
                  → get k r.runs ≡ some run
                  → is_listed k t.registry.cancelled ≡ true))
            ⊎ ((¬ Below r.runs root k) × (get k t.registry.runs ≡ get k r.runs)))
unfolding cascade_stop is_listed
cascade_stop-Below root r =
    let (t, ends, st, seen) =
      cascade_from-stops r.runs (suc (length r.runs)) root start started refl
        (omega (arith, length-stop_run-le root start)) in
    let below_seen : (k : Text) → Below r.runs root k → is_listed k t.seen ≡ true =
      Below-seen r.runs root t seen st.closed in
    (
      t,
      ends,
      λ k. elim (Bool-cases (is_listed k t.seen)) [
        | inl is_seen ↦ inl (
          below k (st.sound k is_seen),
          st.consistent.gone k is_seen,
          λ run e. st.consistent.called k run e is_seen,
        )
        | inr not_seen ↦ inr (λ b. cc (below_seen k b, not_seen), st.consistent.kept k not_seen)
      ],
    )
  where
    start : Stopping
    start = record { registry = r; seen = []; killed = 0 }

    started : Consistent r.runs start
    started = record { gone = λ k h. cc h; kept = λ k h. refl; called = λ k run e h. cc h }

    below : (k : Text) → (false ≡ true) ⊎ Below r.runs root k → Below r.runs root k
    below k (inl h) = cc h
    below k (inr b) = b
