-- ===== src/Tools/LoopDetector/Counted.antt =====
-- The counts of pkg/tools/loop_detector.go are as the relations of Counts say.
use aetherclaw.Common.{
  ℕ, ◌≡◌, refl, sym, ◌∙◌, subst, ◌≢◌, ◌⊎◌, inl, inr, true, false, [], ◌∷◌, arith, ltb,
  if◌then◌else◌, ltb→lt, lt→ltb, ◌==◌, nat_key, eq_iff, Bool-cases,
}
use aetherclaw.Common.Text.{Text, text_key, is_empty}
use aetherclaw.Tools.LoopDetector.{
  ToolCallRecord, History, is_call, count_repeats, alternation, get_ping_pong_streak,
  reference_hash, streak_of, get_no_progress_streak, has_ping_pong_no_progress,
}
use aetherclaw.Tools.LoopDetector.Counts.{
  IsCall, Occurs, nowhere, here, elsewhere, LastResult, newest, older, NoResult, empty, unanswered,
  Unchanged, oldest, changed, unchanged, Streak, no_result, same_result, joined, Alternates, over,
  broken, continued, PingPong, no_record, one_record, not_alternating, alternating, NoProgress,
}

is_empty_iff : (s : Text) → (is_empty s ≡ true → s ≡ []) × (is_empty s ≡ false → s ≢ [])
is_empty_iff [] = (λ e. refl, λ e. cc)
is_empty_iff (c ∷ s) = (λ e. cc, λ e f. cc)

not_empty : (s : Text) → s ≢ [] → is_empty s ≡ false
not_empty [] some_char = absurd (some_char refl)
not_empty (c ∷ s) some_char = refl

is_call-IsCall :
    (tool args : Text) (r : ToolCallRecord)
    → ((is_call tool args r ≡ true) × IsCall tool args r)
      ⊎ ((is_call tool args r ≡ false) × (IsCall tool args r → ⊥))
unfolding is_call
is_call-IsCall tool args r = elim (Bool-cases (r.tool_name == tool)) [
  | inr t ↦ inr (rw t refl, λ c. ground (arith, t, c.0, eq_iff r.tool_name tool))
  | inl t ↦ elim (Bool-cases (r.args_hash == args)) [
    | inr a ↦ inr (rw (t, a) refl, λ c. ground (arith, a, c.1, eq_iff r.args_hash args))
    | inl a ↦ inl (rw (t, a) refl, ((eq_iff r.tool_name tool).0 t, (eq_iff r.args_hash args).0 a))
  ]
]

pub count_repeats-Occurs :
    (tool args : Text) (h : History) → Occurs tool args (count_repeats tool args h) h
unfolding count_repeats
count_repeats-Occurs tool args [] = nowhere
count_repeats-Occurs tool args (r ∷ h) = elim (is_call-IsCall tool args r) [
  | inl (e, c) ↦ rw e (here r c (count_repeats-Occurs tool args h))
  | inr (e, c) ↦ rw e (elsewhere r c (count_repeats-Occurs tool args h))
]

abbrev ReferenceOf : Text → Text → Text → History → Type 0
ReferenceOf tool args [] h = NoResult tool args h
ReferenceOf tool args (c ∷ s) h = LastResult tool args (c ∷ s) h

older-ReferenceOf :
    (tool args result : Text) (r : ToolCallRecord) (h : History)
    → (IsCall tool args r → ⊥) ⊎ (r.result_hash ≡ [])
    → ReferenceOf tool args result h
    → ReferenceOf tool args result (r ∷ h)
older-ReferenceOf tool args [] r h o n = unanswered r o n
older-ReferenceOf tool args (c ∷ s) r h o n = older r o n

newest-ReferenceOf :
    (tool args result : Text) (r : ToolCallRecord) (h : History)
    → IsCall tool args r
    → result ≢ []
    → r.result_hash ≡ result
    → ReferenceOf tool args result (r ∷ h)
newest-ReferenceOf tool args [] r h c ne same = absurd (ne refl)
newest-ReferenceOf tool args (d ∷ s) r h c ne same =
    subst (λ x. LastResult tool args x (r ∷ h)) same (newest r c (λ e. ne (sym same ∙ e)))

reference_hash-ReferenceOf :
    (tool args : Text) (h : History) → ReferenceOf tool args (reference_hash tool args h) h
unfolding reference_hash
reference_hash-ReferenceOf tool args [] = empty
reference_hash-ReferenceOf tool args (r ∷ h) = elim (is_call-IsCall tool args r) [
  | inr (e, c) ↦
      rw e (older-ReferenceOf tool args _ r h (inl c) (reference_hash-ReferenceOf tool args h))
  | inl (e, c) ↦ elim (Bool-cases (is_empty r.result_hash)) [
    | inl q ↦
        rw (e, q)
          (older-ReferenceOf tool args _ r h (inr ((is_empty_iff r.result_hash).0 q))
            (reference_hash-ReferenceOf tool args h))
    | inr q ↦
        rw (e, q) (newest-ReferenceOf tool args _ r h c ((is_empty_iff r.result_hash).1 q) refl)
  ]
]

streak_of-Unchanged :
    (result tool args : Text) (h : History)
    → Unchanged tool args result (streak_of result tool args h) h
unfolding streak_of
streak_of-Unchanged result tool args [] = oldest
streak_of-Unchanged result tool args (r ∷ h) =
    let rest = streak_of-Unchanged result tool args h in
    elim (is_call-IsCall tool args r) [
      | inr (e, c) ↦ rw e (changed r (inl c))
      | inl (e, c) ↦ elim (Bool-cases (is_empty r.result_hash)) [
        | inl q ↦ rw (e, q) (unchanged r c (inl ((is_empty_iff r.result_hash).0 q)) rest)
        | inr q ↦ elim (Bool-cases (r.result_hash == result)) [
          | inl s ↦ rw (e, q, s) (unchanged r c (inr ((eq_iff r.result_hash result).0 s)) rest)
          | inr s ↦
              rw (e, q, s)
                (changed r (
                  inr (
                    (is_empty_iff r.result_hash).1 q,
                    λ same. ground (arith, s, same, eq_iff r.result_hash result),
                  )))
        ]
      ]
    ]

pub get_no_progress_streak-Streak :
    (tool args : Text) (h : History) → Streak tool args (get_no_progress_streak tool args h) h
unfolding get_no_progress_streak
get_no_progress_streak-Streak tool args h =
    go (reference_hash tool args h) (reference_hash-ReferenceOf tool args h)
  where
    go :
        (reference : Text)
        → ReferenceOf tool args reference h
        → Streak tool args (if is_empty reference then 0 else streak_of reference tool args h) h
    go [] found = no_result found refl
    go (c ∷ s) found = same_result (c ∷ s) found (streak_of-Unchanged (c ∷ s) tool args h)

alternation-Alternates : (x y : Text) (h : History) → Alternates x y (alternation x y h) h
unfolding alternation
alternation-Alternates x y [] = over
alternation-Alternates x y (r ∷ h) =
    let it = joined r.tool_name r.args_hash in
    elim (Bool-cases (it == x)) [
      | inl e ↦ rw e (continued r ((eq_iff it x).0 e) (alternation-Alternates y x h))
      | inr e ↦ rw e (broken r (λ same. ground (arith, e, same, eq_iff it x)))
    ]

pub get_ping_pong_streak-PingPong :
    (tool args : Text) (h : History)
    → PingPong (joined tool args) (get_ping_pong_streak tool args h) h
unfolding get_ping_pong_streak
get_ping_pong_streak-PingPong tool args [] = no_record
get_ping_pong_streak-PingPong tool args (r ∷ []) = one_record r
get_ping_pong_streak-PingPong tool args (r ∷ s ∷ h) =
    let current = joined tool args in
    let it = joined r.tool_name r.args_hash in
    elim (Bool-cases (current == it)) [
      | inl e ↦ rw e (not_alternating r s (sym ((eq_iff current it).0 e)))
      | inr e ↦ rw e (
          alternating r s (λ same. ground (arith, e, sym same, eq_iff current it))
            (alternation-Alternates current it (s ∷ h)))
    ]

pub has_ping_pong_no_progress_lem :
    (n : ℕ) (h : History)
    → (has_ping_pong_no_progress n h ≡ true → NoProgress n h)
      × (has_ping_pong_no_progress n h ≡ false → NoProgress n h → ⊥)
unfolding has_ping_pong_no_progress
has_ping_pong_no_progress_lem n [] = (λ e. cc, λ e p. p)
has_ping_pong_no_progress_lem n (r0 ∷ []) = (λ e. cc, λ e p. p)
has_ping_pong_no_progress_lem n (r0 ∷ r1 ∷ []) = (λ e. cc, λ e p. p)
has_ping_pong_no_progress_lem n (r0 ∷ r1 ∷ r2 ∷ []) = (λ e. cc, λ e p. p)
has_ping_pong_no_progress_lem n (r0 ∷ r1 ∷ r2 ∷ r3 ∷ h) =
    let a = r0.result_hash in
    let b = r1.result_hash in
    let c = r2.result_hash in
    let d = r3.result_hash in
    (
      λ e. (
        ground (arith, ltb→lt n 4, lt→ltb n 4),
        (is_empty_iff a).1 (ground arith),
        (is_empty_iff b).1 (ground arith),
        sym ((eq_iff c a).0 (ground arith)),
        sym ((eq_iff d b).0 (ground arith)),
      ),
      λ e (four, some_a, some_b, same_a, same_b).
          let at_least : ltb n 4 ≡ false = ground (arith, ltb→lt n 4, four) in
          let full_a : is_empty a ≡ false = not_empty a some_a in
          let full_b : is_empty b ≡ false = not_empty b some_b in
          let full_c : is_empty c ≡ false = subst (λ x. is_empty x ≡ false) same_a full_a in
          let full_d : is_empty d ≡ false = subst (λ x. is_empty x ≡ false) same_b full_b in
          let even : (c == a) ≡ true = (eq_iff c a).1 (sym same_a) in
          let odd : (d == b) ≡ true = (eq_iff d b).1 (sym same_b) in ground arith,
    )
