-- ===== src/Providers/Cooldown/Escalation.antt =====
-- How the wait grows while a provider keeps failing.
use aetherclaw.Common.{
  ℕ, suc, ◌+◌, ◌-◌, ◌≤◌, ◌<◌, ◌≡◌, refl, ap, inl, inr, false, Option, none, some, List, [], ◌∷◌,
  arith, if◌then◌else◌, le→ltb, ◌==◌, nat_key, eq_iff, eq_refl, Bool-cases, length,
}
use aetherclaw.Common.Text.{Text, text_key}
use aetherclaw.Common.Dict.{get}
use aetherclaw.Providers.Types.{FailoverReason, reason_key, billing}
use aetherclaw.Providers.Cooldown.{
  CooldownTracker, CooldownEntry, calculate_standard_cooldown, calculate_billing_cooldown,
  count_failure, new_entry, window_passed, fail_entry, mark_failure, entry_remaining,
  cooldown_remaining, error_count, failure_count,
}
use aetherclaw.Providers.Cooldown.Availability.{
  get-mark_failure, calculate_standard_cooldown_bounds, calculate_billing_cooldown_bounds,
}

-- One failure of `p` after the other, for one reason, at the given times.
pub fail_all : CooldownTracker → Text → FailoverReason → List ℕ → CooldownTracker
fail_all ct p reason [] = ct
fail_all ct p reason (t ∷ ts) = fail_all (mark_failure ct t p reason) p reason ts

-- No failure comes more than `window` after the one before it, and the last comes at `now`.
abbrev pub Frequent : ℕ → ℕ → List ℕ → ℕ → Type 0
Frequent window before [] now = before ≡ now
Frequent window before (t ∷ ts) now =
    (before ≤ t) × (t - before ≤ window) × Frequent window t ts now

-- The wait after the n-th failure.
abbrev pub penalty : FailoverReason → ℕ → ℕ
penalty reason n =
    if reason == billing then calculate_billing_cooldown n else calculate_standard_cooldown n

-- The state of an entry after `n` failures for one reason, the last of them at `now`.
record InStreak (reason : FailoverReason) (n now : ℕ) (e : CooldownEntry) : Type 0 where
  errors : e.errors ≡ n
  failures : e.failure_counts reason ≡ n
  last : e.last_failure ≡ some now
  waits :
      (e.disabled_until
        ≡ (if reason == billing then some (now + calculate_billing_cooldown n) else none))
      × (e.cooldown_end
          ≡ (if reason == billing then none else some (now + calculate_standard_cooldown n)))

-- What MarkFailure makes of an entry whose counts it does not reset.
abbrev counted_failure : ℕ → FailoverReason → CooldownEntry → CooldownEntry
counted_failure now reason e =
    let entry = record e {
      errors = suc e.errors;
      failure_counts = count_failure reason e.failure_counts;
      last_failure = some now;
    } in
    if reason == billing
    then record entry {
      disabled_until =
          some (now + calculate_billing_cooldown (count_failure reason e.failure_counts billing));
      disabled_reason = some billing;
    }
    else record entry { cooldown_end = some (now + calculate_standard_cooldown (suc e.errors)) }

fail_entry-counted_failure :
    (window now : ℕ) (reason : FailoverReason) (e : CooldownEntry)
    → window_passed window now e.last_failure ≡ false
    → fail_entry window now reason e ≡ counted_failure now reason e
unfolding fail_entry
fail_entry-counted_failure window now reason e h = rw (h, fail_entry) refl

not_passed :
    (window now before : ℕ) (o : Option ℕ)
    → now - before ≤ window
    → o ≡ some before
    → window_passed window now o ≡ false
unfolding window_passed
not_passed window now before o h e = rw e (le→ltb window (now - before) h)

-- `before` and `n` describe the streak so far; for a new entry both are void.
counted_failure-InStreak :
    (n now : ℕ) (reason : FailoverReason) (e : CooldownEntry)
    → e.errors ≡ n
    → e.failure_counts reason ≡ n
    → (if reason == billing then e.cooldown_end else e.disabled_until) ≡ none
    → InStreak reason (suc n) now (counted_failure now reason e)
counted_failure-InStreak n now reason e he hf hw = elim (Bool-cases (reason == billing)) [
  | inl b ↦
      let r : reason ≡ billing = (eq_iff reason billing).0 b in
      record {
        errors = rw b (ap suc he);
        failures = rw (b, eq_refl reason) (ap suc hf);
        last = rw b refl;
        waits = rw b (cc (r, hf), rw b at hw);
      }
  | inr b ↦ record {
    errors = rw b (ap suc he);
    failures = rw (b, eq_refl reason) (ap suc hf);
    last = rw b refl;
    waits = rw b (rw b at hw, cc he);
  }
]

first_InStreak :
    (window now : ℕ) (reason : FailoverReason)
    → InStreak reason 1 now (fail_entry window now reason new_entry)
first_InStreak window now reason =
    rw (fail_entry-counted_failure window now reason new_entry (unfold window_passed in refl)) (
      counted_failure-InStreak 0 now reason new_entry refl refl
        (elim (Bool-cases (reason == billing)) [ inl b ↦ rw b refl | inr b ↦ rw b refl ]))

next_InStreak :
    (window n before now : ℕ) (reason : FailoverReason) (e : CooldownEntry)
    → now - before ≤ window
    → InStreak reason n before e
    → InStreak reason (suc n) now (fail_entry window now reason e)
next_InStreak window n before now reason e h s =
    rw (fail_entry-counted_failure window now reason e (not_passed window now before _ h s.last)) (
      counted_failure-InStreak n now reason e s.errors s.failures
        (elim (Bool-cases (reason == billing)) [
          | inl b ↦ rw b (rw b at s.waits.1)
          | inr b ↦ rw b (rw b at s.waits.0)
        ]))

penalty-pos : (reason : FailoverReason) (n : ℕ) → 0 < penalty reason n
penalty-pos reason n =
    ground (arith, calculate_standard_cooldown_bounds n, calculate_billing_cooldown_bounds n)

InStreak-remaining :
    (reason : FailoverReason) (n now : ℕ) (e : CooldownEntry)
    → InStreak reason n now e
    → entry_remaining now e ≡ penalty reason n
unfolding entry_remaining
InStreak-remaining reason n now e s = elim (Bool-cases (reason == billing)) [
  | inl b ↦
      let d : e.disabled_until ≡ some (now + calculate_billing_cooldown n) = rw b at s.waits.0 in
      let c : e.cooldown_end ≡ none = rw b at s.waits.1 in
      rw (b, d, c) (ground (arith, calculate_billing_cooldown_bounds n))
  | inr b ↦
      let d : e.disabled_until ≡ none = rw b at s.waits.0 in
      let c : e.cooldown_end ≡ some (now + calculate_standard_cooldown n) = rw b at s.waits.1 in
      rw (b, d, c) (ground (arith, calculate_standard_cooldown_bounds n))
]

failure_window-mark_failure :
    (ct : CooldownTracker) (now : ℕ) (p : Text) (reason : FailoverReason)
    → (mark_failure ct now p reason).failure_window ≡ ct.failure_window
unfolding mark_failure
failure_window-mark_failure ct now p reason = refl

streak :
    (ct : CooldownTracker) (p : Text) (reason : FailoverReason) (n before now : ℕ)
    (e : CooldownEntry) (ts : List ℕ)
    → get p ct.entries ≡ some e
    → InStreak reason n before e
    → Frequent ct.failure_window before ts now
    → (e' : CooldownEntry) × (get p (fail_all ct p reason ts).entries ≡ some e')
      × InStreak reason (n + length ts) now e'
unfolding fail_all
streak ct p reason n before now e [] h s f =
    let q : n + 0 ≡ n = omega arith in (e, h, rw (q, ← f) s)
streak ct p reason n before now e (t ∷ ts) h s f =
    let after = mark_failure ct t p reason in
    let (e', g, s') =
      streak after p reason (suc n) t now (fail_entry ct.failure_window t reason e) ts
        (rw (get-mark_failure ct t p p reason, eq_refl p, h) refl)
        (next_InStreak ct.failure_window n before t reason e f.1 s)
        (rw (failure_window-mark_failure ct t p reason) f.2) in
    let q : n + suc (length ts) ≡ suc n + length ts = omega arith in (e', g, rw q s')

-- A provider without an entry fails at `first` and then at the times `ts`, for one reason and never
-- more than the failure window apart. Then ErrorCount and FailureCount are the number of failures,
-- and the wait from the last one on is the backoff for that number.
pub fail_all_escalates :
    (ct : CooldownTracker) (p : Text) (reason : FailoverReason) (first now : ℕ) (ts : List ℕ)
    → get p ct.entries ≡ none
    → Frequent ct.failure_window first ts now
    → let after = fail_all ct p reason (first ∷ ts) in
      (error_count after p ≡ 1 + length ts)
      × (failure_count after p reason ≡ 1 + length ts)
      × (cooldown_remaining after now p ≡ penalty reason (1 + length ts))
unfolding error_count failure_count cooldown_remaining
fail_all_escalates ct p reason first now ts h f =
    let (e, g, s) =
      streak (mark_failure ct first p reason) p reason 1 first now
        (fail_entry ct.failure_window first reason new_entry) ts
        (rw (get-mark_failure ct first p p reason, eq_refl p, h) refl)
        (first_InStreak ct.failure_window first reason)
        (rw (failure_window-mark_failure ct first p reason) f) in
    unfold fail_all in
    rw (g, error_count, failure_count, cooldown_remaining)
      (s.errors, s.failures, InStreak-remaining reason (1 + length ts) now e s)
