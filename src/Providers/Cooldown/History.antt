-- ===== src/Providers/Cooldown/History.antt =====
-- What holds of the tracker after any history of calls.
use aetherclaw.Common.{
  ℕ, suc, ◌+◌, ◌*◌, ◌≤◌, ◌≡◌, refl, sym, inl, inr, Bool, true, false, Option, none, some, List, [],
  ◌∷◌, arith, if◌then◌else◌, ◌==◌, nat_key, Bool-cases,
}
use mathlib.Core.Option
use aetherclaw.Common.Text.{Text, text_key}
use aetherclaw.Common.Dict.{get}
use aetherclaw.Providers.Types.{
  FailoverReason, reason_key, reason_beq, auth, rate_limit, billing, timeout, format, overloaded,
  unknown,
}
use aetherclaw.Providers.Cooldown.{
  CooldownTracker, CooldownEntry, new_cooldown_tracker, hour, no_failures, count_failure, new_entry,
  entry_or_new, fail_entry, mark_failure, succeed_entry, mark_success, extend_remaining,
  entry_remaining, cooldown_remaining, error_count, failure_count,
}
use aetherclaw.Providers.Cooldown.Availability.{
  get-mark_failure, get-mark_success, calculate_standard_cooldown_bounds,
  calculate_billing_cooldown_bounds,
}

-- The calls that change the tracker.
pub data Call : Type 0 where
  fails : Text → FailoverReason → Call
  succeeds : Text → Call

pub step : CooldownTracker → ℕ × Call → CooldownTracker
step ct (now, fails p reason) = mark_failure ct now p reason
step ct (now, succeeds p) = mark_success ct p

pub run : CooldownTracker → List (ℕ × Call) → CooldownTracker
run ct [] = ct
run ct (c ∷ cs) = run (step ct c) cs

-- The clock does not run backwards from `start`, and shows `now` at the end.
abbrev pub Rising : ℕ → List (ℕ × Call) → ℕ → Type 0
Rising start [] now = start ≤ now
Rising start ((t, c) ∷ cs) now = (start ≤ t) × Rising t cs now

abbrev pub total : (FailoverReason → ℕ) → ℕ
total f = f auth + f rate_limit + f billing + f timeout + f format + f overloaded + f unknown

total-count_failure :
    (r : FailoverReason) (f : FailoverReason → ℕ) → total (count_failure r f) ≡ suc (total f)
unfolding reason_beq
total-count_failure auth f = omega arith
total-count_failure rate_limit f = omega arith
total-count_failure billing f = omega arith
total-count_failure timeout f = omega arith
total-count_failure format f = omega arith
total-count_failure overloaded f = omega arith
total-count_failure unknown f = omega arith

-- An end of a wait that was set at `now` or before.
abbrev pub Within : ℕ → ℕ → Option ℕ → Type 0
Within now span none = Unit
Within now span (some t) = t ≤ now + span

record IsSound (now : ℕ) (e : CooldownEntry) : Type 0 where
  counted : e.errors ≡ total e.failure_counts
  cooling : Within now hour e.cooldown_end
  disabled : Within now (24 * hour) e.disabled_until

Within-later :
    (now later span : ℕ) (o : Option ℕ) → now ≤ later → Within now span o → Within later span o
Within-later now later span none h w = tt
Within-later now later span (some t) h w = omega arith

counted_again :
    (reset : Bool) (r : FailoverReason) (n : ℕ) (f : FailoverReason → ℕ)
    → n ≡ total f
    → suc (if reset then 0 else n) ≡ total (count_failure r (if reset then no_failures else f))
counted_again true r n f h = sym (total-count_failure r no_failures)
counted_again false r n f h = omega (arith, total-count_failure r f)

fail_entry-counted :
    (window now : ℕ) (reason : FailoverReason) (e : CooldownEntry)
    → e.errors ≡ total e.failure_counts
    → (fail_entry window now reason e).errors
      ≡ total (fail_entry window now reason e).failure_counts
unfolding fail_entry
fail_entry-counted window now reason e h = elim (Bool-cases (reason == billing)) [
  | inl b ↦ rw (b, fail_entry) (counted_again _ reason e.errors e.failure_counts h)
  | inr b ↦ rw (b, fail_entry) (counted_again _ reason e.errors e.failure_counts h)
]

fail_entry-IsSound :
    (window before now : ℕ) (reason : FailoverReason) (e : CooldownEntry)
    → before ≤ now
    → IsSound before e
    → IsSound now (fail_entry window now reason e)
unfolding fail_entry
fail_entry-IsSound window before now reason e h s = record {
  counted = fail_entry-counted window now reason e s.counted;
  cooling = elim (Bool-cases (reason == billing)) [
    | inl b ↦ rw (b, fail_entry) (Within-later before now hour e.cooldown_end h s.cooling)
    | inr b ↦ rw (b, fail_entry) (omega (arith, calculate_standard_cooldown_bounds))
  ];
  disabled = elim (Bool-cases (reason == billing)) [
    | inl b ↦ rw (b, fail_entry) (omega (arith, calculate_billing_cooldown_bounds))
    | inr b ↦ rw (b, fail_entry) (Within-later before now (24 * hour) e.disabled_until h s.disabled)
  ];
}

abbrev AllSound : ℕ → Option CooldownEntry → Type 0
AllSound now none = Unit
AllSound now (some e) = IsSound now e

abbrev TrackerIsSound : ℕ → CooldownTracker → Type 0
TrackerIsSound now ct = (p : Text) → AllSound now (get p ct.entries)

new_entry-IsSound : (now : ℕ) → IsSound now new_entry
new_entry-IsSound now = record { counted = refl; cooling = tt; disabled = tt }

entry_or_new-IsSound :
    (now : ℕ) (o : Option CooldownEntry) → AllSound now o → IsSound now (entry_or_new o)
entry_or_new-IsSound now none h = new_entry-IsSound now
entry_or_new-IsSound now (some e) h = h

AllSound-later :
    (before now : ℕ) (o : Option CooldownEntry) → before ≤ now → AllSound before o → AllSound now o
AllSound-later before now none h s = tt
AllSound-later before now (some e) h s = record {
  counted = s.counted;
  cooling = Within-later before now hour e.cooldown_end h s.cooling;
  disabled = Within-later before now (24 * hour) e.disabled_until h s.disabled;
}

AllSound-succeed_entry :
    (now : ℕ) (o : Option CooldownEntry) → AllSound now (Option.map succeed_entry o)
unfolding succeed_entry
AllSound-succeed_entry now none = tt
AllSound-succeed_entry now (some e) = record { counted = refl; cooling = tt; disabled = tt }

step_sound :
    (before now : ℕ) (ct : CooldownTracker) (c : Call)
    → before ≤ now
    → TrackerIsSound before ct
    → TrackerIsSound now (step ct (now, c))
unfolding step
step_sound before now ct (fails p reason) h s q =
    rw (get-mark_failure ct now p q reason) (elim (Bool-cases (p == q)) [
      | inl e ↦ rw e (
          fail_entry-IsSound ct.failure_window before now reason _ h
            (entry_or_new-IsSound before (get p ct.entries) (s p)))
      | inr e ↦ rw e (AllSound-later before now (get q ct.entries) h (s q))
    ])
step_sound before now ct (succeeds p) h s q =
    rw (get-mark_success ct p q) (elim (Bool-cases (p == q)) [
      | inl e ↦ rw e (AllSound-succeed_entry now (get p ct.entries))
      | inr e ↦ rw e (AllSound-later before now (get q ct.entries) h (s q))
    ])

run_sound :
    (start now : ℕ) (ct : CooldownTracker) (cs : List (ℕ × Call))
    → Rising start cs now
    → TrackerIsSound start ct
    → TrackerIsSound now (run ct cs)
unfolding run
run_sound start now ct [] h s q = AllSound-later start now (get q ct.entries) h (s q)
run_sound start now ct ((t, c) ∷ cs) h s q =
    run_sound t now (step ct (t, c)) cs h.1 (step_sound start t ct c h.0 s) q

entry_remaining-le :
    (now : ℕ) (e : CooldownEntry) → IsSound now e → entry_remaining now e ≤ 24 * hour
unfolding entry_remaining
entry_remaining-le now e s = go e.disabled_until e.cooldown_end s.disabled s.cooling
  where
    go :
        (d c : Option ℕ)
        → Within now (24 * hour) d
        → Within now hour c
        → extend_remaining now c (extend_remaining now d 0) ≤ 24 * hour
    go none none hd hc = ground arith
    go none (some t) hd hc = ground arith
    go (some u) none hd hc = ground arith
    go (some u) (some t) hd hc = ground arith

-- After any calls of MarkFailure and MarkSuccess, on any providers, under a clock that does not run
-- backwards, ErrorCount is the sum of FailureCount over the reasons, and CooldownRemaining is at
-- most a day.
pub run_consistent :
    (cs : List (ℕ × Call)) (now : ℕ) (p : Text)
    → Rising 0 cs now
    → (error_count (run new_cooldown_tracker cs) p
        ≡ total (failure_count (run new_cooldown_tracker cs) p))
      × (cooldown_remaining (run new_cooldown_tracker cs) now p ≤ 24 * hour)
unfolding error_count failure_count cooldown_remaining
run_consistent cs now p h = go (get p (run new_cooldown_tracker cs).entries) refl sound
  where
    sound : AllSound now (get p (run new_cooldown_tracker cs).entries)
    sound = run_sound 0 now new_cooldown_tracker cs h (λ q. unfold new_cooldown_tracker get in tt) p

    go :
        (o : Option CooldownEntry)
        → get p (run new_cooldown_tracker cs).entries ≡ o
        → AllSound now o
        → (error_count (run new_cooldown_tracker cs) p
            ≡ total (failure_count (run new_cooldown_tracker cs) p))
          × (cooldown_remaining (run new_cooldown_tracker cs) now p ≤ 24 * hour)
    go none e s = rw (e, error_count, failure_count, cooldown_remaining) (ground arith)
    go (some x) e s =
        rw (e, error_count, failure_count, cooldown_remaining)
          (s.counted, entry_remaining-le now x s)
