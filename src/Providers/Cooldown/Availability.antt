-- ===== src/Providers/Cooldown/Availability.antt =====
-- When a provider may be called again: IsAvailable, CooldownRemaining, MarkFailure, MarkSuccess.
use aetherclaw.Common.{
  ℕ, zero, suc, ◌+◌, ◌-◌, ◌*◌, ◌^◌, ◌≤◌, min, max, ◌≡◌, refl, ◌≢◌, inl, inr, true, false, Option,
  none, some, arith, leb, if◌then◌else◌, ◌==◌, nat_key, eq_iff, eq_refl, Option-cases,
}
use mathlib.Core.Option
use aetherclaw.Common.Text.{Text, text_key}
use aetherclaw.Common.Dict.{get, get-put}
use aetherclaw.Providers.Types.{FailoverReason, reason_key}
use aetherclaw.Providers.Cooldown.{
  CooldownTracker, CooldownEntry, millisecond, hour, calculate_standard_cooldown,
  calculate_billing_cooldown, fail_entry, mark_failure, succeed_entry, mark_success, is_pending,
  entry_available, is_available, extend_remaining, entry_remaining, cooldown_remaining, error_count,
  failure_count, get_or_create, entry_or_new,
}

entry_available-remaining :
    (e : CooldownEntry) (now later : ℕ)
    → now ≤ later
    → entry_available later e ≡ leb (now + entry_remaining now e) later
unfolding entry_available entry_remaining
entry_available-remaining e now later h = go e.disabled_until e.cooldown_end
  where
    go :
        (d c : Option ℕ)
        → (if is_pending later d then false else if is_pending later c then false else true)
          ≡ leb (now + extend_remaining now c (extend_remaining now d 0)) later
    go none none = ground arith
    go none (some t) = ground arith
    go (some s) none = ground arith
    go (some s) (some t) = ground arith

-- From a call of CooldownRemaining at `now` on, with no other call between, IsAvailable answers
-- true exactly from the moment at which the reported duration has passed.
pub is_available-cooldown_remaining :
    (ct : CooldownTracker) (provider : Text) (now later : ℕ)
    → now ≤ later
    → is_available ct later provider ≡ leb (now + cooldown_remaining ct now provider) later
unfolding is_available cooldown_remaining
is_available-cooldown_remaining ct provider now later h =
    elim (Option-cases (get provider ct.entries)) [
      | inl e ↦ rw (e, is_available, cooldown_remaining) (ground arith)
      | inr (x, e) ↦
          rw (e, is_available, cooldown_remaining) (entry_available-remaining x now later h)
    ]

-- The least wait that a failure causes.
abbrev pub minute : ℕ
minute = 60_000 * millisecond

-- calculateStandardCooldown is the table of its comment: 1, 5 and 25 minutes for up to three
-- failures, and an hour from the fourth on.
pub calculate_standard_cooldown_table :
    (n : ℕ)
    → calculate_standard_cooldown n ≡ (
        if leb n 1
        then minute
        else if n == 2
        then 5 * minute
        else if n == 3
        then 25 * minute
        else hour)
unfolding calculate_standard_cooldown
calculate_standard_cooldown_table zero = refl
calculate_standard_cooldown_table (suc zero) = refl
calculate_standard_cooldown_table (suc (suc zero)) = refl
calculate_standard_cooldown_table (suc (suc (suc zero))) = refl
calculate_standard_cooldown_table (suc (suc (suc (suc n)))) =
    let e : min (max 1 (suc (suc (suc (suc n)))) - 1) 3 ≡ 3 = omega arith in rw e (ground arith)

billing_exp : (n : ℕ) → min (max 1 (suc (suc (suc (suc n)))) - 1) 10 ≡ min (n + 3) 10
billing_exp n = omega arith

power_large : (k : ℕ) → 8 ≤ 2 ^ min (k + 3) 10
power_large zero = omega arith
power_large (suc zero) = omega arith
power_large (suc (suc zero)) = omega arith
power_large (suc (suc (suc zero))) = omega arith
power_large (suc (suc (suc (suc zero)))) = omega arith
power_large (suc (suc (suc (suc (suc zero))))) = omega arith
power_large (suc (suc (suc (suc (suc (suc zero)))))) = omega arith
power_large (suc (suc (suc (suc (suc (suc (suc k))))))) =
    let e : min (suc (suc (suc (suc (suc (suc (suc k)))))) + 3) 10 ≡ 10 = omega arith in
    rw e (omega arith)

-- calculateBillingCooldown is the table of its comment: 5, 10 and 20 hours for up to three billing
-- failures, and a day from the fourth on.
pub calculate_billing_cooldown_table :
    (n : ℕ)
    → calculate_billing_cooldown n ≡ (
        if leb n 1
        then 5 * hour
        else if n == 2
        then 10 * hour
        else if n == 3
        then 20 * hour
        else 24 * hour)
unfolding calculate_billing_cooldown
calculate_billing_cooldown_table zero = refl
calculate_billing_cooldown_table (suc zero) = refl
calculate_billing_cooldown_table (suc (suc zero)) = refl
calculate_billing_cooldown_table (suc (suc (suc zero))) = refl
calculate_billing_cooldown_table (suc (suc (suc (suc n)))) =
    rw (billing_exp n) (ground (arith, power_large n))

pub calculate_standard_cooldown_bounds :
    (n : ℕ) → (minute ≤ calculate_standard_cooldown n) × (calculate_standard_cooldown n ≤ hour)
calculate_standard_cooldown_bounds n = rw calculate_standard_cooldown_table (ground arith)

pub calculate_billing_cooldown_bounds :
    (n : ℕ) → (5 * hour ≤ calculate_billing_cooldown n) × (calculate_billing_cooldown n ≤ 24 * hour)
calculate_billing_cooldown_bounds n = rw calculate_billing_cooldown_table (ground arith)

fail_entry_blocks :
    (window now later : ℕ) (reason : FailoverReason) (old : CooldownEntry)
    → now ≤ later
    → entry_available later (fail_entry window now reason old) ≡ true
    → now + minute ≤ later
unfolding fail_entry entry_available
fail_entry_blocks window now later reason old h free =
    grind (arith, calculate_standard_cooldown_bounds, calculate_billing_cooldown_bounds)

pub get-mark_failure :
    (ct : CooldownTracker) (now : ℕ) (p q : Text) (reason : FailoverReason)
    → get q (mark_failure ct now p reason).entries ≡ (
        if p == q
        then some (fail_entry ct.failure_window now reason (entry_or_new (get p ct.entries)))
        else get q ct.entries)
unfolding mark_failure get_or_create
get-mark_failure ct now p q reason = get-put p q _ ct.entries

pub get-mark_success :
    (ct : CooldownTracker) (p q : Text)
    → get q (mark_success ct p).entries
      ≡ (if p == q then Option.map succeed_entry (get p ct.entries) else get q ct.entries)
unfolding mark_success
get-mark_success ct p q = elim (Option-cases (get p ct.entries)) [
  | inl e ↦ rw (e, mark_success) (ground (arith, eq_iff p q, e))
  | inr (x, e) ↦ rw (e, mark_success) (get-put p q _ ct.entries)
]

-- After MarkFailure for whatever reason, the provider stays unavailable for at least a minute.
pub mark_failure_blocks :
    (ct : CooldownTracker) (provider : Text) (reason : FailoverReason) (now later : ℕ)
    → now ≤ later
    → is_available (mark_failure ct now provider reason) later provider ≡ true
    → now + minute ≤ later
unfolding is_available
mark_failure_blocks ct p reason now later h free =
    fail_entry_blocks ct.failure_window now later reason (entry_or_new (get p ct.entries)) h
      (rw (get-mark_failure ct now p p reason, eq_refl p, is_available) at free)

-- What the tracker answers about one provider.
pub record SameAnswers (a b : CooldownTracker) (provider : Text) : Type 0 where
  pub available : (now : ℕ) → is_available a now provider ≡ is_available b now provider
  pub remaining : (now : ℕ) → cooldown_remaining a now provider ≡ cooldown_remaining b now provider
  pub errors : error_count a provider ≡ error_count b provider
  pub failures :
      (reason : FailoverReason) → failure_count a provider reason ≡ failure_count b provider reason

SameAnswers-of_get :
    (a b : CooldownTracker) (provider : Text)
    → get provider a.entries ≡ get provider b.entries
    → SameAnswers a b provider
unfolding is_available cooldown_remaining error_count failure_count
SameAnswers-of_get a b provider e = record {
  available = λ now. rw (e, is_available);
  remaining = λ now. rw (e, cooldown_remaining);
  errors = rw (e, error_count);
  failures = λ reason. rw (e, failure_count);
}

-- MarkFailure and MarkSuccess of one provider change no answer about another.
pub mark-SameAnswers :
    (ct : CooldownTracker) (now : ℕ) (p q : Text) (reason : FailoverReason)
    → p ≢ q
    → SameAnswers (mark_failure ct now p reason) ct q × SameAnswers (mark_success ct p) ct q
mark-SameAnswers ct now p q reason h = (
  SameAnswers-of_get _ ct q (rw get-mark_failure (ground (arith, eq_iff p q))),
  SameAnswers-of_get _ ct q (rw get-mark_success (ground (arith, eq_iff p q))),
)

-- After MarkSuccess the provider is available at every time, and every count of its is zero.
pub mark_success_clears :
    (ct : CooldownTracker) (p : Text) (now : ℕ) (reason : FailoverReason)
    → (is_available (mark_success ct p) now p ≡ true)
      × (cooldown_remaining (mark_success ct p) now p ≡ 0)
      × (error_count (mark_success ct p) p ≡ 0)
      × (failure_count (mark_success ct p) p reason ≡ 0)
unfolding is_available cooldown_remaining error_count failure_count succeed_entry entry_available
    entry_remaining
mark_success_clears ct p now reason =
    rw
      (
        get-mark_success ct p p,
        eq_refl p,
        is_available,
        cooldown_remaining,
        error_count,
        failure_count,
      )
      (ground arith)
