-- ===== src/Providers/Cooldown.antt =====
-- pkg/providers/cooldown.go. A method is atomic under the tracker's mutex; `now` is what its call
-- of nowFunc returns. Times and durations are nanoseconds, and `none` is the zero time.
pub mod Availability
pub mod History
pub mod Escalation
mod Tests
use aetherclaw.Common.{
  ℕ, suc, ◌+◌, ◌-◌, ◌*◌, ◌^◌, min, max, Bool, true, false, ◌&&◌, not, Option, none, some, [], ltb,
  if◌then◌else◌, ◌==◌,
}
use aetherclaw.Common.Text.{Text, text_key}
use aetherclaw.Common.Dict.{Dict, get, put}
use aetherclaw.Providers.Types.{FailoverReason, billing, reason_key}

abbrev pub millisecond : ℕ
millisecond = 1_000_000

abbrev pub hour : ℕ
hour = 3_600_000 * millisecond

abbrev pub default_failure_window : ℕ
default_failure_window = 24 * hour

pub record CooldownEntry : Type 0 where
  pub errors : ℕ
  pub failure_counts : FailoverReason → ℕ
  pub cooldown_end : Option ℕ
  pub disabled_until : Option ℕ
  pub disabled_reason : Option FailoverReason
  pub last_failure : Option ℕ

pub record CooldownTracker : Type 0 where
  pub entries : Dict Text CooldownEntry
  pub failure_window : ℕ

pub new_cooldown_tracker : CooldownTracker
new_cooldown_tracker = record { entries = []; failure_window = default_failure_window }

pub calculate_standard_cooldown : ℕ → ℕ
calculate_standard_cooldown error_count =
    let n = max 1 error_count in
    let exp = min (n - 1) 3 in let ms = 60_000 * 5 ^ exp in min 3_600_000 ms * millisecond

pub calculate_billing_cooldown : ℕ → ℕ
calculate_billing_cooldown billing_error_count =
    let n = max 1 billing_error_count in
    let exp = min (n - 1) 10 in
    let raw = 5 * 60 * 60 * 1000 * 2 ^ exp in min (24 * 60 * 60 * 1000) raw * millisecond

-- make(map[FailoverReason]int), where a missing reason counts 0
abbrev pub no_failures : FailoverReason → ℕ
no_failures r = 0

abbrev pub count_failure : FailoverReason → (FailoverReason → ℕ) → FailoverReason → ℕ
count_failure r counts q = if r == q then suc (counts q) else counts q

abbrev pub new_entry : CooldownEntry
new_entry = record {
  errors = 0;
  failure_counts = no_failures;
  cooldown_end = none;
  disabled_until = none;
  disabled_reason = none;
  last_failure = none;
}

abbrev pub entry_or_new : Option CooldownEntry → CooldownEntry
entry_or_new none = new_entry
entry_or_new (some e) = e

pub get_or_create : CooldownTracker → Text → CooldownEntry
get_or_create ct provider = entry_or_new (get provider ct.entries)

-- !t.IsZero() && now.Sub(t) > window
pub window_passed : ℕ → ℕ → Option ℕ → Bool
window_passed window now none = false
window_passed window now (some t) = ltb window (now - t)

pub fail_entry : ℕ → ℕ → FailoverReason → CooldownEntry → CooldownEntry
unfolding window_passed
fail_entry window now reason old =
    let reset = window_passed window now old.last_failure in
    let error_count = suc (if reset then 0 else old.errors) in
    let failure_counts = count_failure reason (if reset then no_failures else old.failure_counts) in
    let entry = record old {
      errors = error_count;
      failure_counts = failure_counts;
      last_failure = some now;
    } in
    if reason == billing
    then record entry {
      disabled_until = some (now + calculate_billing_cooldown (failure_counts billing));
      disabled_reason = some billing;
    }
    else record entry { cooldown_end = some (now + calculate_standard_cooldown error_count) }

pub mark_failure : CooldownTracker → ℕ → Text → FailoverReason → CooldownTracker
unfolding get_or_create
mark_failure ct now provider reason = record ct {
  entries =
      put provider (fail_entry ct.failure_window now reason (get_or_create ct provider)) ct.entries;
}

pub succeed_entry : CooldownEntry → CooldownEntry
succeed_entry entry = record entry {
  errors = 0;
  failure_counts = no_failures;
  cooldown_end = none;
  disabled_until = none;
  disabled_reason = none;
}

pub mark_success : CooldownTracker → Text → CooldownTracker
mark_success ct provider = elim (get provider ct.entries) [
  | none ↦ ct
  | some entry ↦ record ct { entries = put provider (succeed_entry entry) ct.entries }
]

-- !t.IsZero() && now.Before(t)
pub is_pending : ℕ → Option ℕ → Bool
is_pending now none = false
is_pending now (some t) = ltb now t

pub entry_available : ℕ → CooldownEntry → Bool
unfolding is_pending
entry_available now entry =
    if is_pending now entry.disabled_until
    then false
    else if is_pending now entry.cooldown_end
    then false
    else true

pub is_available : CooldownTracker → ℕ → Text → Bool
is_available ct now provider = elim (get provider ct.entries) [
  | none ↦ true
  | some entry ↦ entry_available now entry
]

-- one `if` of CooldownRemaining: the new value of `remaining`
pub extend_remaining : ℕ → Option ℕ → ℕ → ℕ
extend_remaining now none remaining = remaining
extend_remaining now (some t) remaining =
    if ltb now t then (let d = t - now in if ltb remaining d then d else remaining) else remaining

pub entry_remaining : ℕ → CooldownEntry → ℕ
unfolding extend_remaining
entry_remaining now entry =
    extend_remaining now entry.cooldown_end (extend_remaining now entry.disabled_until 0)

pub cooldown_remaining : CooldownTracker → ℕ → Text → ℕ
cooldown_remaining ct now provider = elim (get provider ct.entries) [
  | none ↦ 0
  | some entry ↦ entry_remaining now entry
]

pub error_count : CooldownTracker → Text → ℕ
error_count ct provider = elim (get provider ct.entries) [ none ↦ 0 | some entry ↦ entry.errors ]

pub failure_count : CooldownTracker → Text → FailoverReason → ℕ
failure_count ct provider reason = elim (get provider ct.entries) [
  | none ↦ 0
  | some entry ↦ entry.failure_counts reason
]
