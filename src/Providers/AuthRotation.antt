-- ===== src/Providers/AuthRotation.antt =====
-- pkg/providers/auth_rotation.go. `W` is the state of the world; the clock and the providers of the
-- profiles are parameters. A time that was never set is 0, as the zero of time.Time.
pub mod Oldest
pub mod Isolation
mod Tests
use aetherclaw.Common.{
  ℕ, zero, ◌+◌, ◌-◌, ◌/◌, ◌%◌, ◌⊎◌, inl, inr, true, false, Option, none, some, List, [], ◌∷◌, ◌++◌,
  ltb, if◌then◌else◌, nat_key, length,
}
use aetherclaw.Common.Text.{Text, text_key, codes}
use aetherclaw.Common.Dict.{Dict, get, put}
use aetherclaw.Providers.Types.{FailoverReason, GoError, FailoverError, is_retriable}
use aetherclaw.Providers.Cooldown.{CooldownTracker, is_available, mark_failure, mark_success}
use aetherclaw.Providers.Classify.{classify_error}

pub record AuthProfile : Type 0 where
  pub id : Text
  pub api_key : Text

pub record AuthRotator : Type 0 where
  pub profiles : List AuthProfile
  pub cooldown : CooldownTracker
  pub last_used : Dict Text ℕ

unfoldable pub never_used : List AuthProfile → Dict Text ℕ → Dict Text ℕ
never_used [] m = m
never_used (p ∷ ps) m = never_used ps (put p.id 0 m)

unfoldable pub new_auth_rotator : List AuthProfile → CooldownTracker → AuthRotator
new_auth_rotator profiles cooldown = record {
  profiles = profiles;
  cooldown = cooldown;
  last_used = never_used profiles [];
}

abbrev pub time_or_zero : Option ℕ → ℕ
time_or_zero none = 0
time_or_zero (some t) = t

-- r.lastUsed[p.ID]
unfoldable pub last_use : AuthRotator → AuthProfile → ℕ
last_use r p = time_or_zero (get p.id r.last_used)

-- `best` and `bestTime`; `none` while `first` holds
unfoldable pub better_profile :
    AuthRotator → AuthProfile → Option (AuthProfile × ℕ) → Option (AuthProfile × ℕ)
unfolding last_use
better_profile r p none = some (p, last_use r p)
better_profile r p (some (best, best_time)) =
    if ltb (last_use r p) best_time then some (p, last_use r p) else some (best, best_time)

unfoldable pub rotator_failed : ℕ → Text → FailoverReason → AuthRotator → AuthRotator
rotator_failed now profile_id reason r = record {
  profiles = r.profiles;
  cooldown = mark_failure r.cooldown now profile_id reason;
  last_used = r.last_used;
}

unfoldable pub rotator_succeeded : Text → AuthRotator → AuthRotator
rotator_succeeded profile_id r = record {
  profiles = r.profiles;
  cooldown = mark_success r.cooldown profile_id;
  last_used = r.last_used;
}

-- fmt.Sprintf("%s:%d", ...), with the digits of a number as a parameter
unfoldable pub build_from : (ℕ → Text) → Text → ℕ → List Text → List AuthProfile
build_from decimal provider_name i [] = []
build_from decimal provider_name i (key ∷ keys) =
    record { id = provider_name ++ (codes ":" ++ decimal i); api_key = key }
    ∷ build_from decimal provider_name (i + 1) keys

unfoldable pub build_auth_profiles : (ℕ → Text) → Text → List Text → List AuthProfile
build_auth_profiles decimal provider_name api_keys = build_from decimal provider_name 0 api_keys

module _ {W : Type 0} (now_func : W → ℕ × W) where
  -- the loop of NextAvailable
  unfoldable pub scan_profiles :
      AuthRotator → List AuthProfile → Option (AuthProfile × ℕ) → W → Option (AuthProfile × ℕ) × W
  unfolding better_profile
  scan_profiles r [] best w = (best, w)
  scan_profiles r (p ∷ ps) best w =
      let (now, w') = now_func w in
      elim (is_available r.cooldown now p.id) [
        | false ↦ scan_profiles r ps best w'
        | true ↦ scan_profiles r ps (better_profile r p best) w'
      ]

  -- the stamp on the profile that was found
  abbrev pub stamped :
      AuthRotator → Option (AuthProfile × ℕ) × W → Option AuthProfile × AuthRotator × W
  stamped r (none, w) = (none, r, w)
  stamped r (some (best, best_time), w) =
      let (now, w') = now_func w in
      (
        some best,
        record {
          profiles = r.profiles;
          cooldown = r.cooldown;
          last_used = put best.id now r.last_used;
        },
        w',
      )

  unfoldable pub next_available : AuthRotator → W → Option AuthProfile × AuthRotator × W
  unfolding scan_profiles
  next_available r w = stamped r (scan_profiles r r.profiles none w)

  unfoldable pub available_count : AuthRotator → List AuthProfile → ℕ → W → ℕ × W
  available_count r [] count w = (count, w)
  available_count r (p ∷ ps) count w =
      let (now, w') = now_func w in
      available_count r ps (if is_available r.cooldown now p.id then count + 1 else count) w'

  -- What Chat returns.
  pub data ChatReply (Response : Type 0) : Type 0 where
    all_in_cooldown : ℕ → ChatReply Response
    provider_failed : GoError → ChatReply Response
    provider_responds : Response → ChatReply Response

  module _ {Response : Type 0} (chat : Text → Text → W → (GoError ⊎ Response) × W) where
    -- the classified error of a profile
    abbrev pub record_classified :
        AuthProfile → Option FailoverError → AuthRotator → W → AuthRotator × W
    record_classified profile none r w = (r, w)
    record_classified profile (some fail_err) r w =
        let (now, w') = now_func w in
        if is_retriable fail_err
        then (rotator_failed now profile.id fail_err.reason r, w')
        else (r, w)

    abbrev pub after_chat :
        AuthProfile
        → Text
        → AuthRotator
        → (GoError ⊎ Response) × W
        → ChatReply Response × AuthRotator × W
    after_chat profile model r (inr resp, w) =
        (provider_responds resp, rotator_succeeded profile.id r, w)
    after_chat profile model r (inl err, w) =
        let (r', w') = record_classified profile (classify_error (some err) profile.id model) r w in
        (provider_failed err, r', w')

    -- Chat of AuthRotatingProvider, for the model `model`
    abbrev pub chat_with :
        Text → Option AuthProfile × AuthRotator × W → ChatReply Response × AuthRotator × W
    chat_with model (none, r, w) = (all_in_cooldown (length r.profiles), r, w)
    chat_with model (some profile, r, w) = after_chat profile model r (chat profile.id model w)

    unfoldable pub rotating_chat : Text → AuthRotator → W → ChatReply Response × AuthRotator × W
    rotating_chat model r w = chat_with model (next_available r w)
