-- ===== src/Providers/AuthRotation/Tests.antt =====
-- Two keys, of which one was used.
use aetherclaw.Common.{ℕ, ◌+◌, ◌⊎◌, inl, [], ◌∷◌, nat_key}
use aetherclaw.Common.Text.{Text, text_key, codes}
use aetherclaw.Providers.Types.{GoError}
use aetherclaw.Providers.AuthRotation.{AuthProfile, AuthRotator, next_available, rotating_chat}
use aetherclaw.Providers.AuthRotation.Oldest.{IsOldest, usable, next_available-IsOldest}
use aetherclaw.Providers.AuthRotation.Isolation.{OnlyPicked, rotating_chat-OnlyPicked}

abbrev key_of : Text → AuthProfile
key_of id = record { id = id; api_key = codes "secret" }

abbrev two_keys : AuthRotator
two_keys = record {
  profiles = key_of (codes "a") ∷ key_of (codes "b") ∷ [];
  cooldown = record { entries = []; failure_window = 100 };
  last_used = (codes "a", 5) ∷ [];
}

abbrev tick : ℕ → ℕ × ℕ
tick w = (w, w + 1)

next_available-IsOldest_example :
    IsOldest two_keys
      (usable tick two_keys two_keys.profiles 10)
      (next_available tick two_keys 10).0
next_available-IsOldest_example = next_available-IsOldest tick two_keys 10

abbrev refusing : Text → Text → ℕ → (GoError ⊎ Text) × ℕ
refusing id model w = (inl (GoError.failed (codes "status: 429")), w)

rotating_chat-OnlyPicked_example :
    OnlyPicked tick refusing
      (codes "a")
      (next_available tick two_keys 10).0
      (rotating_chat tick refusing (codes "m") two_keys 10).1.cooldown
      two_keys.cooldown
rotating_chat-OnlyPicked_example =
    rotating_chat-OnlyPicked tick refusing (codes "a") (codes "m") two_keys 10
