-- ===== src/Providers/AuthRotation/Isolation.antt =====
-- What a call of Chat changes in the cooldowns (pkg/providers/auth_rotation.go).
use aetherclaw.Common.{
  ℕ, ◌≡◌, refl, subst, ◌≢◌, ◌⊎◌, inl, inr, Option, none, some, nat_key, Bool-cases,
}
use aetherclaw.Common.Text.{Text, text_key}
use aetherclaw.Providers.Types.{FailoverReason, GoError, FailoverError, is_retriable}
use aetherclaw.Providers.Cooldown.{CooldownTracker}
use aetherclaw.Providers.Cooldown.Availability.{SameAnswers, mark-SameAnswers}
use aetherclaw.Providers.Classify.{classify_error}
use aetherclaw.Providers.AuthRotation.{
  AuthProfile, AuthRotator, next_available, stamped, scan_profiles, record_classified, after_chat,
  chat_with, rotating_chat, rotator_failed, rotator_succeeded,
}

same_answers : (ct : CooldownTracker) (q : Text) → SameAnswers ct ct q
same_answers ct q = record {
  available = λ now. refl;
  remaining = λ now. refl;
  errors = refl;
  failures = λ reason. refl;
}

module _ {W Response : Type 0} (now_func : W → ℕ × W)
    (chat : Text → Text → W → (GoError ⊎ Response) × W) (q : Text) where
  -- The picked profile alone may change.
  abbrev pub OnlyPicked : Option AuthProfile → CooldownTracker → CooldownTracker → Type 0
  OnlyPicked none a b = SameAnswers a b q
  OnlyPicked (some p) a b = p.id ≢ q → SameAnswers a b q

  classified-SameAnswers :
      (p : AuthProfile) (e : Option FailoverError) (r : AuthRotator) (w : W)
      → p.id ≢ q
      → SameAnswers (record_classified now_func chat p e r w).0.cooldown r.cooldown q
  unfolding rotator_failed
  classified-SameAnswers p none r w h = same_answers r.cooldown q
  classified-SameAnswers p (some e) r w h = elim (Bool-cases (is_retriable e)) [
    | inl f ↦ rw f (mark-SameAnswers r.cooldown (now_func w).0 p.id q e.reason h).0
    | inr f ↦ rw f (same_answers r.cooldown q)
  ]

  after_chat-SameAnswers :
      (p : AuthProfile) (model : Text) (r : AuthRotator) (reply : (GoError ⊎ Response) × W)
      → p.id ≢ q
      → SameAnswers (after_chat now_func chat p model r reply).1.cooldown r.cooldown q
  unfolding rotator_succeeded
  after_chat-SameAnswers p model r (inr resp, w) h =
      (mark-SameAnswers r.cooldown 0 p.id q FailoverReason.unknown h).1
  after_chat-SameAnswers p model r (inl err, w) h =
      classified-SameAnswers p (classify_error (some err) p.id model) r w h

  chat_with-OnlyPicked :
      (model : Text) (picked : Option AuthProfile × AuthRotator × W)
      → OnlyPicked picked.0 (chat_with now_func chat model picked).1.cooldown picked.1.cooldown
  chat_with-OnlyPicked model (none, r, w) = same_answers r.cooldown q
  chat_with-OnlyPicked model (some p, r, w) = after_chat-SameAnswers p model r (chat p.id model w)

  stamped-cooldown :
      (r : AuthRotator) (found : Option (AuthProfile × ℕ) × W)
      → (stamped now_func r found).1.cooldown ≡ r.cooldown
  stamped-cooldown r (none, w) = refl
  stamped-cooldown r (some (p, t), w) = refl

  -- A call of Chat changes what the cooldown tracker answers about the picked profile at most: about
  -- every other name it answers as before, and about all names if no profile was available.
  pub rotating_chat-OnlyPicked :
      (model : Text) (r : AuthRotator) (w : W)
      → OnlyPicked
          (next_available now_func r w).0
          (rotating_chat now_func chat model r w).1.cooldown
          r.cooldown
  unfolding rotating_chat next_available
  rotating_chat-OnlyPicked model r w =
      let found = scan_profiles now_func r r.profiles none w in
      subst
        (OnlyPicked (stamped now_func r found).0
          (chat_with now_func chat model (stamped now_func r found)).1.cooldown)
        (stamped-cooldown r found) (chat_with-OnlyPicked model (stamped now_func r found))
