-- ===== src/Providers/AuthRotation/Oldest.antt =====
-- Which profile NextAvailable picks (pkg/providers/auth_rotation.go).
use aetherclaw.Common.{
  ℕ, ◌≤◌, ◌<◌, ◌≡◌, refl, sym, ap, ◌∙◌, subst, ◌⊎◌, inl, inr, true, false, Option, none, some, List,
  [], ◌∷◌, arith, ltb, if◌then◌else◌, ltb→lt, nat_key, Bool-cases, All, Has,
}
use aetherclaw.Common.Text.{text_key}
use aetherclaw.Providers.Cooldown.{is_available}
use aetherclaw.Providers.AuthRotation.{
  AuthProfile, AuthRotator, last_use, better_profile, scan_profiles, next_available, stamped,
}

-- The comparison of the loop, without the clock.
abbrev best_of :
    AuthRotator → List AuthProfile → Option (AuthProfile × ℕ) → Option (AuthProfile × ℕ)
best_of r [] best = best
best_of r (p ∷ ps) best = best_of r ps (better_profile r p best)

-- What the best profile of a list is.
abbrev pub IsOldest : AuthRotator → List AuthProfile → Option AuthProfile → Type 0
IsOldest r ps none = ps ≡ []
IsOldest r ps (some p) = Has p ps × All (λ q. last_use r p ≤ last_use r q) ps

abbrev Beats : AuthRotator → AuthProfile → List AuthProfile → Option (AuthProfile × ℕ) → Type 0
Beats r b ps none = ⊥
Beats r b ps (some (c, t)) =
    (t ≡ last_use r c)
    × ((b ≡ c) ⊎ Has c ps)
    × (last_use r c ≤ last_use r b)
    × All (λ q. last_use r c ≤ last_use r q) ps

Beats-newer :
    (r : AuthRotator) (b p : AuthProfile) (ps : List AuthProfile) (best : Option (AuthProfile × ℕ))
    → last_use r p < last_use r b
    → Beats r p ps best
    → Beats r b (p ∷ ps) best
Beats-newer r b p ps none lt h = absurd h
Beats-newer r b p ps (some (c, t)) lt (time, among, le, all) =
    (time, inr among, omega arith, (le, all))

Beats-older :
    (r : AuthRotator) (b p : AuthProfile) (ps : List AuthProfile) (best : Option (AuthProfile × ℕ))
    → last_use r b ≤ last_use r p
    → Beats r b ps best
    → Beats r b (p ∷ ps) best
Beats-older r b p ps none le h = absurd h
Beats-older r b p ps (some (c, t)) le (time, inl same, less, all) =
    (time, inl same, less, (omega arith, all))
Beats-older r b p ps (some (c, t)) le (time, inr among, less, all) =
    (time, inr (inr among), less, (omega arith, all))

better_profile-newer :
    (r : AuthRotator) (b p : AuthProfile)
    → ltb (last_use r p) (last_use r b) ≡ true
    → better_profile r p (some (b, last_use r b)) ≡ some (p, last_use r p)
unfolding better_profile
better_profile-newer r b p e = rw e refl

better_profile-older :
    (r : AuthRotator) (b p : AuthProfile)
    → ltb (last_use r p) (last_use r b) ≡ false
    → better_profile r p (some (b, last_use r b)) ≡ some (b, last_use r b)
unfolding better_profile
better_profile-older r b p e = rw e refl

best_of-Beats :
    (r : AuthRotator) (b : AuthProfile) (ps : List AuthProfile)
    → Beats r b ps (best_of r ps (some (b, last_use r b)))
best_of-Beats r b [] = (refl, inl refl, omega arith, tt)
best_of-Beats r b (p ∷ ps) = elim (Bool-cases (ltb (last_use r p) (last_use r b))) [
  | inl e ↦
      subst (λ x. Beats r b (p ∷ ps) (best_of r ps x)) (sym (better_profile-newer r b p e))
        (Beats-newer r b p ps _ (ltb→lt _ _ e) (best_of-Beats r p ps))
  | inr e ↦
      subst (λ x. Beats r b (p ∷ ps) (best_of r ps x)) (sym (better_profile-older r b p e))
        (Beats-older r b p ps _ (ground arith) (best_of-Beats r b ps))
]

first_of : Option (AuthProfile × ℕ) → Option AuthProfile
first_of none = none
first_of (some (p, t)) = some p

best_of-IsOldest :
    (r : AuthRotator) (ps : List AuthProfile) → IsOldest r ps (first_of (best_of r ps none))
unfolding first_of better_profile
best_of-IsOldest r [] = refl
best_of-IsOldest r (p ∷ ps) = picked (best_of r ps (some (p, last_use r p))) (best_of-Beats r p ps)
  where
    picked :
        (best : Option (AuthProfile × ℕ)) → Beats r p ps best → IsOldest r (p ∷ ps) (first_of best)
    picked none h = absurd h
    picked (some (c, t)) (time, among, le, all) = (among, (le, all))

module _ {W : Type 0} (now_func : W → ℕ × W) (r : AuthRotator) where
  -- The profiles that IsAvailable passes when the loop asks for them.
  abbrev pub usable : List AuthProfile → W → List AuthProfile
  usable [] w = []
  usable (p ∷ ps) w =
      let (now, w') = now_func w in
      let rest = usable ps w' in if is_available r.cooldown now p.id then p ∷ rest else rest

  scan_profiles-usable :
      (ps : List AuthProfile) (best : Option (AuthProfile × ℕ)) (w : W)
      → (scan_profiles now_func r ps best w).0 ≡ best_of r (usable ps w) best
  unfolding scan_profiles
  scan_profiles-usable [] best w = refl
  scan_profiles-usable (p ∷ ps) best w =
      elim (Bool-cases (is_available r.cooldown (now_func w).0 p.id)) [
        | inl e ↦
            rw (e, scan_profiles) (scan_profiles-usable ps (better_profile r p best) (now_func w).1)
        | inr e ↦ rw (e, scan_profiles) (scan_profiles-usable ps best (now_func w).1)
      ]

  stamped-first :
      (found : Option (AuthProfile × ℕ) × W) → (stamped now_func r found).0 ≡ first_of found.0
  unfolding first_of
  stamped-first (none, w) = refl
  stamped-first (some (p, t), w) = refl

  -- NextAvailable picks, of the profiles that are not in cooldown when it asks, one that was used
  -- least recently. It returns nil only if there is none.
  pub next_available-IsOldest :
      (w : W) → IsOldest r (usable r.profiles w) (next_available now_func r w).0
  unfolding next_available
  next_available-IsOldest w =
      subst (IsOldest r (usable r.profiles w))
        (sym (
          stamped-first (scan_profiles now_func r r.profiles none w)
          ∙ ap first_of (scan_profiles-usable r.profiles none w)))
        (best_of-IsOldest r (usable r.profiles w))
