-- ===== src/Providers/ModelRef/Provider.antt =====
-- NormalizeProvider of model_ref.go on its own results.
use aetherclaw.Common.{
  ℕ, ◌≡◌, refl, ap, ◌∙◌, subst, ◌≢◌, inl, inr, false, List, [], ◌∷◌, arith, ◌==◌, nat_key,
  Bool-cases, All,
}
use aetherclaw.Common.Text.{
  Text, text_key, is_empty, lower, to_lower, to_lower-to_lower, trim_space, trim_space-trim_space,
  trim_space-to_lower, trim_space-IsTrimmed, IsTrimmed, is_space, text_beq, trim_left, trim_right,
  trim_space-All,
}
use aetherclaw.Providers.ModelRef.{switch, provider_aliases, normalize_provider}

-- A switch returns one of its values, or its argument.
switch_cases :
    (P : Text → Type 0) (cases : List (Text × Text)) (p : Text)
    → All (λ c. P c.1) cases
    → (switch cases p ≡ p → P p)
    → P (switch cases p)
unfolding switch
switch_cases P [] p vs h = h refl
switch_cases P ((k, v) ∷ cases) p vs h = elim (Bool-cases (p == k)) [
  | inl e ↦ rw e vs.0
  | inr e ↦ rw e (switch_cases P cases p vs.1 (λ q. h (rw e q)))
]

-- What NormalizeProvider looks up is left as it is when it is normalised again.
lowered_trimmed :
    (p : Text) → to_lower (trim_space (to_lower (trim_space p))) ≡ to_lower (trim_space p)
lowered_trimmed p =
    ap to_lower (trim_space-to_lower (trim_space p) ∙ ap to_lower (trim_space-trim_space p))
    ∙ to_lower-to_lower (trim_space p)

-- NormalizeProvider is idempotent: normalised identifiers are canonical.
pub normalize_provider_idem :
    (p : Text) → normalize_provider (normalize_provider p) ≡ normalize_provider p
unfolding normalize_provider
normalize_provider_idem p =
    switch_cases (λ v. switch provider_aliases (to_lower (trim_space v)) ≡ v) provider_aliases
      (to_lower (trim_space p))
      (unfold switch trim_space trim_left trim_right is_space text_beq lower in
        (refl, (refl, (refl, (refl, (refl, (refl, (refl, (refl, (refl, tt))))))))))
      (λ h. ap (switch provider_aliases) (lowered_trimmed p) ∙ h)

-- No character is a slash.
abbrev pub NoSlash : Text → Type 0
NoSlash = All (λ c. c ≢ b'/')

lower-ne-slash : (c : ℕ) → c ≢ b'/' → lower c ≢ b'/'
unfolding lower
lower-ne-slash c h = ground arith

to_lower-NoSlash : (s : Text) → NoSlash s → NoSlash (to_lower s)
to_lower-NoSlash [] h = tt
to_lower-NoSlash (c ∷ s) h = (lower-ne-slash c h.0, to_lower-NoSlash s h.1)

pub normalize_provider-NoSlash : (p : Text) → NoSlash p → NoSlash (normalize_provider p)
unfolding normalize_provider
normalize_provider-NoSlash p h =
    switch_cases NoSlash provider_aliases (to_lower (trim_space p)) (omega arith)
      (λ _. to_lower-NoSlash (trim_space p) (trim_space-All _ p h))

is_empty-map : (s : Text) → is_empty (to_lower s) ≡ is_empty s
is_empty-map [] = refl
is_empty-map (c ∷ s) = refl

pub normalize_provider-is_empty :
    (p : Text) → is_empty (trim_space p) ≡ false → is_empty (normalize_provider p) ≡ false
unfolding normalize_provider
normalize_provider-is_empty p h =
    switch_cases (λ v. is_empty v ≡ false) provider_aliases (to_lower (trim_space p))
      (refl, (refl, (refl, (refl, (refl, (refl, (refl, (refl, (refl, tt)))))))))
      (λ _. is_empty-map (trim_space p) ∙ h)

normalize_provider-trimmed : (p : Text) → trim_space (normalize_provider p) ≡ normalize_provider p
unfolding normalize_provider
normalize_provider-trimmed p =
    switch_cases (λ v. trim_space v ≡ v) provider_aliases (to_lower (trim_space p))
      (unfold trim_space trim_left trim_right is_space in
        (refl, (refl, (refl, (refl, (refl, (refl, (refl, (refl, (refl, tt))))))))))
      (λ _. trim_space-to_lower (trim_space p) ∙ ap to_lower (trim_space-trim_space p))

pub normalize_provider-IsTrimmed : (p : Text) → IsTrimmed (normalize_provider p)
normalize_provider-IsTrimmed p =
    subst IsTrimmed (normalize_provider-trimmed p) (trim_space-IsTrimmed (normalize_provider p))
