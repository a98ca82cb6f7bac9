-- ===== src/Common/Text/Trim.antt =====
-- Laws of lower case and of trimming.
use Prim.Native.Nat.{ℕ}
use mathlib.Core.Path.{◌≡◌, refl, ap, ◌∙◌}
use mathlib.Core.Logic.{inl, inr}
use mathlib.Core.Bool.{false}
use mathlib.Core.List.{[], ◌∷◌}
use native.Mathlib.Omega.{arith}
use aetherclaw.Common.Tests.{Bool-cases}
use aetherclaw.Common.Lists.{All}
use aetherclaw.Common.Text.Defs.{
  Text, is_empty, is_space, lower, to_lower, trim_left, cons_trimmed, trim_right, trim_space,
}

pub lower-lower : (c : ℕ) → lower (lower c) ≡ lower c
unfolding lower
lower-lower c = ground arith

pub to_lower-to_lower : (s : Text) → to_lower (to_lower s) ≡ to_lower s
to_lower-to_lower [] = refl
to_lower-to_lower (c ∷ s) = cc (lower-lower c, to_lower-to_lower s)

pub is_space-lower : (c : ℕ) → is_space (lower c) ≡ is_space c
unfolding is_space lower
is_space-lower c = ground arith

-- The first character is no space.
abbrev pub StartsDense : Text → Type 0
StartsDense [] = Unit
StartsDense (c ∷ s) = is_space c ≡ false

-- The last character is no space.
abbrev pub EndsDense : Text → Type 0
EndsDense [] = Unit
EndsDense (c ∷ []) = is_space c ≡ false
EndsDense (c ∷ d ∷ s) = EndsDense (d ∷ s)

-- Neither end is a space.
abbrev pub IsTrimmed : Text → Type 0
IsTrimmed s = StartsDense s × EndsDense s

trim_left-StartsDense : (s : Text) → StartsDense (trim_left s)
unfolding trim_left
trim_left-StartsDense [] = tt
trim_left-StartsDense (c ∷ s) = ground (arith, trim_left-StartsDense s)

cons_trimmed-EndsDense : (c : ℕ) (r : Text) → EndsDense r → EndsDense (cons_trimmed c r)
cons_trimmed-EndsDense c [] h = ground arith
cons_trimmed-EndsDense c (d ∷ r) h = h

trim_right-EndsDense : (s : Text) → EndsDense (trim_right s)
unfolding trim_right
trim_right-EndsDense [] = tt
trim_right-EndsDense (c ∷ s) = cons_trimmed-EndsDense c (trim_right s) (trim_right-EndsDense s)

cons_trimmed-StartsDense : (c : ℕ) (r : Text) → is_space c ≡ false → StartsDense (cons_trimmed c r)
cons_trimmed-StartsDense c [] h = ground arith
cons_trimmed-StartsDense c (d ∷ r) h = h

trim_right-StartsDense : (s : Text) → StartsDense s → StartsDense (trim_right s)
unfolding trim_right
trim_right-StartsDense [] h = tt
trim_right-StartsDense (c ∷ s) h = cons_trimmed-StartsDense c (trim_right s) h

pub trim_space-IsTrimmed : (s : Text) → IsTrimmed (trim_space s)
unfolding trim_space
trim_space-IsTrimmed s = (
  trim_right-StartsDense (trim_left s) (trim_left-StartsDense s),
  trim_right-EndsDense (trim_left s),
)

trim_left-eq : (s : Text) → StartsDense s → trim_left s ≡ s
unfolding trim_left
trim_left-eq [] h = refl
trim_left-eq (c ∷ s) h = rw h refl

trim_right-eq : (s : Text) → EndsDense s → trim_right s ≡ s
unfolding trim_right
trim_right-eq [] h = refl
trim_right-eq (c ∷ []) h = ground arith
trim_right-eq (c ∷ d ∷ s) h = rw (trim_right-eq (d ∷ s) h) refl

-- A trimmed text is left as it is.
pub trim_space-eq : (s : Text) → IsTrimmed s → trim_space s ≡ s
unfolding trim_space
trim_space-eq s h = ap trim_right (trim_left-eq s h.0) ∙ trim_right-eq s h.1

pub trim_space-trim_space : (s : Text) → trim_space (trim_space s) ≡ trim_space s
trim_space-trim_space s = trim_space-eq (trim_space s) (trim_space-IsTrimmed s)

trim_left-to_lower : (s : Text) → trim_left (to_lower s) ≡ to_lower (trim_left s)
unfolding trim_left
trim_left-to_lower [] = refl
trim_left-to_lower (c ∷ s) = ground (arith, is_space-lower c, trim_left-to_lower s)

cons_trimmed-to_lower :
    (c : ℕ) (r : Text) → cons_trimmed (lower c) (to_lower r) ≡ to_lower (cons_trimmed c r)
cons_trimmed-to_lower c [] = ground (arith, is_space-lower c)
cons_trimmed-to_lower c (d ∷ r) = refl

trim_right-to_lower : (s : Text) → trim_right (to_lower s) ≡ to_lower (trim_right s)
unfolding trim_right
trim_right-to_lower [] = refl
trim_right-to_lower (c ∷ s) =
    ap (cons_trimmed (lower c)) (trim_right-to_lower s) ∙ cons_trimmed-to_lower c (trim_right s)

-- Trimming and lowering commute.
pub trim_space-to_lower : (s : Text) → trim_space (to_lower s) ≡ to_lower (trim_space s)
unfolding trim_space
trim_space-to_lower s = ap trim_right (trim_left-to_lower s) ∙ trim_right-to_lower (trim_left s)

-- Trimming keeps what holds of every character.
module _ (P : ℕ → Type 0) where
  trim_left-All : (s : Text) → All P s → All P (trim_left s)
  unfolding trim_left
  trim_left-All [] h = tt
  trim_left-All (c ∷ s) h = elim (Bool-cases (is_space c)) [
    | inl e ↦ rw e (trim_left-All s h.1)
    | inr e ↦ rw e h
  ]

  cons_trimmed-All : (c : ℕ) (r : Text) → P c → All P r → All P (cons_trimmed c r)
  cons_trimmed-All c [] p h = elim (Bool-cases (is_space c)) [
    | inl e ↦ rw e tt
    | inr e ↦ rw e (p, tt)
  ]
  cons_trimmed-All c (d ∷ r) p h = (p, h)

  trim_right-All : (s : Text) → All P s → All P (trim_right s)
  unfolding trim_right
  trim_right-All [] h = tt
  trim_right-All (c ∷ s) h = cons_trimmed-All c (trim_right s) h.0 (trim_right-All s h.1)

  pub trim_space-All : (s : Text) → All P s → All P (trim_space s)
  unfolding trim_space
  trim_space-All s h = trim_right-All (trim_left s) (trim_left-All s h)

-- A text that does not start with a space is not trimmed away.
pub is_empty-trim_space :
    (c : ℕ) (s : Text) → is_space c ≡ false → is_empty (trim_space (c ∷ s)) ≡ false
unfolding trim_space trim_left trim_right
is_empty-trim_space c s h = rw h (go (trim_right s))
  where
    go : (r : Text) → is_empty (cons_trimmed c r) ≡ false
    go [] = rw h refl
    go (d ∷ r) = refl
