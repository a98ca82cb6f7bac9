-- ===== src/Common/Text/Filled.antt =====
-- Texts that do not end in white space, and what is put in front of them.
use mathlib.Core.Path.{◌≡◌, refl}
use mathlib.Core.Bool.{false}
use mathlib.Core.List.{[], ◌∷◌, ◌++◌}
use aetherclaw.Common.Text.Defs.{Text, is_empty}
use aetherclaw.Common.Text.Trim.{EndsDense}

-- A text that is not empty and does not end in white space.
pub record EndsFilled (s : Text) : Type 0 where
  pub filled : is_empty s ≡ false
  pub dense : EndsDense s

EndsDense-append : (p m : Text) → is_empty m ≡ false → EndsDense m → EndsDense (p ++ m)
EndsDense-append [] m f h = h
EndsDense-append (c ∷ []) [] f h = cc f
EndsDense-append (c ∷ []) (d ∷ m) f h = h
EndsDense-append (c ∷ d ∷ p) m f h = EndsDense-append (d ∷ p) m f h

is_empty-append : (p m : Text) → is_empty m ≡ false → is_empty (p ++ m) ≡ false
is_empty-append [] m h = h
is_empty-append (c ∷ p) m h = refl

pub EndsFilled-append : (p : Text) {m : Text} → EndsFilled m → EndsFilled (p ++ m)
EndsFilled-append p {m} h = record {
  filled = is_empty-append p m h.filled;
  dense = EndsDense-append p m h.filled h.dense;
}
