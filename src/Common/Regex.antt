-- ===== src/Common/Regex.antt =====
-- What the program uses of Go's package regexp: leftmost-first matching with greedy repetition.
use aetherclaw.Common.Tests.{nat_beq, leb, if◌then◌else◌}
use aetherclaw.Common.Text.{Text, lower}
use Prim.Native.Nat.{ℕ}
use mathlib.Core.Bool.{Bool, true, false, ◌||◌, ◌&&◌, not, xor}
use mathlib.Core.Option.{Option, none, some}
use mathlib.Core.List.{List, [], ◌∷◌, ◌++◌}

-- One item of an expression. A group extends to the end of the expression.
pub data Item : Type 0 where
  one : (ℕ → Bool) → Item
  optional : (ℕ → Bool) → Item
  star : (ℕ → Bool) → Item
  boundary : Item
  group : Item

abbrev pub Regex : Type 0
Regex = List Item

-- \d, \w, \s and the dot
unfoldable pub is_digit : ℕ → Bool
is_digit c = leb b'0' c && leb c b'9'

unfoldable pub is_word : ℕ → Bool
unfolding is_digit
is_word c =
    is_digit c || ((leb b'a' c && leb c b'z') || ((leb b'A' c && leb c b'Z') || nat_beq c b'_'))

unfoldable pub is_blank : ℕ → Bool
is_blank c = nat_beq c 9 || (nat_beq c 10 || (nat_beq c 12 || (nat_beq c 13 || nat_beq c 32)))

unfoldable pub is_any : ℕ → Bool
is_any c = not (nat_beq c 10)

-- a literal, and a literal under (?i)
abbrev pub literal : Text → Regex
literal [] = []
literal (c ∷ s) = one (nat_beq c) ∷ literal s

abbrev pub folded : Text → Regex
folded [] = []
folded (c ∷ s) = one (λ x. nat_beq c (lower x)) ∷ folded s

abbrev pub word_at : Option ℕ → Bool
word_at none = false
word_at (some c) = is_word c

abbrev pub head? : Text → Option ℕ
head? [] = none
head? (c ∷ s) = some c

abbrev pub or_else {ℓ} : {A : Type ℓ} → Option A → Option A → Option A
or_else none b = b
or_else (some a) b = some a

-- A match at the start of the text: `before` is the character in front of it, and the result is
-- what the match holds behind `group`, or all of it where there is none.
unfoldable pub match_at : Regex → Option ℕ → Text → Text → Option Text
match_at [] before taken s = some taken
match_at (one p ∷ r) before taken [] = none
match_at (one p ∷ r) before taken (c ∷ s) = elim (p c) [
  | true ↦ match_at r (some c) (taken ++ c ∷ []) s
  | false ↦ none
]
match_at (optional p ∷ r) before taken [] = match_at r before taken []
match_at (optional p ∷ r) before taken (c ∷ s) =
    let skipped = match_at r before taken (c ∷ s) in
    elim (p c) [
      | true ↦ or_else (match_at r (some c) (taken ++ c ∷ []) s) skipped
      | false ↦ skipped
    ]
match_at (star p ∷ r) before taken [] = match_at r before taken []
match_at (star p ∷ r) before taken (c ∷ s) =
    let ended = match_at r before taken (c ∷ s) in
    elim (p c) [
      | true ↦ or_else (match_at (star p ∷ r) (some c) (taken ++ c ∷ []) s) ended
      | false ↦ ended
    ]
match_at (boundary ∷ r) before taken s =
    if xor (word_at before) (word_at (head? s)) then match_at r before taken s else none
match_at (group ∷ r) before taken s = match_at r before [] s

-- The leftmost match.
unfoldable pub find : Regex → Option ℕ → Text → Option Text
unfolding match_at
find r before [] = match_at r before [] []
find r before (c ∷ s) = elim (match_at r before [] (c ∷ s)) [
  | some m ↦ some m
  | none ↦ find r (some c) s
]

abbrev pub is_some {ℓ} : {A : Type ℓ} → Option A → Bool
is_some none = false
is_some (some a) = true

-- re.FindStringSubmatch(s)[1], with a group, and re.MatchString(s)
unfoldable pub find_submatch : Regex → Text → Option Text
unfolding find
find_submatch r s = find r none s

unfoldable pub match_string : Regex → Text → Bool
unfolding find
match_string r s = is_some (find r none s)
