-- ===== src/Tools/Registry/Order.antt =====
-- The names of a registry, sorted (pkg/tools/registry.go).
use aetherclaw.Common.{
  ◌≡◌, refl, sym, ap, ◌∙◌, inl, inr, Bool, true, false, ◌||◌, List, [], ◌∷◌, ◌++◌, ◌==◌, nat_key,
  Bool-cases,
}
use aetherclaw.Common.Text.{Text, text_key}
use aetherclaw.Tools.Registry.{text_leb, insert_sorted, sort_strings}

-- Whether a name is in a list, as a set of names is asked.
unfoldable pub is_listed : Text → List Text → Bool
is_listed name [] = false
is_listed name (x ∷ xs) = x == name || is_listed name xs

or_swap : (a b c : Bool) → (a || (b || c)) ≡ (b || (a || c))
or_swap true true c = refl
or_swap true false c = refl
or_swap false b c = refl

is_listed-insert_sorted :
    (name s : Text) (ss : List Text)
    → is_listed name (insert_sorted s ss) ≡ ((s == name) || is_listed name ss)
unfolding insert_sorted is_listed
is_listed-insert_sorted name s [] = refl
is_listed-insert_sorted name s (t ∷ ss) = elim (Bool-cases (text_leb s t)) [
  | inl e ↦ rw e refl
  | inr e ↦
      rw (e, is_listed-insert_sorted name s ss)
        (or_swap (t == name) (s == name) (is_listed name ss))
]

pub is_listed-sort_strings :
    (name : Text) (ss : List Text) → is_listed name (sort_strings ss) ≡ is_listed name ss
unfolding sort_strings is_listed
is_listed-sort_strings name [] = refl
is_listed-sort_strings name (s ∷ ss) =
    is_listed-insert_sorted name s (sort_strings ss)
    ∙ ap (◌||◌ (s == name)) (is_listed-sort_strings name ss)

pub or_assoc : (a b c : Bool) → ((a || b) || c) ≡ (a || (b || c))
or_assoc true b c = refl
or_assoc false b c = refl

pub is_listed-append :
    (name : Text) (xs ys : List Text)
    → is_listed name (xs ++ ys) ≡ (is_listed name xs || is_listed name ys)
unfolding is_listed
is_listed-append name [] ys = refl
is_listed-append name (x ∷ xs) ys =
    ap (◌||◌ (x == name)) (is_listed-append name xs ys) ∙ sym (or_assoc (x == name) _ _)
