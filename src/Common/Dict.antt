-- ===== src/Common/Dict.antt =====
-- Go's maps as association lists. The order of the entries stands for the order of iteration.
use Prim.Native.Nat.{◌≤◌}
use mathlib.Core.Path.{◌≡◌, refl, ◌∙◌, subst}
use mathlib.Core.Logic.{inl, inr}
use mathlib.Core.Option.{Option, none, some}
use mathlib.Core.List.{List, [], ◌∷◌}
use native.Mathlib.Omega.{arith}
use aetherclaw.Common.Tests.{if◌then◌else◌, Key, ◌==◌, eq_iff, Bool-cases}
use aetherclaw.Common.Lists.{length}

abbrev pub Dict : Type 0 → Type 0 → Type 0
Dict K V = List (K × V)

module _ {K V : Type 0} ⦃key : Key K⦄ where
  -- v, ok := m[k]
  unfoldable pub get : K → Dict K V → Option V
  get k [] = none
  get k ((j, v) ∷ m) = if j == k then some v else get k m

  -- m[k] = v
  unfoldable pub put : K → V → Dict K V → Dict K V
  put k v [] = (k, v) ∷ []
  put k v ((j, w) ∷ m) = if j == k then (k, v) ∷ m else (j, w) ∷ put k v m

  -- delete(m, k)
  unfoldable pub remove : K → Dict K V → Dict K V
  remove k [] = []
  remove k ((j, v) ∷ m) = let rest = remove k m in if j == k then rest else (j, v) ∷ rest

  pub get-put :
      (k j : K) (v : V) (m : Dict K V) → get j (put k v m) ≡ (if k == j then some v else get j m)
  unfolding get put
  get-put k j v [] = refl
  get-put k j v ((i, w) ∷ m) = ground (arith, eq_iff k j, eq_iff i k, eq_iff i j, get-put k j v m)

  pub get-remove :
      (k j : K) (m : Dict K V) → get j (remove k m) ≡ (if k == j then none else get j m)
  unfolding get remove
  get-remove k j [] = ground arith
  get-remove k j ((i, w) ∷ m) = ground (arith, eq_iff k j, eq_iff i k, eq_iff i j, get-remove k j m)

  pub length-remove-le : (k : K) (m : Dict K V) → length (remove k m) ≤ length m
  unfolding remove
  length-remove-le k [] = omega arith
  length-remove-le k ((j, v) ∷ m) = ground (arith, length-remove-le k m)

  -- No two entries have one key.
  abbrev pub NamedOnce : Dict K V → Type 0
  NamedOnce [] = Unit
  NamedOnce ((k, v) ∷ rest) = (get k rest ≡ none) × NamedOnce rest

  pub put-NamedOnce : (k : K) (v : V) (m : Dict K V) → NamedOnce m → NamedOnce (put k v m)
  unfolding put get
  put-NamedOnce k v [] once = (refl, tt)
  put-NamedOnce k v ((j, w) ∷ rest) (fresh, once) = elim (Bool-cases (j == k)) [
    | inl e ↦ rw e (subst (λ n. get n rest ≡ none) ((eq_iff j k).0 e) fresh, once)
    | inr e ↦
        rw e
          (get-put k j v rest ∙ ground (arith, eq_iff k j, eq_iff j k), put-NamedOnce k v rest once)
  ]

  pub remove-NamedOnce : (k : K) (m : Dict K V) → NamedOnce m → NamedOnce (remove k m)
  unfolding remove
  remove-NamedOnce k [] once = tt
  remove-NamedOnce k ((j, w) ∷ rest) (fresh, once) = elim (Bool-cases (j == k)) [
    | inl e ↦ rw e (remove-NamedOnce k rest once)
    | inr e ↦
        rw e (
          get-remove k j rest ∙ ground (arith, eq_iff k j, eq_iff j k),
          remove-NamedOnce k rest once,
        )
  ]

pub ruleset dict_laws = (get-put, get-remove)
