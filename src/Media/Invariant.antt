-- ===== src/Media/Invariant.antt =====
-- How the three maps of the store fit together (pkg/media/store.go).
use aetherclaw.Common.{
  ◌≡◌, refl, sym, ap, ◌∙◌, subst, inl, inr, Bool, true, false, ◌&&◌, ◌||◌, not, Option, none, some,
  List, [], ◌∷◌, arith, if◌then◌else◌, ◌==◌, nat_key, eq_iff, Bool-cases,
}
use aetherclaw.Common.Text.{Text, text_key}
use aetherclaw.Common.Dict.{get, remove, get-remove, NamedOnce, remove-NamedOnce}
use aetherclaw.Media.{
  MediaEntry, FileMediaStore, in_set, add_to_set, delete_from_set, found_set, forget, release_refs,
  release_found,
}

abbrev pub has_scope : Text → Option Text → Bool
has_scope scope none = false
has_scope scope (some other) = other == scope

abbrev pub is_present : {A : Type 0} → Option A → Bool
is_present none = false
is_present (some a) = true

abbrev pub set_of : Text → FileMediaStore → List Text
set_of scope s = found_set (get scope s.scope_to_refs)

-- The references of a scope are those that ref_to_scope gives it, and those are the ones with a file.
pub record Linked (s : FileMediaStore) : Type 0 where
  pub same_scope :
      (ref scope : Text) → in_set ref (set_of scope s) ≡ has_scope scope (get ref s.ref_to_scope)
  pub same_refs : (ref : Text) → is_present (get ref s.refs) ≡ is_present (get ref s.ref_to_scope)
  pub once : NamedOnce s.refs

pub in_set-add_to_set :
    (ref r : Text) (set : List Text) → in_set r (add_to_set ref set) ≡ (ref == r || in_set r set)
unfolding in_set
in_set-add_to_set ref r set = elim (Bool-cases (in_set ref set)) [
  | inl e ↦ elim (Bool-cases (ref == r)) [
    | inl same ↦ rw (e, same) (subst (λ x. in_set x set ≡ true) ((eq_iff ref r).0 same) e)
    | inr other ↦ rw (e, other) refl
  ]
  | inr e ↦ rw e refl
]

pub in_set-delete_from_set :
    (ref r : Text) (set : List Text)
    → in_set r (delete_from_set ref set) ≡ (not (ref == r) && in_set r set)
unfolding in_set delete_from_set
in_set-delete_from_set ref r [] = ground arith
in_set-delete_from_set ref r (other ∷ set) =
    ground (arith, in_set-delete_from_set ref r set, eq_iff other ref, eq_iff other r, eq_iff ref r)

pub get-forget :
    (ref r : Text) (s : FileMediaStore)
    → (get r (forget ref s).refs ≡ (if ref == r then none else get r s.refs))
      × (get r (forget ref s).ref_to_scope ≡ (if ref == r then none else get r s.ref_to_scope))
get-forget ref r s = (get-remove ref r s.refs, get-remove ref r s.ref_to_scope)

release_refs-other :
    {A : Type 0}
    → (b same : Bool) (before after now : Option A) → after ≡ (if b then none else now)
    → now ≡ (if same then none else before)
    → after ≡ (if same || b then none else before)
release_refs-other true true before after now h g = h
release_refs-other true false before after now h g = h
release_refs-other false true before after now h g = h ∙ g
release_refs-other false false before after now h g = h ∙ g

pub release_refs-get :
    (set : List Text) (s : FileMediaStore) (r : Text)
    → let s' = (release_refs set s).1 in
      (get r s'.refs ≡ (if in_set r set then none else get r s.refs))
      × (get r s'.ref_to_scope ≡ (if in_set r set then none else get r s.ref_to_scope))
      × (s'.scope_to_refs ≡ s.scope_to_refs)
unfolding release_refs in_set
release_refs-get [] s r = (refl, refl, refl)
release_refs-get (ref ∷ set) s r =
    let (a, b, c) = release_refs-get set (forget ref s) r in
    let (d, e) = get-forget ref r s in
    (
      release_refs-other (in_set r set) (ref == r) _ _ _ a d,
      release_refs-other (in_set r set) (ref == r) _ _ _ b e,
      c,
    )

-- what the store knows of a reference
abbrev pub lookup : Text → FileMediaStore → Option MediaEntry × Option Text
lookup ref s = (get ref s.refs, get ref s.ref_to_scope)

release_refs-once :
    (set : List Text) (s : FileMediaStore)
    → NamedOnce s.refs
    → NamedOnce (release_refs set s).1.refs
unfolding release_refs
release_refs-once [] s once = once
release_refs-once (ref ∷ set) s once =
    release_refs-once set (forget ref s) (remove-NamedOnce ref s.refs once)

released-scopes :
    (ref scope other : Text) (y : Option Text) (m : Bool) (x : Option (List Text))
    → m ≡ has_scope scope y
    → in_set ref (found_set x) ≡ has_scope other y
    → in_set ref (found_set (if scope == other then none else x))
      ≡ has_scope other (if m then none else y)
unfolding in_set
released-scopes ref scope other y m x h g = elim (Bool-cases (scope == other)) [
  | inl e ↦
      let same : has_scope scope y ≡ has_scope other y =
        ap (λ t. has_scope t y) ((eq_iff scope other).0 e) in
      rw e (gone y m (h ∙ same))
  | inr e ↦ rw e (g ∙ left e y m h)
]
  where
    gone :
        (y : Option Text) (m : Bool)
        → m ≡ has_scope other y
        → false ≡ has_scope other (if m then none else y)
    gone y true h = refl
    gone y false h = h

    left :
        (scope == other) ≡ false
        → (y : Option Text) (m : Bool) → m ≡ has_scope scope y
        → has_scope other y ≡ has_scope other (if m then none else y)
    left e none true h = refl
    left e none false h = refl
    left e (some t) m h = ground (arith, h, e, eq_iff t scope, eq_iff t other, eq_iff scope other)

pub release_found-Linked :
    (scope : Text) (s : FileMediaStore) (set : List Text)
    → get scope s.scope_to_refs ≡ some set
    → Linked s
    → Linked (release_found scope s (some set)).1
release_found-Linked scope s set e linked = record {
  same_scope = λ ref other. scopes ref other;
  same_refs = λ ref.
      let (a, b, c) = release_refs-get set s ref in
      present ref (in_set ref set) (get ref s.refs) (get ref s.ref_to_scope) _ _ a b
        (linked.same_refs ref);
  once = release_refs-once set s linked.once;
}
  where
    present :
        (ref : Text) (b : Bool) (x : Option MediaEntry) (y : Option Text)
        → (x' : Option MediaEntry) (y' : Option Text) → x' ≡ (if b then none else x)
        → y' ≡ (if b then none else y)
        → is_present x ≡ is_present y
        → is_present x' ≡ is_present y'
    present ref true x y x' y' h g p = rw (h, g) refl
    present ref false x y x' y' h g p = rw (h, g) p

    scopes :
        (ref other : Text)
        → let s' = (release_found scope s (some set)).1 in
          in_set ref (set_of other s') ≡ has_scope other (get ref s'.ref_to_scope)
    scopes ref other =
        let (a, b, c) = release_refs-get set s ref in
        let here : in_set ref set ≡ has_scope scope (get ref s.ref_to_scope) =
          ap (λ x. in_set ref (found_set x)) (sym e) ∙ linked.same_scope ref scope in
        ap (λ m. in_set ref (found_set (get other (remove scope m)))) c
        ∙ ap (λ x. in_set ref (found_set x)) (get-remove scope other s.scope_to_refs)
        ∙ released-scopes ref scope other (get ref s.ref_to_scope) (in_set ref set)
            (get other s.scope_to_refs) here (linked.same_scope ref other)
        ∙ ap (has_scope other) (sym b)
