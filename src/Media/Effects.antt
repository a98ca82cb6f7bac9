-- ===== src/Media/Effects.antt =====
-- A reference that is stored or released (pkg/media/store.go).
use aetherclaw.Common.{
  ℕ, ◌≡◌, refl, sym, ap, ◌∙◌, inl, inr, Bool, true, false, Option, none, some, List, arith,
  if◌then◌else◌, ◌==◌, nat_key, eq_iff, Bool-cases,
}
use aetherclaw.Common.Text.{Text, text_key}
use aetherclaw.Common.Dict.{get, get-put, put-NamedOnce}
use aetherclaw.Media.{
  MediaMeta, MediaEntry, FileMediaStore, in_set, found_set, store_media, release_found,
}
use aetherclaw.Media.Invariant.{has_scope, is_present, set_of, Linked, release_refs-get}
use aetherclaw.Media.Linked.{stored-scopes}
use aetherclaw.Media.Calls.{
  store_call, release_call, life_call, known_from, known, known-none, absent-scope,
}

found-if :
    (r : Text) (b : Bool) (set : List Text) (x : Option (List Text))
    → in_set r (found_set (if b then some set else x)) ≡ in_set r (if b then set else found_set x)
found-if r true set x = refl
found-if r false set x = refl

present-put :
    (b : Bool) (e : MediaEntry) (t : Text) (x : Option MediaEntry) (y : Option Text)
    → is_present x ≡ is_present y
    → is_present (if b then some e else x) ≡ is_present (if b then some t else y)
present-put true e t x y h = refl
present-put false e t x y h = h

module _ (exists : Bool) (ref : Text) (now : ℕ) (path : Text) (meta : MediaMeta) (scope : Text)
    (s : FileMediaStore) (linked : Linked s) where
  pub store_media-Linked :
      get ref s.refs ≡ none → Linked (store_media exists ref now path meta scope s).1
  unfolding store_media
  store_media-Linked fresh = elim (Bool-cases exists) [
    | inl e ↦ rw e (record {
      same_scope = λ r sc.
          ap (λ x. in_set r (found_set x)) (get-put scope sc _ s.scope_to_refs)
          ∙ found-if r (scope == sc) _ (get sc s.scope_to_refs)
          ∙ stored-scopes ref scope r sc (get r s.ref_to_scope) (set_of scope s) (set_of sc s)
              (λ same.
                ap (λ t. get t s.ref_to_scope) (sym ((eq_iff ref r).0 same))
                ∙ absent-scope (get ref s.refs) (get ref s.ref_to_scope) fresh
                    (linked.same_refs ref))
              (linked.same_scope r scope) (linked.same_scope r sc)
          ∙ ap (has_scope sc) (sym (get-put ref r scope s.ref_to_scope));
      same_refs = λ r.
          ap is_present (get-put ref r _ s.refs)
          ∙ present-put (ref == r) _ scope (get r s.refs) (get r s.ref_to_scope)
              (linked.same_refs r)
          ∙ ap is_present (sym (get-put ref r scope s.ref_to_scope));
      once = put-NamedOnce ref _ s.refs linked.once;
    })
    | inr e ↦ rw e linked
  ]

  pub store_media-life :
      (r : Text)
      → known r (store_media exists ref now path meta scope s).1
        ≡ life_call r (store_call exists ref now path meta scope) (known r s)
  unfolding store_media
  store_media-life r = elim (Bool-cases exists) [
    | inl e ↦ elim (Bool-cases (ref == r)) [
      | inl same ↦
          rw (e, same, get-put ref r _ s.refs, get-put ref r scope s.ref_to_scope, same) refl
      | inr other ↦
          rw (e, other, get-put ref r _ s.refs, get-put ref r scope s.ref_to_scope, other) refl
    ]
    | inr e ↦ rw e refl
  ]

life_call-release :
    (x : Option MediaEntry) (y : Option Text) (b : Bool) (scope : Text) (r : Text)
    → b ≡ has_scope scope y
    → is_present x ≡ is_present y
    → (if b then none else known_from x y) ≡ life_call r (release_call scope) (known_from x y)
life_call-release none none b scope r h p = ground arith
life_call-release none (some t) b scope r h p = ground arith
life_call-release (some e) none b scope r h p = ground arith
life_call-release (some e) (some t) b scope r h p = rw h refl

pub release_found-life :
    (scope : Text) (s : FileMediaStore) (found : Option (List Text)) (r : Text)
    → get scope s.scope_to_refs ≡ found
    → Linked s
    → known r (release_found scope s found).1 ≡ life_call r (release_call scope) (known r s)
unfolding in_set
release_found-life scope s none r e linked =
    life_call-release (get r s.refs) (get r s.ref_to_scope) false scope r
      (ap (λ x. in_set r (found_set x)) (sym e) ∙ linked.same_scope r scope) (linked.same_refs r)
release_found-life scope s (some set) r e linked =
    let (a, b, c) = release_refs-get set s r in
    rw (a, b) (known-none (get r s.refs) (get r s.ref_to_scope) (in_set r set))
    ∙ life_call-release (get r s.refs) (get r s.ref_to_scope) (in_set r set) scope r
        (ap (λ x. in_set r (found_set x)) (sym e) ∙ linked.same_scope r scope) (linked.same_refs r)
