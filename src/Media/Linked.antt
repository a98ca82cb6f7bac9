-- ===== src/Media/Linked.antt =====
-- Stores and clean-ups keep the three maps together (pkg/media/store.go).
use aetherclaw.Common.{
  ℕ, ◌≡◌, refl, sym, ap, ◌∙◌, inl, inr, Bool, true, false, Option, none, some, List, [], ◌∷◌, arith,
  ltb, if◌then◌else◌, ◌==◌, nat_key, eq_iff, Bool-cases,
}
use aetherclaw.Common.Text.{Text, text_key, is_empty}
use aetherclaw.Common.Dict.{Dict, get, get-put, get-remove, remove-NamedOnce}
use aetherclaw.Media.{
  MediaEntry, FileMediaStore, in_set, add_to_set, delete_from_set, found_set, forget, without_ref,
  unlink, expire, clean_entries,
}
use aetherclaw.Media.Invariant.{
  has_scope, is_present, set_of, Linked, in_set-add_to_set, in_set-delete_from_set,
}

pub stored-scopes :
    (ref scope r sc : Text) (y : Option Text) (members rest : List Text)
    → ((ref == r) ≡ true → y ≡ none)
    → in_set r members ≡ has_scope scope y
    → in_set r rest ≡ has_scope sc y
    → in_set r (if scope == sc then add_to_set ref members else rest)
      ≡ has_scope sc (if ref == r then some scope else y)
stored-scopes ref scope r sc y members rest fresh h g = elim (Bool-cases (scope == sc)) [
  | inl e ↦ elim (Bool-cases (ref == r)) [
    | inl same ↦ rw (e, same) (in_set-add_to_set ref r members ∙ rw same refl ∙ sym e)
    | inr other ↦
        rw (e, other)
          (in_set-add_to_set ref r members
            ∙ rw other h
            ∙ ap (λ t. has_scope t y) ((eq_iff scope sc).0 e))
  ]
  | inr e ↦ elim (Bool-cases (ref == r)) [
    | inl same ↦ rw (e, same) (g ∙ ap (has_scope sc) (fresh same) ∙ sym e)
    | inr other ↦ rw (e, other) g
  ]
]

without_ref-found :
    (scope ref sc : Text) (scopes : Dict Text (List Text))
    → found_set (get sc (without_ref scope ref scopes)) ≡ (
        if scope == sc
        then delete_from_set ref (found_set (get scope scopes))
        else found_set (get sc scopes))
without_ref-found scope ref sc scopes =
    let set = delete_from_set ref (found_set (get scope scopes)) in
    elim (Bool-cases (is_empty set)) [
      | inl e ↦ elim (Bool-cases (scope == sc)) [
        | inl same ↦ rw (e, get-remove scope sc scopes, same) (sym (empty-nil set e))
        | inr other ↦ rw (e, get-remove scope sc scopes, other) refl
      ]
      | inr e ↦ elim (Bool-cases (scope == sc)) [
        | inl same ↦ rw (e, get-put scope sc set scopes, same) refl
        | inr other ↦ rw (e, get-put scope sc set scopes, other) refl
      ]
    ]
  where
    empty-nil : (set : List Text) → is_empty set ≡ true → set ≡ []
    empty-nil [] e = refl
    empty-nil (x ∷ set) e = ground arith

expired-scopes :
    (ref scope r sc : Text) (y : Option Text) (members rest : List Text)
    → ((ref == r) ≡ true → y ≡ some scope)
    → in_set r members ≡ has_scope scope y
    → in_set r rest ≡ has_scope sc y
    → in_set r (if scope == sc then delete_from_set ref members else rest)
      ≡ has_scope sc (if ref == r then none else y)
expired-scopes ref scope r sc y members rest own h g = elim (Bool-cases (scope == sc)) [
  | inl e ↦ elim (Bool-cases (ref == r)) [
    | inl same ↦ rw (e, same) (in_set-delete_from_set ref r members ∙ rw same refl)
    | inr other ↦
        rw (e, other)
          (in_set-delete_from_set ref r members
            ∙ rw other h
            ∙ ap (λ t. has_scope t y) ((eq_iff scope sc).0 e))
  ]
  | inr e ↦ elim (Bool-cases (ref == r)) [
    | inl same ↦ rw (e, same) (g ∙ ap (has_scope sc) (own same) ∙ e)
    | inr other ↦ rw (e, other) g
  ]
]

present-changed :
    {A : Type 0}
    → (b : Bool) (x : Option MediaEntry) (y : Option A) → is_present x ≡ is_present y
    → is_present (if b then none else x) ≡ is_present (if b then none else y)
present-changed true x y h = refl
present-changed false x y h = h

forget-Linked :
    (ref : Text) (s : FileMediaStore) (owner : Option Text)
    → get ref s.ref_to_scope ≡ owner
    → Linked s
    → Linked (forget ref (unlink ref owner s))
forget-Linked ref s none e linked = record {
  same_scope = λ r sc.
      linked.same_scope r sc
      ∙ kept r sc
      ∙ ap (has_scope sc) (sym (get-remove ref r s.ref_to_scope));
  same_refs = λ r.
      ap is_present (get-remove ref r s.refs)
      ∙ present-changed (ref == r) (get r s.refs) (get r s.ref_to_scope) (linked.same_refs r)
      ∙ ap is_present (sym (get-remove ref r s.ref_to_scope));
  once = remove-NamedOnce ref s.refs linked.once;
}
  where
    kept :
        (r sc : Text)
        → has_scope sc (get r s.ref_to_scope)
          ≡ has_scope sc (if ref == r then none else get r s.ref_to_scope)
    kept r sc = elim (Bool-cases (ref == r)) [
      | inl same ↦ rw same (
          ap (λ t. has_scope sc (get t s.ref_to_scope)) (sym ((eq_iff ref r).0 same))
          ∙ ap (has_scope sc) e)
      | inr other ↦ rw other refl
    ]
forget-Linked ref s (some scope) e linked = record {
  same_scope = λ r sc.
      ap (in_set r) (without_ref-found scope ref sc s.scope_to_refs)
      ∙ expired-scopes ref scope r sc (get r s.ref_to_scope) (set_of scope s) (set_of sc s)
          (λ same. ap (λ t. get t s.ref_to_scope) (sym ((eq_iff ref r).0 same)) ∙ e)
          (linked.same_scope r scope) (linked.same_scope r sc)
      ∙ ap (has_scope sc) (sym (get-remove ref r s.ref_to_scope));
  same_refs = λ r.
      ap is_present (get-remove ref r s.refs)
      ∙ present-changed (ref == r) (get r s.refs) (get r s.ref_to_scope) (linked.same_refs r)
      ∙ ap is_present (sym (get-remove ref r s.ref_to_scope));
  once = remove-NamedOnce ref s.refs linked.once;
}

pub clean_entries-Linked :
    (cutoff : ℕ) (entries : Dict Text MediaEntry) (s : FileMediaStore)
    → Linked s
    → Linked (clean_entries cutoff entries s).1
unfolding clean_entries
clean_entries-Linked cutoff [] s linked = linked
clean_entries-Linked cutoff ((ref, entry) ∷ entries) s linked =
    elim (Bool-cases (ltb entry.stored_at cutoff)) [
      | inl old ↦ rw old (
          clean_entries-Linked cutoff entries (expire ref s)
            (forget-Linked ref s (get ref s.ref_to_scope) refl linked))
      | inr new ↦ rw new (clean_entries-Linked cutoff entries s linked)
    ]
