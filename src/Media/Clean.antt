-- ===== src/Media/Clean.antt =====
-- The references that a clean-up removes (pkg/media/store.go).
use aetherclaw.Common.{
  ℕ, ◌-◌, ◌≡◌, refl, sym, ap, ◌∙◌, inl, inr, Bool, true, false, Option, none, some, [], ◌∷◌, arith,
  ltb, leb, if◌then◌else◌, ltb→lt, lt→ltb, leb→le, le→leb, ◌==◌, nat_key, eq_iff, Bool-cases,
}
use aetherclaw.Common.Text.{Text, text_key}
use aetherclaw.Common.Dict.{Dict, get, get-remove, NamedOnce}
use aetherclaw.Media.{
  MediaEntry, FileMediaStore, forget, unlink, expire, clean_entries, clean_media,
}
use aetherclaw.Media.Invariant.{is_present, Linked, get-forget}
use aetherclaw.Media.Calls.{clean_call, life_call, known_from, known, known-none}

abbrev is_old : ℕ → Option MediaEntry → Bool
is_old cutoff none = false
is_old cutoff (some entry) = ltb entry.stored_at cutoff

forget-unlink :
    (ref r : Text) (owner : Option Text) (s : FileMediaStore)
    → (get r (forget ref (unlink ref owner s)).refs ≡ (if ref == r then none else get r s.refs))
      × (get r (forget ref (unlink ref owner s)).ref_to_scope
          ≡ (if ref == r then none else get r s.ref_to_scope))
forget-unlink ref r none s = get-forget ref r s
forget-unlink ref r (some scope) s = (get-remove ref r s.refs, get-remove ref r s.ref_to_scope)

expired-get :
    (old : Bool) (ref r : Text) (s : FileMediaStore)
    → (get r (if old then expire ref s else s).refs
        ≡ (if old then (if ref == r then none else get r s.refs) else get r s.refs))
      × (get r (if old then expire ref s else s).ref_to_scope ≡ (
          if old then (if ref == r then none else get r s.ref_to_scope) else get r s.ref_to_scope))
expired-get true ref r s = forget-unlink ref r (get ref s.ref_to_scope) s
expired-get false ref r s = (refl, refl)

-- one entry of the loop
clean-step :
    {A : Type 0}
    → (old same : Bool) (further : Option MediaEntry) (cutoff : ℕ) (entry : MediaEntry)
    → (x x' : Option A) → ltb entry.stored_at cutoff ≡ old
    → (same ≡ true → further ≡ none)
    → x' ≡ (if old then (if same then none else x) else x)
    → (if is_old cutoff further then none else x')
      ≡ (if is_old cutoff (if same then some entry else further) then none else x)
clean-step true true further cutoff entry x x' o f e = rw (f refl, o, e) refl
clean-step false true further cutoff entry x x' o f e = rw (f refl, o, e) refl
clean-step true false further cutoff entry x x' o f e = rw e refl
clean-step false false further cutoff entry x x' o f e = rw e refl

clean_entries-get :
    (cutoff : ℕ) (entries : Dict Text MediaEntry) (s : FileMediaStore) (r : Text)
    → NamedOnce entries
    → let s' = (clean_entries cutoff entries s).1 in
      (get r s'.refs ≡ (if is_old cutoff (get r entries) then none else get r s.refs))
      × (get r s'.ref_to_scope
          ≡ (if is_old cutoff (get r entries) then none else get r s.ref_to_scope))
unfolding clean_entries get
clean_entries-get cutoff [] s r once = (refl, refl)
clean_entries-get cutoff ((ref, entry) ∷ entries) s r (fresh, once) =
    let old = ltb entry.stored_at cutoff in
    let s1 = if old then expire ref s else s in
    let (a, b) = clean_entries-get cutoff entries s1 r once in
    let absent : (ref == r) ≡ true → get r entries ≡ none =
      λ same. ap (λ t. get t entries) (sym ((eq_iff ref r).0 same)) ∙ fresh in
    let (c, d) = expired-get old ref r s in
    (
      a
          ∙ clean-step old (ref == r) (get r entries) cutoff entry (get r s.refs) (get r s1.refs)
              refl absent c,
      b
          ∙ clean-step old (ref == r) (get r entries) cutoff entry (get r s.ref_to_scope)
              (get r s1.ref_to_scope) refl absent d,
    )

old-life :
    (x : Option MediaEntry) (y : Option Text) (max_age now : ℕ) (r : Text)
    → is_present x ≡ is_present y
    → leb max_age 0 ≡ false
    → known_from
        (if is_old (now - max_age) x then none else x)
        (if is_old (now - max_age) x then none else y)
      ≡ life_call r (clean_call max_age now) (known_from x y)
old-life none none max_age now r p h = refl
old-life none (some t) max_age now r p h = ground arith
old-life (some e) none max_age now r p h = ground arith
old-life (some e) (some t) max_age now r p h =
    let positive : ltb 0 max_age ≡ true = lt→ltb 0 max_age (ground (arith, le→leb max_age 0)) in
    rw positive (known-none (some e) (some t) (ltb e.stored_at (now - max_age)))

kept-life :
    (v : Option (MediaEntry × Text)) (max_age now : ℕ) (r : Text)
    → leb max_age 0 ≡ true
    → v ≡ life_call r (clean_call max_age now) v
kept-life none max_age now r h = refl
kept-life (some (e, t)) max_age now r h =
    let off : ltb 0 max_age ≡ false = ground (arith, ltb→lt 0 max_age, leb→le max_age 0) in
    rw off refl

pub clean_media-life :
    (max_age now : ℕ) (s : FileMediaStore) (r : Text)
    → Linked s
    → known r (clean_media max_age now s).1 ≡ life_call r (clean_call max_age now) (known r s)
unfolding clean_media
clean_media-life max_age now s r linked = elim (Bool-cases (leb max_age 0)) [
  | inl e ↦ rw e (kept-life (known r s) max_age now r e)
  | inr e ↦
      let (a, b) = clean_entries-get (now - max_age) s.refs s r linked.once in
      rw (e, a, b)
        (old-life (get r s.refs) (get r s.ref_to_scope) max_age now r (linked.same_refs r) e)
]
