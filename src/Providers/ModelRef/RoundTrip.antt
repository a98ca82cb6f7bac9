-- ===== src/Providers/ModelRef/RoundTrip.antt =====
-- ParseModelRef of model_ref.go on the texts that it prints.
use aetherclaw.Common.{
  ℕ, zero, suc, ◌<◌, ◌≡◌, refl, ap, ◌∙◌, subst, inl, inr, false, Option, none, some, [], ◌∷◌, ◌++◌,
  arith, ltb, if◌then◌else◌, ltb→lt, lt→ltb, nat_key, some_inj, Bool-cases, length, take, drop,
}
use aetherclaw.Common.Text.{
  Text, text_key, is_empty, trim_space, trim_space-IsTrimmed, trim_space-eq, IsTrimmed, StartsDense,
  EndsDense, index, is_empty-trim_space,
}
use aetherclaw.Providers.ModelRef.{
  ModelRef, normalize_provider, split_model_ref, bare_model_ref, parse_trimmed, parse_model_ref,
}
use aetherclaw.Providers.ModelRef.Provider.{
  NoSlash, normalize_provider_idem, normalize_provider-NoSlash, normalize_provider-is_empty,
  normalize_provider-IsTrimmed,
}

-- strings.Index finds the first slash: what stands before it has none.
index-NoSlash : (s : Text) (i : ℕ) → index b'/' s ≡ some i → NoSlash (take i s)
unfolding index
index-NoSlash [] i h = cc
index-NoSlash (c ∷ s) zero h = tt
index-NoSlash (c ∷ s) (suc i) h = (ground arith, index-NoSlash s i (ground arith))

index_of_append : (p m : Text) → NoSlash p → index b'/' (p ++ b'/' ∷ m) ≡ some (length p)
unfolding index
index_of_append [] m h = refl
index_of_append (c ∷ p) m h = ground (arith, index_of_append p m h.1, h.0)

take_of_append : (p m : Text) → take (length p) (p ++ m) ≡ p
take_of_append [] m = refl
take_of_append (c ∷ p) m = ap (◌∷◌ c) (take_of_append p m)

drop_of_append : (p m : Text) (c : ℕ) → drop (suc (length p)) (p ++ c ∷ m) ≡ m
drop_of_append [] m c = refl
drop_of_append (d ∷ p) m c = drop_of_append p m c

EndsDense-append : (p m : Text) (c : ℕ) → is_empty m ≡ false → EndsDense m → EndsDense (p ++ c ∷ m)
EndsDense-append [] [] c e h = cc
EndsDense-append [] (d ∷ m) c e h = h
EndsDense-append (b ∷ []) m c e h = EndsDense-append [] m c e h
EndsDense-append (b ∷ d ∷ p) m c e h = EndsDense-append (d ∷ p) m c e h

StartsDense-append : (p m : Text) → is_empty p ≡ false → StartsDense p → StartsDense (p ++ m)
StartsDense-append [] m e h = cc
StartsDense-append (c ∷ p) m e h = h

is_empty-append : (p m : Text) → is_empty (p ++ b'/' ∷ m) ≡ false
is_empty-append [] m = refl
is_empty-append (c ∷ p) m = refl

length-pos : (p : Text) → is_empty p ≡ false → 0 < length p
length-pos [] h = cc
length-pos (c ∷ p) h = omega arith

-- What holds of every reference that is parsed.
pub record IsCanonical (r : ModelRef) : Type 0 where
  pub normal : normalize_provider r.provider ≡ r.provider
  pub no_slash : NoSlash r.provider
  pub named : is_empty r.provider ≡ false
  pub trimmed_provider : IsTrimmed r.provider
  pub present : is_empty r.model ≡ false
  pub trimmed_model : IsTrimmed r.model

normal-IsCanonical :
    (p m : Text)
    → NoSlash p
    → is_empty (trim_space p) ≡ false
    → is_empty m ≡ false
    → IsTrimmed m
    → IsCanonical (record { provider = normalize_provider p; model = m })
normal-IsCanonical p m hs hp hm tm = record {
  normal = normalize_provider_idem p;
  no_slash = normalize_provider-NoSlash p hs;
  named = normalize_provider-is_empty p hp;
  trimmed_provider = normalize_provider-IsTrimmed p;
  present = hm;
  trimmed_model = tm;
}

-- A default provider that can be printed.
pub record IsProvider (p : Text) : Type 0 where
  pub plain : NoSlash p
  pub filled : is_empty (trim_space p) ≡ false

print : ModelRef → Text
print r = r.provider ++ b'/' ∷ r.model

split_model_ref-print :
    (r : ModelRef) → IsCanonical r → split_model_ref (print r) (length r.provider) ≡ some r
unfolding print split_model_ref
split_model_ref-print r c =
    rw
      (
        take_of_append r.provider (b'/' ∷ r.model),
        drop_of_append r.provider r.model b'/',
        c.normal,
        trim_space-eq r.model c.trimmed_model,
        c.present,
      )
      refl

parse_trimmed-print : (r : ModelRef) (d : Text) → IsCanonical r → parse_trimmed (print r) d ≡ some r
unfolding parse_trimmed
parse_trimmed-print r d c =
    let filled : is_empty (print r) ≡ false = unfold print in is_empty-append r.provider r.model in
    let found : index b'/' (print r) ≡ some (length r.provider) =
      unfold print in index_of_append r.provider r.model c.no_slash in
    rw (filled, parse_trimmed, found, lt→ltb 0 (length r.provider) (length-pos r.provider c.named))
      (split_model_ref-print r c)

print-IsTrimmed : (r : ModelRef) → IsCanonical r → IsTrimmed (print r)
unfolding print
print-IsTrimmed r c = (
  StartsDense-append r.provider _ c.named c.trimmed_provider.0,
  EndsDense-append r.provider r.model b'/' c.present c.trimmed_model.1,
)

parse_print : (r : ModelRef) (d : Text) → IsCanonical r → parse_model_ref (print r) d ≡ some r
unfolding parse_model_ref
parse_print r d c =
    ap (λ x. parse_trimmed x d) (trim_space-eq (print r) (print-IsTrimmed r c))
    ∙ parse_trimmed-print r d c

take_dense :
    (s : Text) (i : ℕ)
    → StartsDense s
    → 0 < i
    → is_empty s ≡ false
    → is_empty (trim_space (take i s)) ≡ false
take_dense [] i h p e = cc
take_dense (c ∷ s) zero h p e = elim p [ ]
take_dense (c ∷ s) (suc i) h p e = is_empty-trim_space c (take i s) h

split-IsCanonical :
    (raw : Text) (idx : ℕ) (r : ModelRef)
    → NoSlash (take idx raw)
    → is_empty (trim_space (take idx raw)) ≡ false
    → split_model_ref raw idx ≡ some r
    → IsCanonical r
unfolding split_model_ref
split-IsCanonical raw idx r hs hp h = elim (Bool-cases (is_empty model)) [
  | inl e ↦ cc (rw (e, split_model_ref) at h)
  | inr e ↦
      subst IsCanonical (some_inj (rw (e, split_model_ref) at h))
        (normal-IsCanonical (take idx raw) model hs hp e (trim_space-IsTrimmed _))
]
  where
    model : Text
    model = trim_space (drop (suc idx) raw)

parsed-IsCanonical :
    (raw d : Text) (r : ModelRef)
    → IsProvider d
    → IsTrimmed raw
    → parse_trimmed raw d ≡ some r
    → IsCanonical r
unfolding parse_trimmed
parsed-IsCanonical raw d r hd t h = elim (Bool-cases (is_empty raw)) [
  | inl e ↦ cc (rw (e, parse_trimmed) at h)
  | inr e ↦ indexed (index b'/' raw) refl e (rw (e, parse_trimmed) at h)
]
  where
    bare : is_empty raw ≡ false → some (bare_model_ref raw d) ≡ some r → IsCanonical r
    bare e h =
        subst IsCanonical (some_inj h)
          (unfold bare_model_ref in normal-IsCanonical d raw hd.plain hd.filled e t)

    indexed :
        (o : Option ℕ)
        → index b'/' raw ≡ o
        → is_empty raw ≡ false
        → elim o [
          | none ↦ some (bare_model_ref raw d)
          | some idx ↦ if ltb 0 idx then split_model_ref raw idx else some (bare_model_ref raw d)
        ]
          ≡ some r
        → IsCanonical r
    indexed none i e h = bare e h
    indexed (some idx) i e h = elim (Bool-cases (ltb 0 idx)) [
      | inl q ↦
          split-IsCanonical raw idx r (index-NoSlash raw idx i)
            (take_dense raw idx t.0 (ltb→lt 0 idx q) e) (rw q at h)
      | inr q ↦ bare e (rw q at h)
    ]

-- What ParseModelRef returns, printed as "provider/model", is parsed back whatever the default
-- provider is then. The default provider of the first call has a character that is no white space,
-- and no slash.
pub parse_model_ref_roundtrip :
    (raw d d' : Text) (r : ModelRef)
    → IsProvider d
    → parse_model_ref raw d ≡ some r
    → parse_model_ref (r.provider ++ b'/' ∷ r.model) d' ≡ some r
unfolding parse_model_ref
parse_model_ref_roundtrip raw d d' r hd h =
    unfold print in
    parse_print r d' (parsed-IsCanonical (trim_space raw) d r hd (trim_space-IsTrimmed raw) h)
