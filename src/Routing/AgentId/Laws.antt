-- ===== src/Routing/AgentId/Laws.antt =====
-- The characters and the length of what agent_id.go returns.
use aetherclaw.Common.{
  ℕ, zero, suc, ◌≤◌, ◌<◌, ◌≡◌, refl, inl, inr, Bool, true, false, [], ◌∷◌, arith, ltb, leb,
  if◌then◌else◌, leb→le, ◌==◌, nat_key, Bool-cases, length, take, length-take, All, All-take,
}
use aetherclaw.Common.Text.{Text, text_key, is_empty, to_lower, trim_space}
use aetherclaw.Routing.AgentId.{
  default_agent_id, default_account_id, max_agent_id_length, is_alnum, is_id_char, all_id_chars,
  is_valid_id, replace_invalid, strip_leading, cons_stripped, strip_trailing, replaced, sanitize,
  normalize_agent_id, normalize_account_id,
}

abbrev pub IsIdChar : ℕ → Type 0
IsIdChar c = is_id_char c ≡ true

-- The first character is no dash.
abbrev pub NoDash : Text → Type 0
NoDash [] = Unit
NoDash (c ∷ s) = (c == b'-') ≡ false

-- One to 64 characters of [a-z0-9_-], of which the first is no dash.
pub record IsSafeId (s : Text) : Type 0 where
  pub chars : All IsIdChar s
  pub filled : 0 < length s
  pub short : length s ≤ max_agent_id_length
  pub first : NoDash s

replace_invalid-All : (w : Bool) (s : Text) → All IsIdChar (replace_invalid w s)
unfolding replace_invalid
replace_invalid-All w [] = tt
replace_invalid-All w (c ∷ s) = elim (Bool-cases (is_id_char c)) [
  | inl e ↦ rw e (e, replace_invalid-All false s)
  | inr e ↦ rw e (dash w (replace_invalid-All true s))
]
  where
    dash :
        (b : Bool)
        → All IsIdChar (replace_invalid true s)
        → All IsIdChar (if b then replace_invalid true s else b'-' ∷ replace_invalid true s)
    dash true h = h
    dash false h = (refl, h)

strip_leading-NoDash : (s : Text) → NoDash (strip_leading s)
unfolding strip_leading
strip_leading-NoDash [] = tt
strip_leading-NoDash (c ∷ s) = elim (Bool-cases (c == b'-')) [
  | inl e ↦ rw e (strip_leading-NoDash s)
  | inr e ↦ rw e e
]

module _ (P : ℕ → Type 0) where
  strip_leading-All : (s : Text) → All P s → All P (strip_leading s)
  unfolding strip_leading
  strip_leading-All [] h = tt
  strip_leading-All (c ∷ s) h = elim (Bool-cases (c == b'-')) [
    | inl e ↦ rw e (strip_leading-All s h.1)
    | inr e ↦ rw e h
  ]

  cons_stripped-All : (c : ℕ) (r : Text) → P c → All P r → All P (cons_stripped c r)
  cons_stripped-All c [] p h = elim (Bool-cases (c == b'-')) [
    | inl e ↦ rw e tt
    | inr e ↦ rw e (p, tt)
  ]
  cons_stripped-All c (d ∷ r) p h = (p, h)

  strip_trailing-All : (s : Text) → All P s → All P (strip_trailing s)
  unfolding strip_trailing
  strip_trailing-All [] h = tt
  strip_trailing-All (c ∷ s) h =
      cons_stripped-All c (strip_trailing s) h.0 (strip_trailing-All s h.1)

cons_stripped-NoDash : (c : ℕ) (r : Text) → (c == b'-') ≡ false → NoDash (cons_stripped c r)
cons_stripped-NoDash c [] h = rw h h
cons_stripped-NoDash c (d ∷ r) h = h

strip_trailing-NoDash : (s : Text) → NoDash s → NoDash (strip_trailing s)
unfolding strip_trailing
strip_trailing-NoDash [] h = tt
strip_trailing-NoDash (c ∷ s) h = cons_stripped-NoDash c (strip_trailing s) h

take-NoDash : (n : ℕ) (s : Text) → NoDash s → NoDash (take n s)
take-NoDash zero s h = tt
take-NoDash (suc n) [] h = tt
take-NoDash (suc n) (c ∷ s) h = h

-- The first 64 characters, where there are more.
abbrev cut : Text → Text
cut s = if ltb max_agent_id_length (length s) then take max_agent_id_length s else s

cut_safe :
    (s : Text)
    → All IsIdChar s
    → NoDash s
    → All IsIdChar (cut s) × NoDash (cut s) × (length (cut s) ≤ max_agent_id_length)
cut_safe s a n = elim (Bool-cases (ltb max_agent_id_length (length s))) [
  | inl e ↦ rw e (
    All-take IsIdChar max_agent_id_length s a,
    take-NoDash max_agent_id_length s n,
    omega (arith, length-take max_agent_id_length s),
  )
  | inr e ↦ rw e (a, n, ground arith)
]

filled_of : (s : Text) → is_empty s ≡ false → 0 < length s
filled_of [] h = cc
filled_of (c ∷ s) h = omega arith

replaced-IsSafeId : (s : Text) → is_empty (replaced s) ≡ false → IsSafeId (replaced s)
unfolding replaced
replaced-IsSafeId s h =
    let start = strip_leading (replace_invalid false s) in
    let (a, n, l) =
      cut_safe (strip_trailing start)
        (strip_trailing-All IsIdChar start
          (strip_leading-All IsIdChar (replace_invalid false s) (replace_invalid-All false s)))
        (strip_trailing-NoDash start (strip_leading-NoDash (replace_invalid false s))) in
    record { chars = a; filled = filled_of _ h; short = l; first = n }

all_id_chars-All : (s : Text) → all_id_chars s ≡ true → All IsIdChar s
unfolding all_id_chars
all_id_chars-All [] h = tt
all_id_chars-All (c ∷ s) h = elim (Bool-cases (is_id_char c)) [
  | inl e ↦ (e, all_id_chars-All s (rw e at h))
  | inr e ↦ cc (rw e at h)
]

alnum-NoDash : (c : ℕ) → is_alnum c ≡ true → ((c == b'-') ≡ false) × IsIdChar c
unfolding is_alnum is_id_char
alnum-NoDash c h = ground arith

valid-IsSafeId : (s : Text) → is_valid_id s ≡ true → IsSafeId s
unfolding is_valid_id
valid-IsSafeId [] h = cc
valid-IsSafeId (c ∷ s) h =
    let p : (is_alnum c ≡ true) × (all_id_chars s ≡ true) × (leb (length s) 63 ≡ true) =
      ground arith in
    record {
      chars = ((alnum-NoDash c p.0).1, all_id_chars-All s p.1);
      filled = omega arith;
      short = omega (arith, leb→le (length s) 63 p.2);
      first = (alnum-NoDash c p.0).0;
    }

sanitize-IsSafeId : (d id : Text) → IsSafeId d → IsSafeId (sanitize d id)
unfolding sanitize
sanitize-IsSafeId d id safe = elim (Bool-cases (is_empty (trim_space id))) [
  | inl e ↦ rw e safe
  | inr e ↦ rw e (elim (Bool-cases (is_valid_id low)) [
    | inl v ↦ rw v (valid-IsSafeId low v)
    | inr v ↦ rw v (elim (Bool-cases (is_empty (replaced low))) [
      | inl b ↦ rw b safe
      | inr b ↦ rw b (replaced-IsSafeId low b)
    ])
  ])
]
  where
    low : Text
    low = to_lower (trim_space id)

-- Both normalisers return one to 64 characters of [a-z0-9_-] that do not start with a dash,
-- whatever the id is.
pub normalize-IsSafeId :
    (id : Text) → IsSafeId (normalize_agent_id id) × IsSafeId (normalize_account_id id)
unfolding normalize_agent_id normalize_account_id
normalize-IsSafeId id = (
  sanitize-IsSafeId default_agent_id id
      (valid-IsSafeId default_agent_id (unfold is_valid_id in refl)),
  sanitize-IsSafeId default_account_id id
      (valid-IsSafeId default_account_id (unfold is_valid_id in refl)),
)
