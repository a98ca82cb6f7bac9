-- ===== src/Routing/AgentId/Idempotent.antt =====
-- The normalisers of agent_id.go applied to their own results.
use aetherclaw.Common.{
  ℕ, ◌≤◌, ◌≡◌, refl, true, false, [], ◌∷◌, ◌++◌, arith, le→leb, nat_key, length, replicate, All,
}
use aetherclaw.Common.Text.{
  Text, text_key, is_empty, lower, to_lower, trim_space, trim_space-eq, is_space, StartsDense,
  EndsDense, IsTrimmed, trim_left, trim_right,
}
use aetherclaw.Routing.AgentId.{
  is_alnum, is_id_char, all_id_chars, is_valid_id, sanitize, normalize_agent_id,
  normalize_account_id,
}
use aetherclaw.Routing.AgentId.Laws.{IsIdChar, IsSafeId, normalize-IsSafeId}

id_char_plain : (c : ℕ) → IsIdChar c → (is_space c ≡ false) × (lower c ≡ c)
unfolding is_id_char is_space lower
id_char_plain c h = (ground arith, ground arith)

pub to_lower-id : (s : Text) → All IsIdChar s → to_lower s ≡ s
to_lower-id [] h = refl
to_lower-id (c ∷ s) h = cc ((id_char_plain c h.0).1, to_lower-id s h.1)

StartsDense-id : (s : Text) → All IsIdChar s → StartsDense s
StartsDense-id [] h = tt
StartsDense-id (c ∷ s) h = (id_char_plain c h.0).0

EndsDense-id : (s : Text) → All IsIdChar s → EndsDense s
EndsDense-id [] h = tt
EndsDense-id (c ∷ []) h = (id_char_plain c h.0).0
EndsDense-id (c ∷ d ∷ s) h = EndsDense-id (d ∷ s) h.1

pub IsTrimmed-id : (s : Text) → All IsIdChar s → IsTrimmed s
IsTrimmed-id s h = (StartsDense-id s h, EndsDense-id s h)

All-all_id_chars : (s : Text) → All IsIdChar s → all_id_chars s ≡ true
unfolding all_id_chars
All-all_id_chars [] h = refl
All-all_id_chars (c ∷ s) h = rw h.0 (All-all_id_chars s h.1)

-- The first character is a letter or a digit.
abbrev pub StartsAlnum : Text → Type 0
StartsAlnum [] = ⊥
StartsAlnum (c ∷ s) = is_alnum c ≡ true

safe_valid : (s : Text) → IsSafeId s → StartsAlnum s → is_valid_id s ≡ true
unfolding is_valid_id
safe_valid [] h a = absurd a
safe_valid (c ∷ s) h a =
    let l : length s ≤ 63 = omega (arith, h.short) in
    rw (a, All-all_id_chars s h.chars.1) (le→leb (length s) 63 l)

not_blank : (s : Text) → StartsAlnum s → is_empty s ≡ false
not_blank [] a = absurd a
not_blank (c ∷ s) a = refl

sanitize_safe : (d s : Text) → IsSafeId s → StartsAlnum s → sanitize d s ≡ s
unfolding sanitize
sanitize_safe d s h a =
    rw
      (
        trim_space-eq s (IsTrimmed-id s h.chars),
        not_blank s a,
        to_lower-id s h.chars,
        safe_valid s h a,
      )
      refl

-- An id that was normalised, and starts with a letter or a digit, is left as it is by either
-- normaliser.
pub normalize_again :
    (id : Text)
    → (StartsAlnum (normalize_agent_id id)
        → normalize_agent_id (normalize_agent_id id) ≡ normalize_agent_id id)
      × (StartsAlnum (normalize_account_id id)
          → normalize_account_id (normalize_account_id id) ≡ normalize_account_id id)
unfolding normalize_agent_id normalize_account_id
normalize_again id = (
  λ a. sanitize_safe _ _ (normalize-IsSafeId id).0 a,
  λ a. sanitize_safe _ _ (normalize-IsSafeId id).1 a,
)

-- An id of an underscore, 62 letters and a dash with a letter behind it.
abbrev underscored : Text
underscored = b'_' ∷ (replicate 62 b'a' ++ b'-' ∷ b'b' ∷ [])

-- The first call cuts the letter off, and the second one the dash.
underscored_twice :
    (length (normalize_agent_id underscored) ≡ 64)
    × (length (normalize_agent_id (normalize_agent_id underscored)) ≡ 63)
unfolding normalize_agent_id trim_space trim_left trim_right is_space lower
underscored_twice = (refl, refl)
