-- ===== src/Channels/Split/Unfenced.antt =====
-- SplitMessage (pkg/channels/split.go) on texts without code blocks.
use aetherclaw.Common.{
  ℕ, zero, suc, ◌-◌, ◌≤◌, ◌<◌, ◌≡◌, refl, sym, ap, ◌∙◌, ◌≢◌, inl, inr, Bool, true, false, Option,
  none, List, [], ◌∷◌, ◌++◌, append-nil, arith, leb, nat_beq, if◌then◌else◌, nat_key, Bool-cases,
  length, take, drop, length-drop, take-drop, All, All-drop, All-take,
}
use aetherclaw.Common.Text.{Text}
use aetherclaw.Channels.Split.{
  Round, code_block_buffer, effective_limit, is_white, is_fence, scan_fences, find_last_unclosed,
  skip_white, cut_at, round_at, natural_end, round, split_loop,
}

-- No character is a backtick.
abbrev pub NoTick : Text → Type 0
NoTick = All (λ c. c ≢ b'`')

-- A text without its white space.
abbrev pub dense : Text → Text
dense [] = []
dense (c ∷ s) = let rest = dense s in if is_white c then rest else c ∷ rest

abbrev pub joined : List Text → Text
joined [] = []
joined (s ∷ ss) = s ++ joined ss

pub is_fence-NoTick : (c : ℕ) (s : Text) → c ≢ b'`' → is_fence (c ∷ s) ≡ false
unfolding is_fence
is_fence-NoTick c [] h = refl
is_fence-NoTick c (d ∷ []) h = refl
is_fence-NoTick c (d ∷ e ∷ s) h = ground arith

pub scan_fences-NoTick :
    (inside : Bool) (last : Option ℕ) (i : ℕ) (s : Text)
    → NoTick s
    → scan_fences inside last i 0 s ≡ (if inside then last else none)
unfolding scan_fences
scan_fences-NoTick inside last i [] h = refl
scan_fences-NoTick inside last i (c ∷ s) h =
    rw (is_fence-NoTick c s h.0) (scan_fences-NoTick inside last (suc i) s h.1)

effective_limit_pos : (n : ℕ) → 0 < n → 0 < effective_limit n
unfolding effective_limit code_block_buffer
effective_limit_pos n h = omega arith

pub natural_end_pos : (max_len : ℕ) (s : Text) → 0 < max_len → 0 < natural_end max_len s
unfolding natural_end
natural_end_pos max_len s h = ground (arith, effective_limit_pos max_len h)

dense-append : (s t : Text) → dense (s ++ t) ≡ dense s ++ dense t
dense-append [] t = refl
dense-append (c ∷ s) t = elim (Bool-cases (is_white c)) [
  | inl e ↦ rw (e, dense-append s t) refl
  | inr e ↦ rw (e, dense-append s t) refl
]

dense-skip_white : (s : Text) → dense (skip_white s) ≡ dense s
unfolding skip_white
dense-skip_white [] = refl
dense-skip_white (c ∷ s) = elim (Bool-cases (is_white c)) [
  | inl e ↦ rw e (dense-skip_white s)
  | inr e ↦ rw e (rw e refl)
]

length-skip_white : (s : Text) → length (skip_white s) ≤ length s
unfolding skip_white
length-skip_white [] = omega arith
length-skip_white (c ∷ s) = ground (arith, length-skip_white s)

skip_white-NoTick : (s : Text) → NoTick s → NoTick (skip_white s)
unfolding skip_white
skip_white-NoTick [] h = tt
skip_white-NoTick (c ∷ s) h = elim (Bool-cases (is_white c)) [
  | inl e ↦ rw e (skip_white-NoTick s h.1)
  | inr e ↦ rw e h
]

-- what a cut behind the first character does
record Cuts (s : Text) (r : Round) : Type 0 where
  kept : dense r.chunk ++ dense r.left ≡ dense s
  shorter : length r.left ≤ length s - 1
  plain : NoTick r.left

cut_at-Cuts :
    (max_len : ℕ) (s : Text) (end : ℕ) → NoTick s → 0 < end → Cuts s (cut_at max_len s end)
unfolding cut_at
cut_at-Cuts max_len s end h pos = elim (Bool-cases (nat_beq end 0)) [
  | inl e ↦ absurd (ground arith)
  | inr e ↦ rw e (record {
    kept =
        ap (◌++◌ (dense (take end s))) (dense-skip_white (drop end s))
        ∙ sym (dense-append (take end s) (drop end s))
        ∙ ap dense (take-drop end s);
    shorter = omega (arith, length-skip_white (drop end s), length-drop end s);
    plain = skip_white-NoTick (drop end s) (All-drop _ end s h);
  })
]

module _ (max_len : ℕ) (pos : 0 < max_len) where
  round-Cuts : (s : Text) → NoTick s → Cuts s (round max_len s)
  unfolding round find_last_unclosed
  round-Cuts s h =
      rw
        (
          scan_fences-NoTick false none 0 (take (natural_end max_len s) s) (All-take _ _ s h),
          round_at,
        )
        (cut_at-Cuts max_len s (natural_end max_len s) h (natural_end_pos max_len s pos))

  -- On a text without backticks the loop ends within as many rounds as the text has characters,
  -- and its messages hold, in order, all characters of the text that are not white space.
  pub split_loop_unfenced :
      (fuel : ℕ) (s : Text)
      → NoTick s
      → length s ≤ fuel
      → let r = split_loop fuel max_len s in
        (r.finished ≡ true) × (dense (joined r.messages) ≡ dense s)
  unfolding split_loop
  split_loop_unfenced zero [] h le = (refl, refl)
  split_loop_unfenced (suc fuel) [] h le = (refl, refl)
  split_loop_unfenced zero (c ∷ s) h le = absurd (omega arith)
  split_loop_unfenced (suc fuel) (c ∷ s) h le = elim (Bool-cases (leb (length (c ∷ s)) max_len)) [
    | inl e ↦ rw e (refl, ap dense (append-nil (c ∷ s)))
    | inr e ↦
        let r = round max_len (c ∷ s) in
        let cuts = round-Cuts (c ∷ s) h in
        let (ends, all) =
          split_loop_unfenced fuel r.left cuts.plain (omega (arith, cuts.shorter)) in
        rw e (
          ends,
          dense-append r.chunk (joined (split_loop fuel max_len r.left).messages)
              ∙ ap (◌++◌ (dense r.chunk)) all
              ∙ cuts.kept,
        )
  ]
