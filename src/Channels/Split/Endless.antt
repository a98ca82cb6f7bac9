-- ===== src/Channels/Split/Endless.antt =====
-- SplitMessage (pkg/channels/split.go) on a code block whose header is longer than a message.
use aetherclaw.Common.{
  ℕ, zero, suc, ◌+◌, ◌-◌, ◌≤◌, ◌<◌, ◌≡◌, refl, ap, ◌∙◌, ◌≢◌, ◌⊎◌, inl, inr, Bool, true, false,
  Option, none, some, [], ◌∷◌, ◌++◌, arith, ltb, leb, nat_beq, lt→ltb, le→ltb, lt→leb, nat_key,
  Bool-cases, length, take, drop, length-append, length-drop, drop-append, take-append, take-length,
  All, All-drop, All-take,
}
use aetherclaw.Common.Text.{Text, trim_space-eq, is_space, EndsFilled, EndsFilled-append}
use aetherclaw.Channels.Split.{
  code_block_buffer, effective_limit, is_newline, is_space_or_tab, is_fence, holds_at, search_back,
  find_last_in_range, find_break, scan_fences, find_last_unclosed, find_closing, find_newline,
  header_of, cut_inside, inner_limit, split_block, round_in_block, round_at, natural_end, round,
  split_loop,
}
use aetherclaw.Channels.Split.Bounds.{effective_limit_le, natural_end_le}
use aetherclaw.Channels.Split.Unfenced.{NoTick, is_fence-NoTick, scan_fences-NoTick}

-- No character is a newline.
abbrev pub NoNewline : Text → Type 0
NoNewline = All (λ c. c ≢ 10)

-- The first line of a block: a fence and a text.
abbrev pub header : Text → Text
header x = b'`' ∷ b'`' ∷ b'`' ∷ x

-- The lines of a block that is never closed.
abbrev pub block : Text → Text → Text
block x y = header x ++ 10 ∷ y

-- A search finds nothing, or a place where the test holds.
search_back-holds :
    (test : ℕ → Bool) (s : Text) (from i : ℕ)
    → (search_back test s from i ≡ 0) ⊎ (holds_at test s (search_back test s from i) ≡ true)
unfolding search_back
search_back-holds test s from zero = inl refl
search_back-holds test s from (suc i) = elim (Bool-cases (ltb i from)) [
  | inl e ↦ rw (e, search_back) (inl refl)
  | inr e ↦ elim (Bool-cases (holds_at test s i)) [
    | inl h ↦ rw (e, h, search_back) (inr h)
    | inr h ↦ rw (e, h, search_back) (search_back-holds test s from i)
  ]
]

-- No break stands within a fence.
outside_fence :
    (test : ℕ → Bool) (t : Text) (n : ℕ)
    → test b'`' ≡ false
    → (n ≡ 0) ⊎ (holds_at test (header t) n ≡ true)
    → (n ≡ 0) ⊎ (3 ≤ n)
unfolding holds_at
outside_fence test t zero dull h = inl refl
outside_fence test t (suc zero) dull (inl h) = absurd (omega arith)
outside_fence test t (suc zero) dull (inr h) = cc (dull, h)
outside_fence test t (suc (suc zero)) dull (inl h) = absurd (omega arith)
outside_fence test t (suc (suc zero)) dull (inr h) = cc (dull, h)
outside_fence test t (suc (suc (suc n))) dull h = inr (omega arith)

find_break-outside :
    (t : Text) (end : ℕ) → (find_break (header t) end ≡ 0) ⊎ (3 ≤ find_break (header t) end)
unfolding find_break find_last_in_range
find_break-outside t end = elim (Bool-cases (nat_beq newline 0)) [
  | inl e ↦ rw e (
      outside_fence is_space_or_tab t _ refl
        (search_back-holds is_space_or_tab (header t) (end - 100) end))
  | inr e ↦
      rw e (
        outside_fence is_newline t _ refl (search_back-holds is_newline (header t) (end - 200) end))
]
  where
    newline : ℕ
    newline = search_back is_newline (header t) (end - 200) end

natural_end-outside : (max_len : ℕ) (t : Text) → 5 ≤ max_len → 3 ≤ natural_end max_len (header t)
unfolding natural_end
natural_end-outside max_len t h =
    ground (arith, find_break-outside t (effective_limit max_len), enough)
  where
    enough : 3 ≤ effective_limit max_len
    enough = unfold effective_limit code_block_buffer in omega arith

-- The fence at the start is the one that stays open.
find_last_unclosed-block :
    (x z : Text) (n : ℕ)
    → NoTick x
    → 3 ≤ n
    → n ≤ 3 + length x
    → find_last_unclosed (header (x ++ z)) n ≡ some 0
unfolding find_last_unclosed scan_fences is_fence
find_last_unclosed-block x z zero h lo hi = absurd (omega arith)
find_last_unclosed-block x z (suc zero) h lo hi = absurd (omega arith)
find_last_unclosed-block x z (suc (suc zero)) h lo hi = absurd (omega arith)
find_last_unclosed-block x z (suc (suc (suc k))) h lo hi =
    rw (take-append k x z (omega arith))
      (scan_fences-NoTick true (some 0) 3 (take k x) (All-take _ k x h))

-- A closing fence is at least three behind the start of its search.
abbrev Far : ℕ → Option ℕ → Type 0
Far n none = Unit
Far n (some k) = n < k

find_closing-Far : (i n : ℕ) (s : Text) → n ≤ i → Far n (find_closing i s)
unfolding find_closing
find_closing-Far i n [] h = tt
find_closing-Far i n (c ∷ s) h = elim (Bool-cases (is_fence (c ∷ s))) [
  | inl e ↦ rw e (omega arith)
  | inr e ↦ rw e (find_closing-Far (suc i) n s (omega arith))
]

find_closing-NoTick :
    (i n : ℕ) (w z : Text) → NoTick w → n ≤ i + length w → Far n (find_closing i (w ++ z))
unfolding find_closing
find_closing-NoTick i n [] z h le = find_closing-Far i n z (omega arith)
find_closing-NoTick i n (c ∷ w) z h le =
    rw (is_fence-NoTick c (w ++ z) h.0) (find_closing-NoTick (suc i) n w z h.1 (omega arith))

find_closing-block :
    (x z : Text) (n : ℕ)
    → NoTick x
    → 3 ≤ n
    → n ≤ 3 + length x
    → Far (length x) (find_closing n (drop n (header (x ++ z))))
find_closing-block x z zero h lo hi = absurd (omega arith)
find_closing-block x z (suc zero) h lo hi = absurd (omega arith)
find_closing-block x z (suc (suc zero)) h lo hi = absurd (omega arith)
find_closing-block x z (suc (suc (suc k))) h lo hi = rw (drop-append k x z (omega arith)) (
    find_closing-NoTick (suc (suc (suc k))) (length x) (drop k x) z (All-drop _ k x h)
      (omega (arith, length-drop k x)))

find_newline-header :
    (i : ℕ) (x y : Text) → NoNewline x → find_newline i (x ++ 10 ∷ y) ≡ some (i + length x)
unfolding find_newline
find_newline-header i [] y h = ap some (omega arith)
find_newline-header i (c ∷ x) y h =
    let rest = find_newline-header (suc i) x y h.1 in
    let moved : suc i + length x ≡ i + suc (length x) = omega arith in
    let other : is_newline c ≡ false = ground (arith, h.0) in rw other (rest ∙ ap some moved)

-- What the block of a header is that the code cannot close.
pub record IsLongHeader (max_len : ℕ) (x : Text) : Type 0 where
  pub ticks : NoTick x
  pub newlines : NoNewline x
  pub filled : EndsFilled x
  pub long : max_len ≤ length x

header_of-block :
    (x y : Text)
    → NoNewline x
    → EndsFilled x
    → header_of (block x y) 0 ≡ (header x, length (header x))
unfolding header_of find_newline
header_of-block x y h filled =
    rw
      (
        find_newline-header 3 x y h,
        whole,
        take-length (header x) (10 ∷ y),
        trim_space-eq (header x)
            (unfold is_space in refl, (EndsFilled-append (b'`' ∷ b'`' ∷ b'`' ∷ []) filled).dense),
      )
      (ap (λ n. (header x, n)) (omega arith))
  where
    whole : 3 + length x - 0 ≡ length (header x)
    whole = omega arith

module _ (max_len : ℕ) (x : Text) (large : 5 ≤ max_len) (h : IsLongHeader max_len x) where
  -- what a round puts behind the header
  abbrev next : Text → Text
  next y = drop (max_len - 5) (header x) ++ 10 ∷ y

  next-EndsFilled : (y : Text) → EndsFilled y → EndsFilled (next y)
  next-EndsFilled y filled =
      EndsFilled-append (drop (max_len - 5) (header x)) (EndsFilled-append (10 ∷ []) filled)

  inner_limit-block : (y : Text) → inner_limit max_len (block x y) ≡ max_len - 5
  unfolding inner_limit
  inner_limit-block y = omega (arith, length-append x (10 ∷ y), h.long)

  left-block :
      (y : Text)
      → EndsFilled y
      → (cut_inside (header x) (block x y) (max_len - 5)).left ≡ block x (next y)
  unfolding cut_inside
  left-block y filled = rw (drop-append (max_len - 5) (header x) (10 ∷ y) (omega (arith, h.long))) (
      trim_space-eq (block x (next y)) (
        unfold is_space in refl,
        (EndsFilled-append (header x)
            (EndsFilled-append (10 ∷ []) (next-EndsFilled y filled))).dense,
      ))

  split_block-block :
      (y : Text) (n : ℕ)
      → n ≤ max_len
      → split_block max_len (block x y) n 0 (header x) (length (header x))
        ≡ cut_inside (header x) (block x y) (max_len - 5)
  unfolding split_block find_break find_last_in_range search_back
  split_block-block y n le =
      rw (le→ltb (length (header x) + 20) n (omega (arith, h.long)))
        (ap (cut_inside (header x) (block x y)) (inner_limit-block y))

  round_in_block-block :
      (y : Text) (n : ℕ) (o : Option ℕ)
      → n ≤ max_len
      → Far (length x) o
      → round_in_block max_len (block x y) n 0 o ≡ cut_inside (header x) (block x y) (max_len - 5)
  unfolding round_in_block
  round_in_block-block y n none le far =
      rw (header_of-block x y h.newlines h.filled) (split_block-block y n le)
  round_in_block-block y n (some k) le far =
      rw (lt→leb k max_len (omega (arith, h.long)), header_of-block x y h.newlines h.filled)
        (split_block-block y n le)

  round-block :
      (y : Text) → round max_len (block x y) ≡ cut_inside (header x) (block x y) (max_len - 5)
  unfolding round
  round-block y =
      rw
        (
          find_last_unclosed-block x (10 ∷ y) n h.ticks lo (omega (arith, hi, h.long)),
          round_at,
          lt→ltb n (length (block x y)) (omega (arith, hi, h.long, length-append x (10 ∷ y))),
        )
        (round_in_block-block y n (find_closing n (drop n (block x y))) hi
          (find_closing-block x (10 ∷ y) n h.ticks lo (omega (arith, hi, h.long))))
    where
      n : ℕ
      n = natural_end max_len (block x y)

      lo : 3 ≤ natural_end max_len (block x y)
      lo = natural_end-outside max_len (x ++ 10 ∷ y) large

      hi : natural_end max_len (block x y) ≤ max_len
      hi = omega (arith, natural_end_le max_len (block x y), effective_limit_le max_len)

  -- A text that starts with a code block whose header is at least as long as a message (one line
  -- without backticks, that does not end in white space) and goes on to something that does not
  -- end in white space is never done: as many rounds as the loop runs, each emits a message, and
  -- the loop has not ended.
  pub split_loop_endless :
      (fuel : ℕ) (y : Text)
      → EndsFilled y
      → let r = split_loop fuel max_len (block x y) in
        (r.finished ≡ false) × (length r.messages ≡ fuel)
  unfolding split_loop
  split_loop_endless zero y filled = (refl, refl)
  split_loop_endless (suc fuel) y filled =
      let too_long : leb (length (block x y)) max_len ≡ false =
        lt→leb (length (block x y)) max_len (omega (arith, h.long, length-append x (10 ∷ y))) in
      let (runs, count) = split_loop_endless fuel (next y) (next-EndsFilled y filled) in
      rw (too_long, round-block y, left-block y filled) (runs, ap suc count)
