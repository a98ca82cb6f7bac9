-- ===== src/Channels/Split/Bounds.antt =====
-- The lengths of the messages of SplitMessage (pkg/channels/split.go).
use aetherclaw.Common.{
  ℕ, zero, suc, ◌+◌, ◌-◌, ◌≤◌, ◌<◌, ◌≡◌, subst, ◌⊎◌, inl, inr, Bool, true, false, ◌&&◌, not, Option,
  none, some, [], ◌∷◌, arith, ltb, leb, nat_beq, if◌then◌else◌, leb→le, nat_key, Bool-cases,
  Option-cases, length, take, drop, length-append, length-take, All,
}
use aetherclaw.Common.Text.{Text, codes}
use aetherclaw.Channels.Split.{
  Round, effective_limit, is_newline, is_space_or_tab, is_fence, search_back, find_last_in_range,
  find_break, scan_fences, find_last_unclosed, find_closing, header_of, cons_unless_white,
  trim_white, cut_at, cut_inside, inner_limit, split_block, round_in_block, round_at, natural_end,
  round, split_loop,
}

pub effective_limit_le : (n : ℕ) → effective_limit n ≤ n
unfolding effective_limit
effective_limit_le n = omega arith

pub search_back_le : (test : ℕ → Bool) (s : Text) (from i : ℕ) → search_back test s from i ≤ i - 1
unfolding search_back
search_back_le test s from zero = omega arith
search_back_le test s from (suc i) = ground (arith, search_back_le test s from i)

find_last_le :
    (test : ℕ → Bool) (s : Text) (end window : ℕ) → find_last_in_range test s end window ≤ end
unfolding find_last_in_range
find_last_le test s end window = omega (arith, search_back_le test s (end - window) end)

pub find_break_le : (s : Text) (end : ℕ) → find_break s end ≤ end
unfolding find_break
find_break_le s end =
    ground (arith, find_last_le is_newline s end 200, find_last_le is_space_or_tab s end 100)

pub natural_end_le : (max_len : ℕ) (s : Text) → natural_end max_len s ≤ effective_limit max_len
unfolding natural_end
natural_end_le max_len s = ground (arith, find_break_le s (effective_limit max_len))

-- An index, when there is one, is below a bound.
abbrev Below : ℕ → Option ℕ → Type 0
Below n none = Unit
Below n (some u) = u < n

Below-weaken : (m n : ℕ) (o : Option ℕ) → m ≤ n → Below m o → Below n o
Below-weaken m n none le h = tt
Below-weaken m n (some u) le h = omega arith

scan_fences-Below :
    (inside : Bool) (last : Option ℕ) (i skip : ℕ) (s : Text)
    → Below i last
    → Below (i + length s) (scan_fences inside last i skip s)
unfolding scan_fences
scan_fences-Below true last i skip [] h = Below-weaken i (i + 0) last (omega arith) h
scan_fences-Below false last i skip [] h = tt
scan_fences-Below inside last i (suc skip) (c ∷ s) h =
    subst (λ n. Below n (scan_fences inside last (suc i) skip s)) (omega arith)
      (scan_fences-Below inside last (suc i) skip s (Below-weaken i (suc i) last (omega arith) h))
scan_fences-Below inside last i zero (c ∷ s) h =
    subst (λ n. Below n (scan_fences inside last i 0 (c ∷ s))) (omega arith)
      (scan_fences-Below (if fence then not inside else inside) opened (suc i)
        (if fence then 2 else 0) s (go (fence && not inside)))
  where
    fence : Bool
    fence = is_fence (c ∷ s)

    opened : Option ℕ
    opened = if fence && not inside then some i else last

    go : (b : Bool) → Below (suc i) (if b then some i else last)
    go true = omega arith
    go false = Below-weaken i (suc i) last (omega arith) h

pub find_last_unclosed-lt : (s : Text) (end u : ℕ) → find_last_unclosed s end ≡ some u → u < end
unfolding find_last_unclosed
find_last_unclosed-lt s end u e =
    let b =
      subst (Below (0 + length (take end s))) e
        (scan_fences-Below false none 0 0 (take end s) tt) in
    omega (arith, b, length-take end s)

-- A chunk is no longer than a bound.
abbrev Fits : ℕ → Round → Type 0
Fits n r = length r.chunk ≤ n

cut_at-Fits :
    (max_len : ℕ) (s : Text) (msg_end : ℕ)
    → msg_end ≤ max_len
    → Fits max_len (cut_at max_len s msg_end)
unfolding cut_at
cut_at-Fits max_len s msg_end h = elim (Bool-cases (nat_beq msg_end 0)) [
  | inl e ↦
      rw e (omega (arith, effective_limit_le max_len, length-take (effective_limit max_len) s))
  | inr e ↦ rw e (omega (arith, length-take msg_end s))
]

length-cons_unless_white : (c : ℕ) (s : Text) → length (cons_unless_white c s) ≤ suc (length s)
length-cons_unless_white c [] = ground arith
length-cons_unless_white c (d ∷ s) = omega arith

length-trim_white : (s : Text) → length (trim_white s) ≤ length s
unfolding trim_white
length-trim_white [] = omega arith
length-trim_white (c ∷ s) =
    omega (arith, length-cons_unless_white c (trim_white s), length-trim_white s)

cut_inside-Fits : (header s : Text) (end n : ℕ) → end + 4 ≤ n → Fits n (cut_inside header s end)
unfolding cut_inside
cut_inside-Fits header s end n h = omega (
  arith,
  length-append (trim_white (take end s)) (codes "\n```"),
  length-trim_white (take end s),
  length-take end s,
)

module _ (max_len : ℕ) (large : 5 ≤ max_len) where
  inner_le : (s : Text) → inner_limit max_len s + 4 ≤ max_len
  unfolding inner_limit
  inner_le s = omega arith

  split_block-Fits :
      (s : Text) (msg_end unclosed : ℕ) (header : Text) (header_end : ℕ)
      → msg_end ≤ max_len
      → unclosed < msg_end
      → Fits max_len (split_block max_len s msg_end unclosed header header_end)
  unfolding split_block
  split_block-Fits s msg_end unclosed header header_end le lt =
      go (Bool-cases (ltb (header_end + 20) msg_end)) (Bool-cases (ltb header_end better))
        (Bool-cases (ltb 0 before)) (Bool-cases (ltb 20 unclosed))
    where
      inner : ℕ
      inner = inner_limit max_len s

      better : ℕ
      better = find_last_in_range is_newline s inner 200

      before : ℕ
      before = find_break s unclosed

      go :
          (ltb (header_end + 20) msg_end ≡ true) ⊎ (ltb (header_end + 20) msg_end ≡ false)
          → (ltb header_end better ≡ true) ⊎ (ltb header_end better ≡ false)
          → (ltb 0 before ≡ true) ⊎ (ltb 0 before ≡ false)
          → (ltb 20 unclosed ≡ true) ⊎ (ltb 20 unclosed ≡ false)
          → Fits max_len (
              if ltb (header_end + 20) msg_end
              then cut_inside header s (if ltb header_end better then better else inner)
              else if ltb 0 before
              then cut_at max_len s before
              else if ltb 20 unclosed
              then cut_at max_len s unclosed
              else cut_inside header s inner)
      go (inl a) (inl b) c d =
          rw (a, b)
            (cut_inside-Fits header s better max_len
              (omega (arith, inner_le s, find_last_le is_newline s inner 200)))
      go (inl a) (inr b) c d = rw (a, b) (cut_inside-Fits header s inner max_len (inner_le s))
      go (inr a) b (inl c) d =
          rw (a, c) (cut_at-Fits max_len s before (omega (arith, find_break_le s unclosed)))
      go (inr a) b (inr c) (inl d) = rw (a, c, d) (cut_at-Fits max_len s unclosed (omega arith))
      go (inr a) b (inr c) (inr d) =
          rw (a, c, d) (cut_inside-Fits header s inner max_len (inner_le s))

  round_in_block-Fits :
      (s : Text) (msg_end unclosed : ℕ) (closing : Option ℕ)
      → msg_end ≤ max_len
      → unclosed < msg_end
      → Fits max_len (round_in_block max_len s msg_end unclosed closing)
  unfolding round_in_block
  round_in_block-Fits s msg_end unclosed none le lt =
      split_block-Fits s msg_end unclosed (header_of s unclosed).0 (header_of s unclosed).1 le lt
  round_in_block-Fits s msg_end unclosed (some closing) le lt =
      elim (Bool-cases (leb closing max_len)) [
        | inl e ↦ rw e (cut_at-Fits max_len s closing (leb→le closing max_len e))
        | inr e ↦ rw e (
            split_block-Fits s msg_end unclosed (header_of s unclosed).0 (header_of s unclosed).1 le
              lt)
      ]

  round-Fits : (s : Text) → Fits max_len (round max_len s)
  unfolding round round_at
  round-Fits s = elim (Option-cases (find_last_unclosed s (natural_end max_len s))) [
    | inl n ↦ rw n (cut_at-Fits max_len s (natural_end max_len s) le)
    | inr (u, e) ↦
        let lt = find_last_unclosed-lt s (natural_end max_len s) u e in
        elim (Bool-cases (ltb (natural_end max_len s) (length s))) [
          | inl f ↦
              rw (e, f, round_at)
                (round_in_block-Fits s (natural_end max_len s) u
                  (find_closing (natural_end max_len s) (drop (natural_end max_len s) s)) le lt)
          | inr f ↦ rw (e, f, round_at) (cut_at-Fits max_len s (natural_end max_len s) le)
        ]
  ]
    where
      le : natural_end max_len s ≤ max_len
      le = omega (arith, natural_end_le max_len s, effective_limit_le max_len)

  -- With a maximum of at least 5, no message is longer than the maximum, as many rounds as the
  -- loop may run, whatever the text.
  pub split_loop_fits :
      (fuel : ℕ) (s : Text)
      → All (λ chunk. length chunk ≤ max_len) (split_loop fuel max_len s).messages
  unfolding split_loop
  split_loop_fits zero [] = tt
  split_loop_fits (suc fuel) [] = tt
  split_loop_fits zero (c ∷ s) = tt
  split_loop_fits (suc fuel) (c ∷ s) = elim (Bool-cases (leb (length (c ∷ s)) max_len)) [
    | inl e ↦ rw e (leb→le _ _ e, tt)
    | inr e ↦ rw e (round-Fits (c ∷ s), split_loop_fits fuel (round max_len (c ∷ s)).left)
  ]
