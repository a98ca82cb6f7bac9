-- ===== src/Channels/Split.antt =====
-- pkg/channels/split.go. The loop's `runes` and `start` are the text runes[start:], and indexes are
-- relative to it. A search that finds nothing is 0: the code only asks if the index is behind
-- `start`, or behind the end of a header.
pub mod Bounds
pub mod Unfenced
pub mod Endless
mod Tests
use aetherclaw.Common.{
  ℕ, zero, suc, ◌+◌, ◌-◌, ◌/◌, ◌%◌, min, max, Bool, true, false, ◌&&◌, ◌||◌, not, Option, none,
  some, List, [], ◌∷◌, ◌++◌, ltb, leb, nat_beq, if◌then◌else◌, ◌==◌, nat_key, length, take, drop,
}
use aetherclaw.Common.Text.{Text, codes, is_empty, trim_space}

-- 10% of the maximum, at least 50, at most half of it
unfoldable pub code_block_buffer : ℕ → ℕ
code_block_buffer max_len = min (max 50 (max_len / 10)) (max_len / 2)

unfoldable pub effective_limit : ℕ → ℕ
unfolding code_block_buffer
effective_limit max_len = max (max_len - code_block_buffer max_len) (max_len / 2)

abbrev pub is_newline : ℕ → Bool
is_newline c = nat_beq c 10

abbrev pub is_space_or_tab : ℕ → Bool
is_space_or_tab c = nat_beq c 32 || nat_beq c 9

-- ' ', '\t', '\n' or '\r'
unfoldable pub is_white : ℕ → Bool
is_white c = is_space_or_tab c || (is_newline c || nat_beq c 13)

-- runes[i] == '`' && runes[i+1] == '`' && runes[i+2] == '`', within the text
unfoldable pub is_fence : Text → Bool
is_fence [] = false
is_fence (a ∷ []) = false
is_fence (a ∷ b ∷ []) = false
is_fence (a ∷ b ∷ c ∷ s) = nat_beq a b'`' && (nat_beq b b'`' && nat_beq c b'`')

unfoldable pub holds_at : (ℕ → Bool) → Text → ℕ → Bool
holds_at test [] i = false
holds_at test (c ∷ s) zero = test c
holds_at test (c ∷ s) (suc i) = holds_at test s i

-- the loops of findLastNewlineInRange and findLastSpaceInRange, from i - 1 down to `from`
unfoldable pub search_back : (ℕ → Bool) → Text → ℕ → ℕ → ℕ
unfolding holds_at
search_back test s from zero = 0
search_back test s from (suc i) =
    let below = search_back test s from i in
    if ltb i from then 0 else if holds_at test s i then i else below

unfoldable pub find_last_in_range : (ℕ → Bool) → Text → ℕ → ℕ → ℕ
unfolding search_back
find_last_in_range test s end search_window = search_back test s (end - search_window) end

-- a newline in the last 200, or else a blank in the last 100
unfoldable pub find_break : Text → ℕ → ℕ
unfolding find_last_in_range
find_break s end =
    let newline = find_last_in_range is_newline s end 200 in
    if nat_beq newline 0 then find_last_in_range is_space_or_tab s end 100 else newline

-- the loop of findLastUnclosedCodeBlockInRange: `skip` counts the runes of a fence that follow
unfoldable pub scan_fences : Bool → Option ℕ → ℕ → ℕ → Text → Option ℕ
unfolding is_fence
scan_fences in_code_block last_open i skip [] = if in_code_block then last_open else none
scan_fences in_code_block last_open i (suc skip) (c ∷ s) =
    scan_fences in_code_block last_open (suc i) skip s
scan_fences in_code_block last_open i zero (c ∷ s) =
    let fence = is_fence (c ∷ s) in
    scan_fences (if fence then not in_code_block else in_code_block)
      (if fence && not in_code_block then some i else last_open) (suc i) (if fence then 2 else 0) s

unfoldable pub find_last_unclosed : Text → ℕ → Option ℕ
unfolding scan_fences
find_last_unclosed s end = scan_fences false none 0 0 (take end s)

-- the loop of findNextClosingCodeBlockInRange, from the index i on
unfoldable pub find_closing : ℕ → Text → Option ℕ
find_closing i [] = none
find_closing i (c ∷ s) = if is_fence (c ∷ s) then some (i + 3) else find_closing (suc i) s

unfoldable pub find_newline : ℕ → Text → Option ℕ
find_newline i [] = none
find_newline i (c ∷ s) = if is_newline c then some i else find_newline (suc i) s

-- What one round makes of the text: a chunk, and what is left.
pub record Round : Type 0 where
  pub chunk : Text
  pub left : Text

unfoldable pub skip_white : Text → Text
unfolding is_white
skip_white [] = []
skip_white (c ∷ s) = if is_white c then skip_white s else c ∷ s

-- strings.TrimRight(s, " \t\n\r")
abbrev pub cons_unless_white : ℕ → Text → Text
cons_unless_white c [] = if is_white c then [] else c ∷ []
cons_unless_white c (d ∷ r) = c ∷ d ∷ r

unfoldable pub trim_white : Text → Text
trim_white [] = []
trim_white (c ∷ s) = cons_unless_white c (trim_white s)

-- the end of the loop's body: a chunk up to msgEnd, and the white space behind it skipped
unfoldable pub cut_at : ℕ → Text → ℕ → Round
unfolding effective_limit
cut_at max_len s msg_end =
    let end = if nat_beq msg_end 0 then effective_limit max_len else msg_end in
    record { chunk = take end s; left = skip_white (drop end s) }

-- a chunk that closes the block, and a rest that opens it again
unfoldable pub cut_inside : Text → Text → ℕ → Round
unfolding trim_white
cut_inside header s end = record {
  chunk = trim_white (take end s) ++ codes "\n```";
  left = trim_space (header ++ 10 ∷ drop end s);
}

-- innerLimit and splitAt, where the maximum is at least 5
unfoldable pub inner_limit : ℕ → Text → ℕ
inner_limit max_len s = min (max_len - 5) (length s)

-- the header of the block at the index `unclosed`, and the index of its end
unfoldable pub header_of : Text → ℕ → Text × ℕ
unfolding find_newline
header_of s unclosed = elim (find_newline unclosed (drop unclosed s)) [
  | none ↦ let header = trim_space (take 3 (drop unclosed s)) in (header, unclosed + length header)
  | some end ↦ (trim_space (take (end - unclosed) (drop unclosed s)), end)
]

-- the block cannot be closed within the maximum
unfoldable pub split_block : ℕ → Text → ℕ → ℕ → Text → ℕ → Round
unfolding find_last_in_range find_break cut_at cut_inside inner_limit
split_block max_len s msg_end unclosed header header_end =
    let inner = inner_limit max_len s in
    let better = find_last_in_range is_newline s inner 200 in
    let before = find_break s unclosed in
    if ltb (header_end + 20) msg_end
    then cut_inside header s (if ltb header_end better then better else inner)
    else if ltb 0 before
    then cut_at max_len s before
    else if ltb 20 unclosed
    then cut_at max_len s unclosed
    else cut_inside header s inner

unfoldable pub round_in_block : ℕ → Text → ℕ → ℕ → Option ℕ → Round
unfolding split_block header_of cut_at
round_in_block max_len s msg_end unclosed none =
    split_block max_len s msg_end unclosed (header_of s unclosed).0 (header_of s unclosed).1
round_in_block max_len s msg_end unclosed (some closing) =
    if leb closing max_len
    then cut_at max_len s closing
    else split_block max_len s msg_end unclosed (header_of s unclosed).0 (header_of s unclosed).1

unfoldable pub round_at : ℕ → Text → ℕ → Option ℕ → Round
unfolding round_in_block find_closing cut_at
round_at max_len s msg_end none = cut_at max_len s msg_end
round_at max_len s msg_end (some unclosed) =
    if ltb msg_end (length s)
    then round_in_block max_len s msg_end unclosed (find_closing msg_end (drop msg_end s))
    else cut_at max_len s msg_end

-- findLastNewlineInRange, findLastSpaceInRange, or else the limit
unfoldable pub natural_end : ℕ → Text → ℕ
unfolding find_break effective_limit
natural_end max_len s =
    let found = find_break s (effective_limit max_len) in
    if nat_beq found 0 then effective_limit max_len else found

-- the body of the loop, for a text that is longer than the maximum
unfoldable pub round : ℕ → Text → Round
unfolding round_at natural_end find_last_unclosed
round max_len s =
    let msg_end = natural_end max_len s in round_at max_len s msg_end (find_last_unclosed s msg_end)

-- The messages so far, and whether the loop has ended.
pub record Run : Type 0 where
  pub messages : List Text
  pub finished : Bool

unfoldable pub split_loop : ℕ → ℕ → Text → Run
unfolding round
split_loop fuel max_len [] = record { messages = []; finished = true }
split_loop zero max_len (c ∷ s) = record { messages = []; finished = false }
split_loop (suc fuel) max_len (c ∷ s) =
    let r = round max_len (c ∷ s) in
    let more = split_loop fuel max_len r.left in
    if leb (length (c ∷ s)) max_len
    then record { messages = (c ∷ s) ∷ []; finished = true }
    else record { messages = r.chunk ∷ more.messages; finished = more.finished }

-- A maximum that is not positive counts as 0.
unfoldable pub split_message : ℕ → Text → ℕ → Run
unfolding split_loop
split_message fuel content zero = record {
  messages = if is_empty content then [] else content ∷ [];
  finished = true;
}
split_message fuel content (suc n) = split_loop fuel (suc n) content
