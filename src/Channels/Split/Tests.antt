-- ===== src/Channels/Split/Tests.antt =====
-- SplitMessage at small maxima.
use aetherclaw.Common.{◌≤◌, ◌≡◌, refl, true, false, [], ◌∷◌, arith, nat_key, length, All}
use aetherclaw.Common.Text.{Text, codes, is_space}
use aetherclaw.Channels.Split.{
  split_loop, split_message, round, round_at, natural_end, find_break, find_last_in_range,
  search_back, holds_at, effective_limit, code_block_buffer, find_last_unclosed, scan_fences,
  is_fence, cut_at, skip_white, is_white,
}
use aetherclaw.Channels.Split.Bounds.{split_loop_fits}
use aetherclaw.Channels.Split.Unfenced.{dense, joined, split_loop_unfenced}
use aetherclaw.Channels.Split.Endless.{block, IsLongHeader, split_loop_endless}

words_split :
    split_message 9 (codes "one two three") 6
    ≡ record { messages = codes "one" ∷ codes "two" ∷ codes "three" ∷ []; finished = true }
unfolding split_message split_loop round round_at natural_end find_break find_last_in_range
    search_back holds_at effective_limit code_block_buffer find_last_unclosed scan_fences is_fence
    cut_at skip_white is_white
words_split = refl

split_loop_fits_example :
    All (λ chunk. length chunk ≤ 6) (split_loop 9 6 (codes "```go\nx := 1\n```")).messages
split_loop_fits_example = split_loop_fits 6 (omega arith) 9 (codes "```go\nx := 1\n```")

split_loop_unfenced_example :
    ((split_loop 13 6 (codes "one two three")).finished ≡ true)
    × (dense (joined (split_loop 13 6 (codes "one two three")).messages)
        ≡ dense (codes "one two three"))
split_loop_unfenced_example =
    split_loop_unfenced 6 (omega arith) 13 (codes "one two three") (ground arith) (omega arith)

abbrev long_line : Text
long_line = codes "{\"a\":1}"

long_line-IsLongHeader : IsLongHeader 6 long_line
unfolding is_space
long_line-IsLongHeader = record {
  ticks = ground arith;
  newlines = ground arith;
  filled = record { filled = refl; dense = refl };
  long = omega arith;
}

split_loop_endless_example :
    ((split_loop 100 6 (block long_line (codes "```"))).finished ≡ false)
    × (length (split_loop 100 6 (block long_line (codes "```"))).messages ≡ 100)
split_loop_endless_example =
    split_loop_endless 6 long_line (omega arith) long_line-IsLongHeader 100 (codes "```")
      (record { filled = refl; dense = unfold is_space in refl })
