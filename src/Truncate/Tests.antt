-- ===== src/Truncate/Tests.antt =====
-- Truncation of a text of three lines (packages/coding-agent/src/core/tools/truncate.ts).
use Prim.Native.Char.{code}
use co_mono.Base.{ℕ, ◌≡◌, refl, String, Bool, true, none, some, List, map, to_chars}
use co_mono.Truncate.{truncate_head, truncate_head_to, truncate_tail, truncate_tail_to}
use co_mono.Truncate.Head.{IsHead, truncate_head_to-IsHead}
use co_mono.Truncate.Tail.{IsTail, truncate_tail_to-IsTail}

abbrev text : String → List ℕ
text s = map code (to_chars s)

abbrev three_lines : List ℕ
three_lines = text "first\nsecond\nthird line"

run : Bool
unfolding truncate_head truncate_tail
run = true

head_two_lines : (truncate_head_to three_lines 5 13).content ≡ text "first\nsecond"
unfolding run
head_two_lines = refl

-- The last line is too long.
tail_part : (truncate_tail_to three_lines 5 4).content ≡ text "line"
unfolding run
tail_part = refl

one_byte_too_long :
    (truncate_tail three_lines (record { max_lines = none; max_bytes = some 22 })).truncated ≡ true
unfolding run
one_byte_too_long = refl

truncate_head_to-IsHead_example : IsHead three_lines 5 13 (truncate_head_to three_lines 5 13)
truncate_head_to-IsHead_example = truncate_head_to-IsHead three_lines 5 13

truncate_tail_to-IsTail_example : IsTail three_lines 5 4 (truncate_tail_to three_lines 5 4)
truncate_tail_to-IsTail_example = truncate_tail_to-IsTail three_lines 5 4
