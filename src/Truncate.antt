-- ===== src/Truncate.antt =====
-- Truncation of tool outputs: packages/coding-agent/src/core/tools/truncate.ts. A text is its list of
-- code points.
pub mod Lines
pub mod Collect
pub mod Head
pub mod Tail
mod Tests
use co_mono.Base.{
  split_lines, join_lines, split_lines-cons, join_lines-split_lines, ℕ, zero, suc, ◌+◌, ◌-◌, Bool,
  true, false, ◌&&◌, Option, none, some, List, [], ◌∷◌, ◌++◌, reverse, ltb, leb, ◌==◌, get_or_else,
  if◌then◌else◌, length, map,
}

abbrev default_max_lines : ℕ
default_max_lines = 2000

abbrev default_max_bytes : ℕ
default_max_bytes = 51200

-- The bytes of one code point in UTF-8; half of a surrogate pair is written as U+FFFD, which has 3.
abbrev pub width : ℕ → ℕ
width c = if ltb c 0x80 then 1 else if ltb c 0x800 then 2 else if ltb c 0x10000 then 3 else 4

-- `Buffer.byteLength(s, "utf-8")`
pub byte_length : List ℕ → ℕ
byte_length [] = 0
byte_length (c ∷ cs) = width c + byte_length cs

pub data TruncatedBy : Type 0 where
  by_lines by_bytes : TruncatedBy

pub record TruncationResult : Type 0 where
  pub content : List ℕ
  pub truncated : Bool
  pub truncated_by : Option TruncatedBy
  pub total_lines : ℕ
  pub total_bytes : ℕ
  pub output_lines : ℕ
  pub output_bytes : ℕ
  pub last_line_partial : Bool
  pub first_line_exceeds_limit : Bool
  pub max_lines : ℕ
  pub max_bytes : ℕ

pub record TruncationOptions : Type 0 where
  pub max_lines : Option ℕ
  pub max_bytes : Option ℕ

-- What a loop collects: the lines in the order of the loop, their bytes, and what ended it.
pub record Collected : Type 0 where
  pub lines : List (List ℕ)
  pub bytes : ℕ
  pub by : TruncatedBy

abbrev add_line : List ℕ → Collected → Collected
add_line l x = record x { lines = l ∷ x.lines }

-- A round for each line that may be kept; `count` bytes are kept, and `newline` is 0 at the first line.
pub collect : (max_bytes rounds count newline : ℕ) → List (List ℕ) → Collected
unfolding byte_length
collect max_bytes zero count newline ls = record { lines = []; bytes = count; by = by_lines }
collect max_bytes (suc n) count newline [] = record { lines = []; bytes = count; by = by_lines }
collect max_bytes (suc n) count newline (l ∷ ls) =
    let sum = count + (byte_length l + newline) in
    let rest = collect max_bytes n sum 1 ls in
    if ltb max_bytes sum
    then record { lines = []; bytes = count; by = by_bytes }
    else add_line l rest

-- The test behind the loop: a full number of lines ends it by lines.
abbrev pub ended_by : (max_lines max_bytes : ℕ) → Collected → TruncatedBy
ended_by max_lines max_bytes x =
    if leb max_lines (length (x.lines)) && leb (x.bytes) max_bytes then by_lines else x.by

abbrev pub whole : List ℕ → (max_lines max_bytes : ℕ) → TruncationResult
whole content max_lines max_bytes = record {
  content = content;
  truncated = false;
  truncated_by = none;
  total_lines = length (split_lines content);
  total_bytes = byte_length content;
  output_lines = length (split_lines content);
  output_bytes = byte_length content;
  last_line_partial = false;
  first_line_exceeds_limit = false;
  max_lines = max_lines;
  max_bytes = max_bytes;
}

-- A truncated result that consists of `lines`.
abbrev pub cut_to :
    List (List ℕ)
    → TruncatedBy
    → (partial_line first_exceeds : Bool) → List ℕ
    → (max_lines max_bytes : ℕ) → TruncationResult
cut_to lines by partial_line first_exceeds content max_lines max_bytes = record {
  content = join_lines lines;
  truncated = true;
  truncated_by = some by;
  total_lines = length (split_lines content);
  total_bytes = byte_length content;
  output_lines = length lines;
  output_bytes = byte_length (join_lines lines);
  last_line_partial = partial_line;
  first_line_exceeds_limit = first_exceeds;
  max_lines = max_lines;
  max_bytes = max_bytes;
}

abbrev pub first_line : List (List ℕ) → List ℕ
first_line [] = []
first_line (l ∷ ls) = l

pub truncate_head_to : List ℕ → (max_lines max_bytes : ℕ) → TruncationResult
unfolding byte_length split_lines join_lines collect
truncate_head_to content max_lines max_bytes =
    let lines = split_lines content in
    let kept = collect max_bytes max_lines 0 0 lines in
    if leb (length lines) max_lines && leb (byte_length content) max_bytes
    then whole content max_lines max_bytes
    else if ltb max_bytes (byte_length (first_line lines))
    then cut_to [] by_bytes false true content max_lines max_bytes
    else cut_to (kept.lines) (ended_by max_lines max_bytes kept) false false content max_lines
        max_bytes

-- `start` moves on to the start of a character: characters are dropped until `excess` bytes are.
pub drop_bytes : (excess : ℕ) → List ℕ → List ℕ
drop_bytes zero cs = cs
drop_bytes (suc n) [] = []
drop_bytes (suc n) (c ∷ cs) = drop_bytes (suc n - width c) cs

-- Writing a text to bytes and reading it back: half of a surrogate pair has become U+FFFD.
abbrev pub replace_lone : ℕ → ℕ
replace_lone c = if leb 0xd800 c && leb c 0xdfff then 0xfffd else c

pub truncate_string_to_bytes_from_end : List ℕ → (max_bytes : ℕ) → List ℕ
unfolding byte_length drop_bytes
truncate_string_to_bytes_from_end s max_bytes =
    if leb (byte_length s) max_bytes
    then s
    else map replace_lone (drop_bytes (byte_length s - max_bytes) s)

-- The loop from the last line back, over the lines in reverse; a last line that is too long on its
-- own is kept in part.
pub collect_back : (max_bytes rounds : ℕ) → List (List ℕ) → Bool × Collected
unfolding byte_length collect truncate_string_to_bytes_from_end
collect_back max_bytes zero ls = (false, collect max_bytes zero 0 0 ls)
collect_back max_bytes (suc n) [] = (false, collect max_bytes (suc n) 0 0 [])
collect_back max_bytes (suc n) (l ∷ ls) =
    let part = truncate_string_to_bytes_from_end l max_bytes in
    let kept = collect max_bytes (suc n) 0 0 (l ∷ ls) in
    if ltb max_bytes (byte_length l)
    then (true, record { lines = part ∷ []; bytes = byte_length part; by = by_bytes })
    else (false, kept)

pub truncate_tail_to : List ℕ → (max_lines max_bytes : ℕ) → TruncationResult
unfolding byte_length split_lines join_lines collect_back
truncate_tail_to content max_lines max_bytes =
    let lines = split_lines content in
    let (is_partial, kept) = collect_back max_bytes max_lines (reverse lines) in
    if leb (length lines) max_lines && leb (byte_length content) max_bytes
    then whole content max_lines max_bytes
    else cut_to (reverse (kept.lines)) (ended_by max_lines max_bytes kept) is_partial false content
        max_lines max_bytes

pub truncate_head : List ℕ → TruncationOptions → TruncationResult
unfolding truncate_head_to
truncate_head content options =
    truncate_head_to content (get_or_else (options.max_lines) default_max_lines)
      (get_or_else (options.max_bytes) default_max_bytes)

pub truncate_tail : List ℕ → TruncationOptions → TruncationResult
unfolding truncate_tail_to
truncate_tail content options =
    truncate_tail_to content (get_or_else (options.max_lines) default_max_lines)
      (get_or_else (options.max_bytes) default_max_bytes)
