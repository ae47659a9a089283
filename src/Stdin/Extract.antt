-- ===== src/Stdin/Extract.antt =====
-- `extractCompleteSequences` (packages/tui/src/stdin-buffer.ts).
mod Steps
pub mod Ends
pub mod Chunks
use co_mono.Base.{
  ℕ, zero, suc, Bool, true, false, Option, none, some, List, [], ◌∷◌, ◌==◌, if◌then◌else◌, length,
  take, drop,
}
use co_mono.Stdin.Sequence.{Status, complete, incomplete, not_escape, esc, is_complete_sequence}

abbrev pub is_incomplete : Status → Bool
is_incomplete incomplete = true
is_incomplete _ = false

-- The inner loop: the first `seqEnd` whose prefix is not incomplete; `none` where the text ends first.
unfoldable pub find_end : (rounds seq_end : ℕ) → List ℕ → Option ℕ
find_end zero seq_end remaining = none
find_end (suc rounds) seq_end remaining =
    elim (is_incomplete (is_complete_sequence (take seq_end remaining))) [
      | true ↦ find_end rounds (suc seq_end) remaining
      | false ↦ some seq_end
    ]

-- How much of a text that is not empty the next sequence takes: one unit, if it is no escape.
unfoldable pub next_end : List ℕ → Option ℕ
next_end [] = none
next_end (c ∷ cs) = if c == esc then find_end (suc (length cs)) 1 (c ∷ cs) else some 1

pub record Extraction : Type 0 where
  pub sequences : List (List ℕ)
  pub remainder : List ℕ

abbrev pub push : List ℕ → Option Extraction → Option Extraction
push s none = none
push s (some x) = some (record { sequences = s ∷ x.sequences; remainder = x.remainder })

-- The outer loop; `none` means that the fuel ran out.
unfoldable pub extract_from : ℕ → List ℕ → Option Extraction
extract_from fuel [] = some (record { sequences = []; remainder = [] })
extract_from zero (c ∷ cs) = none
extract_from (suc fuel) (c ∷ cs) = elim (next_end (c ∷ cs)) [
  | none ↦ some (record { sequences = []; remainder = c ∷ cs })
  | some n ↦ push (take n (c ∷ cs)) (extract_from fuel (drop n (c ∷ cs)))
]

-- Each round takes at least one unit, so the length of the text is enough fuel.
unfoldable pub extract_complete_sequences : List ℕ → Option Extraction
extract_complete_sequences buffer = extract_from (length buffer) buffer
