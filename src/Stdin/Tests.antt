-- ===== src/Stdin/Tests.antt =====
-- Terminal input at concrete texts (packages/tui/src/stdin-buffer.ts).
use Prim.Native.Char.{code}
use co_mono.Base.{
  ℕ, ◌≡◌, refl, Bool, true, false, some, List, [], ◌∷◌, ◌++◌, map, inr, String, to_chars, arith,
}
use co_mono.Stdin.Sequence.{esc, is_complete_sequence}
use co_mono.Stdin.Extract.{Extraction, find_end, next_end, extract_from, extract_complete_sequences}
use co_mono.Stdin.Extract.Chunks.{prepend, IsExtraction, extract-IsExtraction, extract-chunks}
use co_mono.Stdin.Buffer.{
  paste_start, paste_end, Event, key, paste, StdinBuffer, Input, string, index_of, to_string,
  end_paste, process_typed, start_paste, before_paste, emit_sequences, process_string, process,
}
use co_mono.Stdin.Buffer.Account.{written, pending, Accounts, typed, whole_paste}
use co_mono.Stdin.Buffer.Flow.{process-idle, process-paste, process_string-torn}

abbrev text : String → List ℕ
text s = map code (to_chars s)

-- What the tests compute with.
run : Bool
unfolding is_complete_sequence find_end next_end extract_from extract_complete_sequences index_of
    to_string end_paste process_typed start_paste before_paste emit_sequences process_string process
run = true

abbrev mouse_begin : List ℕ
mouse_begin = text "q" ++ (esc ∷ text "[<35")

abbrev mouse_end : List ℕ
mouse_end = text ";20;5mz"

abbrev waiting : Extraction
waiting = record { sequences = text "q" ∷ []; remainder = esc ∷ text "[<35" }

-- A mouse event that arrives in two chunks is one sequence.
mouse_in_two_chunks :
    extract_complete_sequences (waiting.remainder ++ mouse_end)
    ≡ some (record { sequences = (esc ∷ text "[<35;20;5m") ∷ text "z" ∷ []; remainder = [] })
unfolding run
mouse_in_two_chunks = refl

extract-IsExtraction_example :
    (x : Extraction) × (extract_complete_sequences mouse_begin ≡ some x)
    × IsExtraction mouse_begin x
extract-IsExtraction_example = extract-IsExtraction mouse_begin

extract-chunks_example :
    extract_complete_sequences (mouse_begin ++ mouse_end)
    ≡ prepend waiting.sequences (extract_complete_sequences (waiting.remainder ++ mouse_end))
unfolding run
extract-chunks_example = extract-chunks mouse_begin mouse_end waiting refl

abbrev empty : StdinBuffer
empty = record { buffer = []; timeout = false; paste_mode = false; paste_buffer = [] }

abbrev pasting : StdinBuffer
pasting = record { buffer = []; timeout = false; paste_mode = true; paste_buffer = text "hel" }

abbrev typed_and_pasted : Input
typed_and_pasted = string (text "a" ++ (paste_start ++ (text "hi" ++ (paste_end ++ text "b"))))

events_of_paste :
    process (λ b. b) typed_and_pasted empty
    ≡ some (empty, key (text "a") ∷ paste (text "hi") ∷ key (text "b") ∷ [])
unfolding run
events_of_paste = refl

process-idle_example :
    Accounts
      (process (λ b. b) typed_and_pasted empty)
      (pending empty ++ to_string (λ b. b) typed_and_pasted)
unfolding run
process-idle_example =
    process-idle (λ b. b) typed_and_pasted empty refl
      (whole_paste 1 2 refl (record { sequences = text "a" ∷ []; remainder = [] }, refl, refl) refl
        (typed refl))

process-paste_example :
    Accounts
      (process (λ b. b) (string (text "lo" ++ paste_end)) pasting)
      (pending pasting ++ to_string (λ b. b) (string (text "lo" ++ paste_end)))
unfolding run
process-paste_example =
    process-paste (λ b. b) (string (text "lo" ++ paste_end)) pasting refl (λ e. cc)
      (inr (5, refl, typed refl))

-- Escape, and a paste right behind it.
process_string-torn_example :
    (o : StdinBuffer × List Event) × (pasted : List ℕ) × (process_string 1
        (esc ∷ (paste_start ++ text "hi"))
        empty
      ≡ some o)
    × (esc ∷ (paste_start ++ text "hi") ≡ (esc ∷ []) ++ (paste_start ++ pasted))
    × (written o.1 ++ pending o.0 ≡ paste_start ++ pasted)
unfolding run
process_string-torn_example =
    process_string-torn 0 (esc ∷ (paste_start ++ text "hi")) empty 1
      (record { sequences = []; remainder = esc ∷ [] }) refl (omega arith) refl refl refl
