-- ===== src/Stdin/Buffer.antt =====
-- Class `StdinBuffer` (packages/tui/src/stdin-buffer.ts). A call returns the new state and the events
-- that it emits.
mod Occurrence
pub mod Account
pub mod Flow
use co_mono.Base.{
  ℕ, zero, suc, ◌+◌, ◌-◌, Bool, true, false, not, ◌&&◌, Option, none, some, List, [], ◌∷◌, ◌++◌,
  map, ◌==◌, ltb, if◌then◌else◌, length, take, drop,
}
use co_mono.Stdin.Sequence.{esc, starts_with}
use co_mono.Stdin.Extract.{Extraction, extract_complete_sequences}

-- ESC [200~ and ESC [201~
abbrev pub paste_start : List ℕ
paste_start = esc ∷ b'[' ∷ b'2' ∷ b'0' ∷ b'0' ∷ b'~' ∷ []

abbrev pub paste_end : List ℕ
paste_end = esc ∷ b'[' ∷ b'2' ∷ b'0' ∷ b'1' ∷ b'~' ∷ []

pub data Event : Type 0 where
  key paste : List ℕ → Event

-- `timeout` is whether the timer runs that flushes an incomplete sequence.
pub record StdinBuffer : Type 0 where
  pub buffer : List ℕ
  pub timeout : Bool
  pub paste_mode : Bool
  pub paste_buffer : List ℕ

-- `string | Buffer`
pub data Input : Type 0 where
  string : List ℕ → Input
  bytes : List ℕ → Input

-- `text.indexOf(pattern)`, `none` for -1, of a pattern that is not empty
unfoldable pub index_of : List ℕ → List ℕ → Option ℕ
index_of pattern [] = none
index_of pattern (x ∷ xs) =
    let rest = index_of pattern xs in
    if starts_with (x ∷ xs) pattern
    then some 0
    else elim rest [ none ↦ none | some i ↦ some (suc i) ]

abbrev pub Output : Type 0
Output = Option (StdinBuffer × List Event)

abbrev pub after_events : List Event → Output → Output
after_events es none = none
after_events es (some (st, later)) = some (st, es ++ later)

-- Paste mode is on and the paste has arrived up to `pasted`; `continue` handles what follows its end.
unfoldable pub end_paste :
    (continue : List ℕ → StdinBuffer → Output) → List ℕ → StdinBuffer → Output
end_paste continue pasted st = elim (index_of paste_end pasted) [
  | none ↦ some (record st { buffer = []; paste_mode = true; paste_buffer = pasted }, [])
  | some i ↦
      let idle = record st { buffer = []; paste_mode = false; paste_buffer = [] } in
      let remaining = drop (i + length paste_end) pasted in
      let rest = continue remaining idle in
      if ltb 0 (length remaining)
      then after_events (paste (take i pasted) ∷ []) rest
      else some (idle, paste (take i pasted) ∷ [])
]

-- The branch with no paste.
unfoldable pub emit_sequences : StdinBuffer → Option Extraction → Output
emit_sequences st none = none
emit_sequences st (some x) =
    some (
      record st { buffer = x.remainder; timeout = ltb 0 (length x.remainder) },
      map key x.sequences,
    )

-- The sequences in front of a paste; what they leave over is dropped.
unfoldable pub before_paste : Option Extraction → Output → Output
before_paste none rest = none
before_paste (some x) rest = after_events (map key x.sequences) rest

-- A paste that begins in the text at `i`.
unfoldable pub start_paste :
    (continue : List ℕ → StdinBuffer → Output) → ℕ → List ℕ → StdinBuffer → Output
start_paste continue i text st =
    let arrived = end_paste continue (drop (i + length paste_start) text) st in
    if ltb 0 i then before_paste (extract_complete_sequences (take i text)) arrived else arrived

-- The text outside of a paste: what was held back and what has come.
unfoldable pub process_typed :
    (continue : List ℕ → StdinBuffer → Output) → List ℕ → StdinBuffer → Output
process_typed continue text st = elim (index_of paste_start text) [
  | none ↦ emit_sequences st (extract_complete_sequences text)
  | some i ↦ start_paste continue i text st
]

-- `process`, on a string; `none` means that the fuel ran out.
unfoldable pub process_string : ℕ → List ℕ → StdinBuffer → Output
process_string zero str st = none
process_string (suc fuel) str st =
    let text = st.buffer ++ str in
    let idle = record st { timeout = false } in
    let continue = λ (rest : List ℕ) (st' : StdinBuffer). process_string fuel rest st' in
    if length str == 0 && length st.buffer == 0
    then some (idle, key [] ∷ [])
    else if st.paste_mode
    then end_paste continue (st.paste_buffer ++ text) idle
    else process_typed continue text idle

-- A single byte above 127 is an escape and the byte less 128; else the bytes are decoded.
unfoldable pub to_string : (decode : List ℕ → List ℕ) → Input → List ℕ
to_string decode (string s) = s
to_string decode (bytes (b ∷ [])) = if ltb 127 b then esc ∷ (b - 128) ∷ [] else decode (b ∷ [])
to_string decode (bytes bs) = decode bs

-- One round for each end of a paste, so the texts together are enough fuel.
unfoldable pub process : (decode : List ℕ → List ℕ) → Input → StdinBuffer → Output
process decode input st =
    let str = to_string decode input in
    process_string (suc (length str + length st.buffer + length st.paste_buffer)) str st

pub flush : StdinBuffer → StdinBuffer × List (List ℕ)
flush st =
    if length st.buffer == 0
    then (record st { timeout = false }, [])
    else (record st { timeout = false; buffer = [] }, st.buffer ∷ [])

-- The timer that `process` sets: it flushes, and emits what was flushed.
on_timeout : StdinBuffer → StdinBuffer × List Event
unfolding flush
on_timeout st = let (st', flushed) = flush st in (st', map key flushed)

abbrev clear : StdinBuffer → StdinBuffer
clear st = record { buffer = []; timeout = false; paste_mode = false; paste_buffer = [] }
