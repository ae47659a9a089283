-- ===== src/Stdin/Buffer/Flow.antt =====
-- What class `StdinBuffer` promises of the text that flows through it: `process` ends, and what it
-- emits and holds back is what it was given (packages/tui/src/stdin-buffer.ts).
use co_mono.Base.{
  ℕ, zero, suc, ◌+◌, ◌<◌, ◌≡◌, ◌≢◌, ◌∙◌, sym, refl, ap, subst, true, false, ◌&&◌, none, some, List,
  [], ◌∷◌, ◌++◌, append_assoc, append-nil, map, ◌==◌, ltb, length, take, drop, Bool-cases, inl, inr,
  arith, length-append, drop-add, some_inj,
}
use co_mono.Stdin.Extract.{Extraction, extract_complete_sequences}
use co_mono.Stdin.Extract.Chunks.{joined, extract-IsExtraction}
use co_mono.Stdin.Buffer.Occurrence.{index_of-bound, index_of-Splits}
use co_mono.Stdin.Buffer.{
  paste_start, paste_end, Event, key, StdinBuffer, index_of, Output, end_paste, before_paste,
  start_paste, process_typed, process_string, Input, to_string, process,
}
use co_mono.Stdin.Buffer.Account.{
  written, pending, Accounts, IsClean, IsCleanPaste, Continues, IsIdle, end_paste-Accounts,
  clean-Accounts, length_zero, written-keys,
}

pending-idle : (st : StdinBuffer) → IsIdle st → pending st ≡ st.buffer
pending-idle st idle = rw idle refl

pending-paste :
    (st : StdinBuffer)
    → st.paste_mode ≡ true
    → pending st ≡ paste_start ++ (st.paste_buffer ++ st.buffer)
pending-paste st mode = rw mode refl

paste_assoc :
    (start kept held str : List ℕ)
    → start ++ (kept ++ (held ++ str)) ≡ (start ++ (kept ++ held)) ++ str
paste_assoc start kept held str =
    ap (start ++◌) (sym (append_assoc kept held str)) ∙ sym (append_assoc start (kept ++ held) str)

something-ne :
    (str : List ℕ) (st : StdinBuffer)
    → str ≢ []
    → (length str == 0 && length st.buffer == 0) ≡ false
something-ne [] st ne = absurd (ne refl)
something-ne (c ∷ cs) st ne = ground arith

nothing-Accounts :
    (str : List ℕ) (st : StdinBuffer)
    → IsIdle st
    → (length str == 0 && length st.buffer == 0) ≡ true
    → Accounts (some (record st { timeout = false }, key [] ∷ [])) (st.buffer ++ str)
nothing-Accounts str st idle h =
    let e : str ≡ [] = length_zero str (ground (arith, h)) in
    ((record st { timeout = false }, key [] ∷ []), refl, rw (idle, e) (sym (append-nil st.buffer)))

module _ (fuel : ℕ) (str : List ℕ) (st : StdinBuffer)
    (something : (length str == 0 && length st.buffer == 0) ≡ false) where
  process_string-process_typed :
      IsIdle st
      → process_string (suc fuel) str st
        ≡ process_typed (process_string fuel) (st.buffer ++ str) (record st { timeout = false })
  unfolding process_string
  process_string-process_typed idle = rw (something, idle) refl

  process_string-end_paste :
      st.paste_mode ≡ true
      → process_string (suc fuel) str st
        ≡ end_paste
            (process_string fuel)
            (st.paste_buffer ++ (st.buffer ++ str))
            (record st { timeout = false })
  unfolding process_string
  process_string-end_paste mode = rw (something, mode) refl

process_string-nothing :
    (fuel : ℕ) (str : List ℕ) (st : StdinBuffer)
    → (length str == 0 && length st.buffer == 0) ≡ true
    → process_string (suc fuel) str st ≡ some (record st { timeout = false }, key [] ∷ [])
unfolding process_string
process_string-nothing fuel str st nothing = rw nothing refl

process_string-idle :
    (fuel : ℕ) (str : List ℕ) (st : StdinBuffer)
    → length str + length st.buffer < fuel
    → IsIdle st
    → IsClean (st.buffer ++ str)
    → Accounts (process_string fuel str st) (st.buffer ++ str)
process_string-idle zero str st le idle clean = absurd (omega arith)
process_string-idle (suc fuel) str st le idle clean =
    let step : Continues (process_string fuel) fuel = λ rest st' small ne idle' empty clean'.
      subst (λ b. Accounts (process_string fuel rest st') (b ++ rest)) empty
        (process_string-idle fuel rest st' (omega (arith, small, ap length empty)) idle'
          (subst (λ b. IsClean (b ++ rest)) (sym empty) clean')) in
    elim (Bool-cases (length str == 0 && length st.buffer == 0)) [
      | inl nothing ↦
          rw (process_string-nothing fuel str st nothing) (nothing-Accounts str st idle nothing)
      | inr something ↦ rw (process_string-process_typed fuel str st something idle) (
          clean-Accounts fuel step (st.buffer ++ str) (record st { timeout = false })
            (omega (arith, length-append st.buffer str)) idle clean)
    ]

-- What each fuel leaves to the call that handles the text behind a paste.
Continues-process_string : (fuel : ℕ) → Continues (process_string fuel) fuel
Continues-process_string fuel rest st small ne idle empty clean =
    subst (λ b. Accounts (process_string fuel rest st) (b ++ rest)) empty
      (process_string-idle fuel rest st (omega (arith, small, ap length empty)) idle
        (subst (λ b. IsClean (b ++ rest)) (sym empty) clean))

module _ (decode : List ℕ → List ℕ) (input : Input) (st : StdinBuffer) where
  -- Outside of a paste: where no paste tears an escape sequence, the call ends, and the text of the
  -- events with the text that is held back is the text that was held back before with the input.
  pub process-idle :
      IsIdle st
      → IsClean (st.buffer ++ to_string decode input)
      → Accounts (process decode input st) (pending st ++ to_string decode input)
  unfolding process
  process-idle idle clean =
      rw (pending-idle st idle)
        (process_string-idle _ (to_string decode input) st (omega arith) idle clean)

  -- Inside of a paste the same holds, where a paste has its start and its end around it.
  pub process-paste :
      st.paste_mode ≡ true
      → to_string decode input ≢ []
      → IsCleanPaste (st.paste_buffer ++ (st.buffer ++ to_string decode input))
      → Accounts (process decode input st) (pending st ++ to_string decode input)
  unfolding process
  process-paste mode ne clean =
      let str = to_string decode input in
      let fuel = length str + length st.buffer + length st.paste_buffer in
      let pasted = st.paste_buffer ++ (st.buffer ++ str) in
      let e : paste_start ++ pasted ≡ pending st ++ str =
        rw (pending-paste st mode) (paste_assoc paste_start st.paste_buffer st.buffer str) in
      rw (process_string-end_paste fuel str st (something-ne str st ne) mode) (
        subst (Accounts (end_paste (process_string fuel) pasted (record st { timeout = false }))) e
          (end_paste-Accounts (process_string fuel) fuel (Continues-process_string fuel) pasted
            (record st { timeout = false })
            (omega (
              arith,
              length-append st.paste_buffer (st.buffer ++ str),
              length-append st.buffer str,
            ))
            clean))

torn-step :
    (continue : List ℕ → StdinBuffer → Output) (text : List ℕ) (st : StdinBuffer) (i : ℕ)
    (x : Extraction)
    → ltb 0 i ≡ true
    → index_of paste_start text ≡ some i
    → index_of paste_end (drop (i + length paste_start) text) ≡ none
    → extract_complete_sequences (take i text) ≡ some x
    → process_typed continue text st
      ≡ some (
        record st {
          buffer = [];
          paste_mode = true;
          paste_buffer = drop (i + length paste_start) text;
        },
        map key x.sequences ++ [],
      )
unfolding process_typed start_paste before_paste end_paste
torn-step continue text st i x later starts open' ext =
    rw (starts, later, ext, open', process_typed, start_paste, before_paste, end_paste) refl

-- The text in front of a paste is its sequences and what they leave over.
torn-text :
    (text : List ℕ) (i : ℕ) (x : Extraction)
    → index_of paste_start text ≡ some i
    → extract_complete_sequences (take i text) ≡ some x
    → text
      ≡ joined x.sequences ++ (x.remainder ++ (paste_start ++ drop (i + length paste_start) text))
torn-text text i x starts ext =
    let (x', e', ex) = extract-IsExtraction (take i text) in
    let same : x' ≡ x = some_inj (sym e' ∙ ext) in
    let whole : joined x.sequences ++ x.remainder ≡ take i text =
      subst (λ y. joined y.sequences ++ y.remainder ≡ take i text) same ex.lossless in
    let rest = paste_start ++ drop (i + length paste_start) text in
    index_of-Splits paste_start text i starts
    ∙ ap (λ t. take i text ++ (paste_start ++ t)) (sym (drop-add i (length paste_start) text))
    ∙ ap (◌++ rest) (sym whole)
    ∙ append_assoc (joined x.sequences) x.remainder rest

torn-written :
    (x : Extraction) (pasted : List ℕ)
    → written (map key x.sequences ++ []) ++ (paste_start ++ (pasted ++ []))
      ≡ joined x.sequences ++ (paste_start ++ pasted)
torn-written x pasted =
    rw (append-nil (map key x.sequences), written-keys x.sequences, append-nil pasted) refl

-- Outside of a paste, where a paste starts behind other text and its end has not come: the call ends, and what it emits
-- and holds back are the complete sequences in front of the paste, the start of the paste and the pasted
-- text. The text that came is this with the remainder of those sequences, nothing or an incomplete escape sequence,
-- between them and the paste: exactly the units of the remainder are lost.
pub process_string-torn :
    (fuel : ℕ) (str : List ℕ) (st : StdinBuffer) (i : ℕ) (x : Extraction)
    → IsIdle st
    → 0 < i
    → index_of paste_start (st.buffer ++ str) ≡ some i
    → index_of paste_end (drop (i + length paste_start) (st.buffer ++ str)) ≡ none
    → extract_complete_sequences (take i (st.buffer ++ str)) ≡ some x
    → (o : StdinBuffer × List Event) × (pasted : List ℕ) × (process_string (suc fuel) str st
        ≡ some o)
      × (st.buffer ++ str ≡ joined x.sequences ++ (x.remainder ++ (paste_start ++ pasted)))
      × (written o.1 ++ pending o.0 ≡ joined x.sequences ++ (paste_start ++ pasted))
process_string-torn fuel str st i x idle pos starts open' ext =
    let text = st.buffer ++ str in
    let pasted = drop (i + length paste_start) text in
    let later : ltb 0 i ≡ true = ground (arith, pos) in
    let bound = index_of-bound paste_start text i starts in
    let something : (length str == 0 && length st.buffer == 0) ≡ false =
      ground (arith, bound, pos, length-append st.buffer str) in
    (
      (
        record st { buffer = []; timeout = false; paste_mode = true; paste_buffer = pasted },
        map key x.sequences ++ [],
      ),
      pasted,
      process_string-process_typed fuel str st something idle
          ∙ torn-step (process_string fuel) text (record st { timeout = false }) i x later starts
              open' ext,
      torn-text text i x starts ext,
      torn-written x pasted,
    )
