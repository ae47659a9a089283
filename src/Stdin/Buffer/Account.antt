-- ===== src/Stdin/Buffer/Account.antt =====
-- The text of a call of `StdinBuffer.process`: what goes in, what is emitted and what is held back,
-- for each part of the function (packages/tui/src/stdin-buffer.ts).
use co_mono.Base.{
  ℕ, ◌+◌, ◌≤◌, ◌<◌, ◌≡◌, ◌≢◌, ◌∙◌, sym, refl, ap, subst, ◌⊎◌, true, false, none, some, List, [],
  ◌∷◌, ◌++◌, append_assoc, append-nil, map, ltb, if◌then◌else◌, length, take, drop, Bool-cases, inl,
  inr, arith, length-drop, some_inj, drop-add,
}
use co_mono.Stdin.Extract.{Extraction, extract_complete_sequences}
use co_mono.Stdin.Extract.Chunks.{joined, extract-IsExtraction}
use co_mono.Stdin.Buffer.Occurrence.{index_of-Splits, index_of-bound}
use co_mono.Stdin.Buffer.{
  paste_start, paste_end, Event, key, paste, StdinBuffer, index_of, Output, after_events, end_paste,
  emit_sequences, before_paste, start_paste, process_typed, process_string,
}

-- The text that an event stands for.
abbrev event_text : Event → List ℕ
event_text (key s) = s
event_text (paste s) = paste_start ++ (s ++ paste_end)

abbrev pub written : List Event → List ℕ
written [] = []
written (e ∷ es) = event_text e ++ written es

-- The text that is held back.
abbrev pub pending : StdinBuffer → List ℕ
pending st = if st.paste_mode then paste_start ++ (st.paste_buffer ++ st.buffer) else st.buffer

-- The call ends, and what it emits and then holds back is `text`.
abbrev pub Accounts : Output → List ℕ → Type 0
Accounts out text =
    (o : StdinBuffer × List Event) × (out ≡ some o) × (written o.1 ++ pending o.0 ≡ text)

pub written-keys : (ss : List (List ℕ)) → written (map key ss) ≡ joined ss
written-keys [] = refl
written-keys (s ∷ ss) = ap (s ++◌) (written-keys ss)

written-append : (es fs : List Event) → written (es ++ fs) ≡ written es ++ written fs
written-append [] fs = refl
written-append (e ∷ es) fs =
    rw (written-append es fs) (sym (append_assoc (event_text e) (written es) (written fs)))

after_events-Accounts :
    (es : List Event) (out : Output) (text : List ℕ)
    → Accounts out text
    → Accounts (after_events es out) (written es ++ text)
after_events-Accounts es out text ((st, fs), e, h) = (
  (st, es ++ fs),
  ap (after_events es) e,
  rw (written-append es fs, append_assoc (written es) (written fs) (pending st), h) refl,
)

-- The escape sequences in front of a paste are complete.
abbrev IsWhole : List ℕ → Type 0
IsWhole text = (x : Extraction) × (extract_complete_sequences text ≡ some x) × (x.remainder ≡ [])

-- No paste that begins in the text tears an escape sequence: the text has no start of a paste; or it
-- has one behind complete sequences, whose end is not there yet; or whose end is there, and the same
-- holds of what follows.
pub data IsClean : List ℕ → Type 0 where
  typed : {text : List ℕ} → index_of paste_start text ≡ none → IsClean text
  open_paste :
      {text : List ℕ} (i : ℕ)
      → index_of paste_start text ≡ some i
      → IsWhole (take i text)
      → index_of paste_end (drop (i + length paste_start) text) ≡ none
      → IsClean text
  whole_paste :
      {text : List ℕ} (i j : ℕ)
      → index_of paste_start text ≡ some i
      → IsWhole (take i text)
      → index_of paste_end (drop (i + length paste_start) text) ≡ some j
      → IsClean (drop (j + length paste_end) (drop (i + length paste_start) text))
      → IsClean text

-- The same of what has arrived since the start of a paste.
abbrev pub IsCleanPaste : List ℕ → Type 0
IsCleanPaste text =
    (index_of paste_end text ≡ none)
    ⊎ ((j : ℕ) × (index_of paste_end text ≡ some j) × IsClean (drop (j + length paste_end) text))

abbrev pub Continues : (List ℕ → StdinBuffer → Output) → ℕ → Type 0
Continues continue n =
    (rest : List ℕ) (st : StdinBuffer)
    → length rest < n
    → rest ≢ []
    → st.paste_mode ≡ false
    → st.buffer ≡ []
    → IsClean rest
    → Accounts (continue rest st) rest

pub length_zero : (xs : List ℕ) → ltb 0 (length xs) ≡ false → xs ≡ []
length_zero [] h = refl
length_zero (x ∷ xs) h = absurd (ground arith)

paste-text :
    (pasted : List ℕ) (i : ℕ)
    → index_of paste_end pasted ≡ some i
    → written (paste (take i pasted) ∷ []) ++ drop (i + length paste_end) pasted
      ≡ paste_start ++ pasted
paste-text pasted i closed =
    let e = index_of-Splits paste_end pasted i closed in
    ap (λ t. t ++ drop (i + length paste_end) pasted)
      (append-nil (paste_start ++ (take i pasted ++ paste_end)))
    ∙ append_assoc paste_start (take i pasted ++ paste_end) (drop (i + length paste_end) pasted)
    ∙ ap (paste_start ++◌) (
        append_assoc (take i pasted) paste_end (drop (i + length paste_end) pasted)
        ∙ ap (λ t. take i pasted ++ (paste_end ++ t)) (drop-add i (length paste_end) pasted)
        ∙ sym e)

module _ (continue : List ℕ → StdinBuffer → Output) (n : ℕ) (c : Continues continue n) where
  end_paste-closed :
      (pasted : List ℕ) (st : StdinBuffer) (i : ℕ)
      → length pasted ≤ n
      → index_of paste_end pasted ≡ some i
      → IsClean (drop (i + length paste_end) pasted)
      → Accounts (end_paste continue pasted st) (paste_start ++ pasted)
  unfolding end_paste
  end_paste-closed pasted st i le closed clean =
      let remaining = drop (i + length paste_end) pasted in
      let idle = record st { buffer = []; paste_mode = false; paste_buffer = [] } in
      elim (Bool-cases (ltb 0 (length remaining))) [
        | inl more ↦
            rw (closed, more, end_paste)
              (subst
                (Accounts (after_events (paste (take i pasted) ∷ []) (continue remaining idle)))
                (paste-text pasted i closed)
                (after_events-Accounts (paste (take i pasted) ∷ []) (continue remaining idle)
                  remaining
                  (c remaining idle
                    (omega (
                      arith,
                      length-drop (i + length paste_end) pasted,
                      index_of-bound paste_end pasted i closed,
                    ))
                    (λ e. cc (ap length e, more)) refl refl clean)))
        | inr over ↦
            let e : remaining ≡ [] = length_zero remaining over in
            rw (closed, over, end_paste)
              (
                (idle, paste (take i pasted) ∷ []),
                refl,
                ap (λ t. written (paste (take i pasted) ∷ []) ++ t) (sym e)
                    ∙ paste-text pasted i closed,
              )
      ]

  pub end_paste-Accounts :
      (pasted : List ℕ) (st : StdinBuffer)
      → length pasted ≤ n
      → IsCleanPaste pasted
      → Accounts (end_paste continue pasted st) (paste_start ++ pasted)
  unfolding end_paste
  end_paste-Accounts pasted st le (inl open') =
      rw (open', end_paste)
        (
          (record st { buffer = []; paste_mode = true; paste_buffer = pasted }, []),
          refl,
          ap (paste_start ++◌) (append-nil pasted),
        )
  end_paste-Accounts pasted st le (inr (i, closed, clean)) =
      end_paste-closed pasted st i le closed clean

emit_sequences-Accounts :
    (st : StdinBuffer) (text : List ℕ)
    → st.paste_mode ≡ false
    → Accounts (emit_sequences st (extract_complete_sequences text)) text
unfolding emit_sequences
emit_sequences-Accounts st text mode =
    let (x, e, h) = extract-IsExtraction text in
    rw e (
      (
        record st { buffer = x.remainder; timeout = ltb 0 (length x.remainder) },
        map key x.sequences,
      ),
      refl,
      rw (mode, written-keys x.sequences) h.lossless,
    )

before_paste-Accounts :
    (before after : List ℕ) (rest : Output)
    → IsWhole before
    → Accounts rest after
    → Accounts (before_paste (extract_complete_sequences before) rest) (before ++ after)
unfolding before_paste
before_paste-Accounts before after rest (x, e, whole) h =
    let (x', e', ex) = extract-IsExtraction before in
    let same : x' ≡ x = some_inj (sym e' ∙ e) in
    let j : joined x.sequences ≡ before =
      sym (append-nil (joined x.sequences))
      ∙ ap (joined x.sequences ++◌) (sym whole)
      ∙ subst (λ y. joined y.sequences ++ y.remainder ≡ before) same ex.lossless in
    rw e (
      subst (λ t. Accounts (after_events (map key x.sequences) rest) (t ++ after))
        (written-keys x.sequences ∙ j) (after_events-Accounts (map key x.sequences) rest after h))

abbrev pub IsIdle : StdinBuffer → Type 0
IsIdle st = st.paste_mode ≡ false

module _ (fuel : ℕ) (step : Continues (process_string fuel) fuel) where
  -- The branch of `process` on which a paste begins in the text at `i`.
  paste-Accounts :
      (text : List ℕ) (st : StdinBuffer) (i : ℕ)
      → length text ≤ fuel
      → index_of paste_start text ≡ some i
      → IsWhole (take i text)
      → IsCleanPaste (drop (i + length paste_start) text)
      → Accounts (start_paste (process_string fuel) i text st) text
  unfolding start_paste
  paste-Accounts text st i le starts whole clean =
      let arrived = end_paste (process_string fuel) (drop (i + length paste_start) text) st in
      let bound = index_of-bound paste_start text i starts in
      let h : Accounts arrived (paste_start ++ drop (i + length paste_start) text) =
        end_paste-Accounts (process_string fuel) fuel step (drop (i + length paste_start) text) st
          (omega (arith, length-drop (i + length paste_start) text)) clean in
      let e : take i text ++ (paste_start ++ drop (i + length paste_start) text) ≡ text =
        ap (λ t. take i text ++ (paste_start ++ t)) (drop-add i (length paste_start) text)
        ∙ sym (index_of-Splits paste_start text i starts) in
      elim (Bool-cases (ltb 0 i)) [
        | inl later ↦ rw later (
            subst (Accounts (before_paste (extract_complete_sequences (take i text)) arrived)) e (
              before_paste-Accounts (take i text)
                (paste_start ++ drop (i + length paste_start) text) arrived whole h))
        | inr first ↦
            let zero' : i ≡ 0 = ground (arith, first) in
            rw first (
              subst (Accounts arrived)
                (ap (λ k. take k text ++ (paste_start ++ drop (i + length paste_start) text))
                    (sym zero')
                  ∙ e)
                h)
      ]

  pub clean-Accounts :
      (text : List ℕ) (st : StdinBuffer)
      → length text ≤ fuel
      → IsIdle st
      → IsClean text
      → Accounts (process_typed (process_string fuel) text st) text
  unfolding process_typed
  clean-Accounts text st le idle (typed none') =
      rw (none', process_typed) (emit_sequences-Accounts st text idle)
  clean-Accounts text st le idle (open_paste i starts whole open') =
      rw (starts, process_typed) (paste-Accounts text st i le starts whole (inl open'))
  clean-Accounts text st le idle (whole_paste i j starts whole ends rest) =
      rw (starts, process_typed) (paste-Accounts text st i le starts whole (inr (j, ends, rest)))
