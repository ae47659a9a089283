-- ===== src/Editing/Editor/Words.antt =====
-- The moves of the editor over words (packages/tui/src/components/editor.ts), and the tests on
-- graphemes they use (packages/tui/src/utils.ts).
use co_mono.Base.{
  ℕ, suc, ◌+◌, ◌-◌, Bool, not, ◌&&◌, none, List, [], ◌∷◌, ◌==◌, ltb, leb, if◌then◌else◌,
  get_or_else, length, get_elem?, any, reverse,
}
use co_mono.Editing.Editor.{
  Editor, Segmenter, current_line, before_cursor, after_cursor, is_whitespace_char,
}

-- `PUNCTUATION_REGEX`
abbrev punctuation : List ℕ
punctuation =
    b'(' ∷ b')' ∷ b'{' ∷ b'}' ∷ b'[' ∷ b']' ∷ b'<' ∷ b'>' ∷ b'.' ∷ b',' ∷ b';' ∷ b':' ∷ 0x27 ∷ b'"'
    ∷ b'!' ∷ b'?' ∷ b'+' ∷ b'-' ∷ b'=' ∷ b'*' ∷ b'/' ∷ 0x5c ∷ b'|' ∷ b'&' ∷ b'%' ∷ b'^' ∷ b'$'
    ∷ b'#' ∷ b'@' ∷ b'~' ∷ b'`' ∷ []

abbrev is_punctuation_char : List ℕ → Bool
is_punctuation_char g = any (λ c. any (λ d. c == d) punctuation) g

abbrev is_word : List ℕ → Bool
is_word g = not (is_whitespace_char g) && not (is_punctuation_char g)

-- A loop that takes the graphemes with `p` off the end, with the column. The last comes first.
abbrev pub skip_back : (List ℕ → Bool) → ℕ → List (List ℕ) → ℕ × List (List ℕ)
skip_back p col [] = (col, [])
skip_back p col (g ∷ gs) =
    let rest = skip_back p (col - length g) gs in if p g then rest else (col, g ∷ gs)

-- A loop that takes the graphemes with `p` off the iterator.
abbrev pub skip_forward : (List ℕ → Bool) → ℕ → List (List ℕ) → ℕ × List (List ℕ)
skip_forward p col [] = (col, [])
skip_forward p col (g ∷ gs) =
    let rest = skip_forward p (col + length g) gs in if p g then rest else (col, g ∷ gs)

-- The run of punctuation or of a word that `g` begins.
abbrev pub run_of : List ℕ → List ℕ → Bool
run_of g = if is_punctuation_char g then is_punctuation_char else is_word

abbrev pub run_back : ℕ × List (List ℕ) → ℕ
run_back (col, []) = col
run_back (col, g ∷ gs) = (skip_back (run_of g) col (g ∷ gs)).0

abbrev pub run_forward : ℕ × List (List ℕ) → ℕ
run_forward (col, []) = col
run_forward (col, g ∷ gs) = (skip_forward (run_of g) col (g ∷ gs)).0

module _ (segmenter : Segmenter) where
  -- `newCol` of `moveWordBackwards` for a cursor that is not at the start of the line
  abbrev pub word_start : ℕ → List ℕ → ℕ
  word_start col text =
      run_back (skip_back is_whitespace_char col (reverse (segmenter.segment text)))

  -- `newCol` of `moveWordForwards` for a cursor that is not at the end of the line
  abbrev pub word_end : ℕ → List ℕ → ℕ
  word_end col text = run_forward (skip_forward is_whitespace_char col (segmenter.segment text))

  unfoldable pub move_word_backwards : Editor → Editor
  move_word_backwards ed =
      let st = ed.state in
      let above = st.cursor_line - 1 in
      let start = word_start (st.cursor_col) (before_cursor st) in
      if st.cursor_col == 0
      then if ltb 0 (st.cursor_line)
        then record ed {
          last_action = none;
          state = record st {
            cursor_line = above;
            cursor_col = length (get_or_else (get_elem? (st.lines) above) []);
          };
        }
        else record ed { last_action = none }
      else record ed { last_action = none; state = record st { cursor_col = start } }

  unfoldable pub move_word_forwards : Editor → Editor
  move_word_forwards ed =
      let st = ed.state in
      let end = word_end (st.cursor_col) (after_cursor st) in
      if leb (length (current_line st)) (st.cursor_col)
      then if ltb (suc (st.cursor_line)) (length (st.lines))
        then record ed {
          last_action = none;
          state = record st { cursor_line = suc (st.cursor_line); cursor_col = 0 };
        }
        else record ed { last_action = none }
      else record ed { last_action = none; state = record st { cursor_col = end } }
