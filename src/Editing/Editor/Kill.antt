-- ===== src/Editing/Editor/Kill.antt =====
-- The operations of the editor that move a text to the kill ring
-- (packages/tui/src/components/editor.ts).
use co_mono.Base.{
  ℕ, suc, Bool, true, false, Option, none, some, List, [], ◌∷◌, ◌++◌, ◌==◌, ltb, leb, if◌then◌else◌,
  length, take, drop, set,
}
use co_mono.Editing.KillRing.{PushOptions}
use co_mono.Editing.KillRing
use co_mono.Editing.Editor.{
  Action, kill, EditorState, Editor, Segmenter, current_line, before_cursor, after_cursor,
  push_undo_snapshot,
}
use co_mono.Editing.Editor.Graphemes.{merge_with_previous, merge_with_next}
use co_mono.Editing.Editor.Words.{move_word_backwards, move_word_forwards}

abbrev pub is_kill : Option Action → Bool
is_kill (some kill) = true
is_kill _ = false

-- The snapshot, the text that goes to the ring and the state without it.
unfoldable pub kill_text : List ℕ → PushOptions → EditorState → Editor → Editor
unfolding push_undo_snapshot KillRing.push
kill_text text options st ed = record (push_undo_snapshot ed) {
  state = st;
  kill_ring = KillRing.push text options (ed.kill_ring);
  last_action = some kill;
  history_index = none;
}

abbrev backward : Editor → PushOptions
backward ed = record { prepend = true; accumulate = is_kill (ed.last_action) }

abbrev forward : Editor → PushOptions
forward ed = record { prepend = false; accumulate = is_kill (ed.last_action) }

abbrev pub quiet : Editor → Editor
quiet ed = record ed { history_index = none }

unfoldable pub delete_to_start_of_line : Editor → Editor
unfolding kill_text merge_with_previous
delete_to_start_of_line ed =
    let st = ed.state in
    if ltb 0 (st.cursor_col)
    then kill_text (before_cursor st) (backward ed)
        (record st { lines = set (st.lines) (st.cursor_line) (after_cursor st); cursor_col = 0 }) ed
    else if ltb 0 (st.cursor_line)
    then kill_text (0x0a ∷ []) (backward ed) (merge_with_previous st) ed
    else quiet ed

unfoldable pub delete_to_end_of_line : Editor → Editor
unfolding kill_text merge_with_next
delete_to_end_of_line ed =
    let st = ed.state in
    if ltb (st.cursor_col) (length (current_line st))
    then kill_text (after_cursor st) (forward ed)
        (record st { lines = set (st.lines) (st.cursor_line) (before_cursor st) }) ed
    else if ltb (suc (st.cursor_line)) (length (st.lines))
    then kill_text (0x0a ∷ []) (forward ed) (merge_with_next st) ed
    else quiet ed

module _ (segmenter : Segmenter) where
  unfoldable pub delete_word_backwards : Editor → Editor
  unfolding kill_text merge_with_previous move_word_backwards
  delete_word_backwards ed =
      let st = ed.state in
      let from = (move_word_backwards segmenter ed).state.cursor_col in
      if st.cursor_col == 0
      then if ltb 0 (st.cursor_line)
        then kill_text (0x0a ∷ []) (backward ed) (merge_with_previous st) ed
        else quiet ed
      else kill_text (drop from (before_cursor st)) (backward ed)
          (record st {
            lines =
                set (st.lines) (st.cursor_line) (take from (current_line st) ++ after_cursor st);
            cursor_col = from;
          })
          ed

  unfoldable pub delete_word_forward : Editor → Editor
  unfolding kill_text merge_with_next move_word_forwards
  delete_word_forward ed =
      let st = ed.state in
      let to = (move_word_forwards segmenter ed).state.cursor_col in
      if leb (length (current_line st)) (st.cursor_col)
      then if ltb (suc (st.cursor_line)) (length (st.lines))
        then kill_text (0x0a ∷ []) (forward ed) (merge_with_next st) ed
        else quiet ed
      else kill_text (drop (st.cursor_col) (take to (current_line st))) (forward ed)
          (record st {
            lines = set (st.lines) (st.cursor_line) (before_cursor st ++ drop to (current_line st));
          })
          ed
