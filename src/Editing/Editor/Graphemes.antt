-- ===== src/Editing/Editor/Graphemes.antt =====
-- The operations of the editor on the grapheme beside the cursor, and the moves within a line
-- (packages/tui/src/components/editor.ts).
use co_mono.Base.{
  ℕ, suc, ◌+◌, ◌-◌, Option, none, some, List, [], ◌∷◌, ◌++◌, ltb, if◌then◌else◌, get_or_else,
  length, take, drop, get_elem?, last?, set, splice,
}
use co_mono.Editing.Editor.{
  EditorState, Editor, Segmenter, current_line, before_cursor, after_cursor, push_undo_snapshot,
}

-- The line before the cursor's is joined with it, for a cursor that is not in the first line.
unfoldable pub merge_with_previous : EditorState → EditorState
merge_with_previous st =
    let above = st.cursor_line - 1 in
    let previous = get_or_else (get_elem? (st.lines) above) [] in
    record {
      lines = splice (set (st.lines) above (previous ++ current_line st)) (st.cursor_line) 1 [];
      cursor_line = above;
      cursor_col = length previous;
    }

unfoldable pub merge_with_next : EditorState → EditorState
merge_with_next st =
    let next = get_or_else (get_elem? (st.lines) (suc (st.cursor_line))) [] in
    record st {
      lines =
          splice (set (st.lines) (st.cursor_line) (current_line st ++ next)) (suc (st.cursor_line))
            1 [];
    }

-- `graphemeLength`: 1 where the text has no grapheme.
abbrev pub grapheme_length : Option (List ℕ) → ℕ
grapheme_length none = 1
grapheme_length (some g) = length g

abbrev pub first? : List (List ℕ) → Option (List ℕ)
first? [] = none
first? (g ∷ gs) = some g

module _ (segmenter : Segmenter) where
  unfoldable pub handle_backspace : Editor → Editor
  unfolding push_undo_snapshot merge_with_previous
  handle_backspace ed =
      let st = ed.state in
      let size = grapheme_length (last? (segmenter.segment (before_cursor st))) in
      let quiet = record ed { last_action = none; history_index = none } in
      if ltb 0 (st.cursor_col)
      then record (push_undo_snapshot quiet) {
        state = record st {
          lines =
              set (st.lines) (st.cursor_line)
                (take (st.cursor_col - size) (current_line st) ++ after_cursor st);
          cursor_col = st.cursor_col - size;
        };
      }
      else if ltb 0 (st.cursor_line)
      then record (push_undo_snapshot quiet) { state = merge_with_previous st }
      else quiet

  unfoldable pub handle_forward_delete : Editor → Editor
  unfolding push_undo_snapshot merge_with_next
  handle_forward_delete ed =
      let st = ed.state in
      let size = grapheme_length (first? (segmenter.segment (after_cursor st))) in
      let quiet = record ed { last_action = none; history_index = none } in
      if ltb (st.cursor_col) (length (current_line st))
      then record (push_undo_snapshot quiet) {
        state = record st {
          lines =
              set (st.lines) (st.cursor_line)
                (before_cursor st ++ drop (st.cursor_col + size) (current_line st));
        };
      }
      else if ltb (suc (st.cursor_line)) (length (st.lines))
      then record (push_undo_snapshot quiet) { state = merge_with_next st }
      else quiet

  -- `moveCursor(0, 1)` and `moveCursor(0, -1)`
  unfoldable pub move_right : Editor → Editor
  move_right ed =
      let st = ed.state in
      let size = grapheme_length (first? (segmenter.segment (after_cursor st))) in
      if ltb (st.cursor_col) (length (current_line st))
      then record ed { last_action = none; state = record st { cursor_col = st.cursor_col + size } }
      else if ltb (suc (st.cursor_line)) (length (st.lines))
      then record ed {
        last_action = none;
        state = record st { cursor_line = suc (st.cursor_line); cursor_col = 0 };
      }
      else record ed { last_action = none }

  unfoldable pub move_left : Editor → Editor
  move_left ed =
      let st = ed.state in
      let size = grapheme_length (last? (segmenter.segment (before_cursor st))) in
      let above = st.cursor_line - 1 in
      if ltb 0 (st.cursor_col)
      then record ed { last_action = none; state = record st { cursor_col = st.cursor_col - size } }
      else if ltb 0 (st.cursor_line)
      then record ed {
        last_action = none;
        state = record st {
          cursor_line = above;
          cursor_col = length (get_or_else (get_elem? (st.lines) above) []);
        };
      }
      else record ed { last_action = none }

unfoldable pub move_to_line_start : Editor → Editor
move_to_line_start ed = record ed {
  last_action = none;
  state = record (ed.state) { cursor_col = 0 };
}

unfoldable pub move_to_line_end : Editor → Editor
move_to_line_end ed = record ed {
  last_action = none;
  state = record (ed.state) { cursor_col = length (current_line (ed.state)) };
}
