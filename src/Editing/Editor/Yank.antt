-- ===== src/Editing/Editor/Yank.antt =====
-- The operations of the editor that insert a text of the kill ring
-- (packages/tui/src/components/editor.ts).
use co_mono.Base.{
  ℕ, suc, ◌+◌, ◌-◌, Bool, true, false, ◌||◌, not, Option, none, some, List, [], ◌∷◌, ◌++◌, ◌==◌,
  leb, if◌then◌else◌, get_or_else, length, take, get_elem?, set, splice, split_lines,
}
use co_mono.Editing.KillRing
use co_mono.Editing.Editor.{
  Action, yank, EditorState, Editor, current_line, before_cursor, after_cursor, push_undo_snapshot,
  last_line,
}

-- The loop over the middle lines and the splice behind it. `i` counts from 1; the lines are the second
-- and those after it.
abbrev pub splice_lines : ℕ → ℕ → List ℕ → List (List ℕ) → List ℕ → List (List ℕ) → List (List ℕ)
splice_lines row i line [] after lines = splice lines (row + i) 0 ((line ++ after) ∷ [])
splice_lines row i line (m ∷ ms) after lines =
    splice_lines row (suc i) m ms after (splice lines (row + i) 0 (line ∷ []))

unfoldable pub insert_yanked_lines : List (List ℕ) → EditorState → EditorState
insert_yanked_lines [] st = st
insert_yanked_lines (line ∷ []) st = record st {
  lines = set (st.lines) (st.cursor_line) (before_cursor st ++ (line ++ after_cursor st));
  cursor_col = st.cursor_col + length line;
}
insert_yanked_lines (line ∷ m ∷ ms) st = record {
  lines =
      splice_lines (st.cursor_line) 1 m ms (after_cursor st)
        (set (st.lines) (st.cursor_line) (before_cursor st ++ line));
  cursor_line = st.cursor_line + length (m ∷ ms);
  cursor_col = length (last_line m ms);
}

unfoldable pub insert_yanked_text : List ℕ → EditorState → EditorState
unfolding insert_yanked_lines
insert_yanked_text text st = insert_yanked_lines (split_lines text) st

delete_yanked_lines : List (List ℕ) → List ℕ → EditorState → EditorState
delete_yanked_lines [] text st = st
delete_yanked_lines (line ∷ []) text st = record st {
  lines =
      set (st.lines) (st.cursor_line)
        (take (st.cursor_col - length text) (current_line st) ++ after_cursor st);
  cursor_col = st.cursor_col - length text;
}
delete_yanked_lines (line ∷ m ∷ ms) text st =
    let start_line = st.cursor_line - length (m ∷ ms) in
    let start = get_or_else (get_elem? (st.lines) start_line) [] in
    let start_col = length start - length line in
    record {
      lines =
          splice (st.lines) start_line (length (line ∷ m ∷ ms))
            ((take start_col start ++ after_cursor st) ∷ []);
      cursor_line = start_line;
      cursor_col = start_col;
    }

delete_yanked_text : Option (List ℕ) → EditorState → EditorState
unfolding delete_yanked_lines
delete_yanked_text none st = st
delete_yanked_text (some text) st =
    if length text == 0 then st else delete_yanked_lines (split_lines text) text st

abbrev is_yank : Option Action → Bool
is_yank (some yank) = true
is_yank _ = false

abbrev insert_entry : Option (List ℕ) → EditorState → EditorState
insert_entry none st = st
insert_entry (some text) st = insert_yanked_text text st

abbrev pub yank_entry : Option (List ℕ) → Editor → Editor
yank_entry none ed = ed
yank_entry (some text) ed = record (push_undo_snapshot ed) {
  state = insert_yanked_text text (ed.state);
  last_action = some yank;
  history_index = none;
}

unfoldable pub yank_text : Editor → Editor
yank_text ed = yank_entry (KillRing.peek (ed.kill_ring)) ed

yank_pop : Editor → Editor
yank_pop ed =
    let rotated = KillRing.rotate (ed.kill_ring) in
    if not (is_yank (ed.last_action)) || leb (length (ed.kill_ring)) 1
    then ed
    else record (push_undo_snapshot ed) {
      state =
          insert_entry (KillRing.peek rotated)
            (delete_yanked_text (KillRing.peek (ed.kill_ring)) (ed.state));
      kill_ring = rotated;
      last_action = some yank;
      history_index = none;
    }
