-- ===== src/Editing/Command.antt =====
-- The commands of the editor, each the method of packages/tui/src/components/editor.ts that its key
-- calls.
use co_mono.Base.{ℕ, List, [], ◌∷◌}
use co_mono.Editing.Editor.{
  Editor, Segmenter, insert_text_at_cursor, insert_character, add_new_line, undo,
}
use co_mono.Editing.Editor.Graphemes.{
  handle_backspace, handle_forward_delete, move_left, move_right, move_to_line_start,
  move_to_line_end,
}
use co_mono.Editing.Editor.Words.{move_word_backwards, move_word_forwards}
use co_mono.Editing.Editor.Kill.{
  delete_to_start_of_line, delete_to_end_of_line, delete_word_backwards, delete_word_forward,
}
use co_mono.Editing.Editor.Yank.{yank_text}
use co_mono.Editing.Editor.Texts.{set_text, navigate_up, navigate_down}

pub data Command : Type 0 where
  insert_text type_char set_whole : (text : List ℕ) → Command
  new_line backspace forward_delete left right line_start line_end word_left word_right : Command
  kill_line_start kill_line_end kill_word_left kill_word_right yank_last : Command
  older_prompt newer_prompt undo_last : Command

abbrev pub run : Segmenter → Command → Editor → Editor
run segmenter (insert_text text) = insert_text_at_cursor text
run segmenter (type_char text) = insert_character text
run segmenter (set_whole text) = set_text text
run segmenter new_line = add_new_line
run segmenter backspace = handle_backspace segmenter
run segmenter forward_delete = handle_forward_delete segmenter
run segmenter left = move_left segmenter
run segmenter right = move_right segmenter
run segmenter line_start = move_to_line_start
run segmenter line_end = move_to_line_end
run segmenter word_left = move_word_backwards segmenter
run segmenter word_right = move_word_forwards segmenter
run segmenter kill_line_start = delete_to_start_of_line
run segmenter kill_line_end = delete_to_end_of_line
run segmenter kill_word_left = delete_word_backwards segmenter
run segmenter kill_word_right = delete_word_forward segmenter
run segmenter yank_last = yank_text
run segmenter older_prompt = navigate_up
run segmenter newer_prompt = navigate_down
run segmenter undo_last = undo

abbrev pub run_all : Segmenter → List Command → Editor → Editor
run_all segmenter [] ed = ed
run_all segmenter (command ∷ commands) ed = run_all segmenter commands (run segmenter command ed)
