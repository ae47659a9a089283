-- ===== src/Editing/EditorTests.antt =====
-- An editor of two lines, with a segmenter whose segments are the units
-- (packages/tui/src/components/editor.ts).
use Prim.Native.Char.{code}
use co_mono.Base.{
  ℕ, ◌≡◌, refl, ap, String, none, List, [], ◌∷◌, map, to_chars, join_lines, split_lines, arith,
}
use co_mono.Editing.Editor.{Editor, Segmenter, get_text, undo, insert_character, add_new_line}
use co_mono.Editing.UndoStack
use co_mono.Editing.Editor.Graphemes.{handle_backspace, move_left}
use co_mono.Editing.Editor.Kill.{delete_word_backwards, delete_to_end_of_line}
use co_mono.Editing.Editor.Yank.{yank_text, insert_yanked_text}
use co_mono.Editing.Command.{
  Command, type_char, new_line, backspace, left, kill_word_left, kill_line_end, yank_last, run,
  run_all,
}
use co_mono.Editing.Reference.{contents, respond_all}
use co_mono.Editing.Refinement.Zipper.{IsInText}
use co_mono.Editing.Refinement.Text.{view_text}
use co_mono.Editing.Refinement.Graphemes.{IsSegmenter}
use co_mono.Editing.Refinement.View.{view, IsSound, none_left}
use co_mono.Editing.Refinement.Commands.{
  AllTyped, no_command, then_typed, IsTyped, run_all-respond_all, run_all-IsSound,
}
use co_mono.Editing.Refinement.Restore.{undo-run}
use co_mono.Editing.Refinement.KillYank.{yank_last-kill}

abbrev chars : String → List ℕ
chars s = map code (to_chars s)

abbrev one_by_one : List ℕ → List (List ℕ)
one_by_one [] = []
one_by_one (c ∷ cs) = (c ∷ []) ∷ one_by_one cs

abbrev units : Segmenter
units = record { segment = one_by_one }

units-IsSegmenter : IsSegmenter units
unfolding IsSegmenter
units-IsSegmenter [] = refl
units-IsSegmenter (c ∷ cs) = ap (c ∷◌) (units-IsSegmenter cs)

-- The cursor is behind the word `word` of the first line.
abbrev two_lines : Editor
two_lines = record {
  state = record { lines = chars "a word." ∷ chars "end" ∷ []; cursor_line = 0; cursor_col = 6 };
  history = [];
  history_index = none;
  kill_ring = [];
  last_action = none;
  undo_stack = [];
}

two_lines-IsSound : IsSound two_lines
unfolding IsInText
two_lines-IsSound = record { in_text = (omega arith, omega arith, refl); stack_in_text = none_left }

-- The word goes and comes back on a line of its own.
abbrev commands : List Command
commands = kill_word_left ∷ new_line ∷ yank_last ∷ type_char (chars "!") ∷ left ∷ backspace ∷ []

commands-AllTyped : AllTyped commands
unfolding IsTyped
commands-AllTyped =
    then_typed tt
      (then_typed tt (then_typed tt (then_typed refl (then_typed tt (then_typed tt no_command)))))

text_after-commands : get_text ((run_all units commands two_lines).state) ≡ chars "a \nwor!.\nend"
unfolding get_text join_lines handle_backspace move_left insert_character yank_text add_new_line
    delete_word_backwards insert_yanked_text split_lines
text_after-commands = refl

run_all-respond_all_example :
    (view (run_all units commands two_lines) ≡ respond_all units commands (view two_lines))
    × (get_text ((run_all units commands two_lines).state)
        ≡ contents ((respond_all units commands (view two_lines)).text))
run_all-respond_all_example =
    run_all-respond_all units commands two_lines units-IsSegmenter commands-AllTyped
      two_lines-IsSound

run_all-IsSound_example : IsSound (run_all units commands two_lines)
run_all-IsSound_example =
    run_all-IsSound units commands two_lines units-IsSegmenter commands-AllTyped two_lines-IsSound

undo-run_example :
    (view_text ((undo (run units backspace two_lines)).state) ≡ view_text (two_lines.state))
    × (get_text ((undo (run units backspace two_lines)).state) ≡ get_text (two_lines.state))
unfolding IsTyped handle_backspace UndoStack.push
undo-run_example =
    undo-run units backspace two_lines units-IsSegmenter tt two_lines-IsSound refl refl

yank_last-kill_example :
    get_text ((run units yank_last (run units kill_line_end two_lines)).state)
    ≡ get_text (two_lines.state)
unfolding IsTyped get_text join_lines delete_to_end_of_line
yank_last-kill_example =
    yank_last-kill units kill_line_end two_lines units-IsSegmenter tt two_lines-IsSound refl refl
      (omega arith)
