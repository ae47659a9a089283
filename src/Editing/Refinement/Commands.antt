-- ===== src/Editing/Refinement/Commands.antt =====
-- Every command of the editor agrees with the reference, and so does every sequence of them.
use co_mono.Base.{◌≡◌, ◌∙◌, ap, refl, sym, subst, true, List, [], ◌∷◌}
use co_mono.Editing.Editor.{EditorState, Editor, Segmenter, get_text}
use co_mono.Editing.Command.{
  Command, insert_text, type_char, set_whole, new_line, backspace, forward_delete, left, right,
  line_start, line_end, word_left, word_right, kill_line_start, kill_line_end, kill_word_left,
  kill_word_right, yank_last, older_prompt, newer_prompt, undo_last, run, run_all,
}
use co_mono.Editing.Reference.{Reference, contents, respond, respond_all}
use co_mono.Editing.Refinement.Zipper.{is_line, zip, IsInText}
use co_mono.Editing.Refinement.Text.{view_text, view_text-at}
use co_mono.Editing.Refinement.Graphemes.{IsSegmenter}
use co_mono.Editing.Refinement.View.{view, IsSound, Agree, Agree-everywhere}
use co_mono.Editing.Refinement.Back.{
  handle_backspace-Agree, move_left-Agree, move_word_backwards-Agree, delete_word_backwards-Agree,
  delete_to_start_of_line-Agree,
}
use co_mono.Editing.Refinement.Forward.{
  handle_forward_delete-Agree, move_right-Agree, move_word_forwards-Agree,
  delete_word_forward-Agree, delete_to_end_of_line-Agree,
}
use co_mono.Editing.Refinement.Whole.{
  insert_text_at_cursor-Agree, insert_character-Agree, add_new_line-Agree, move_to_line_start-Agree,
  move_to_line_end-Agree, set_text-Agree, yank_text-Agree, navigate_up-Agree, navigate_down-Agree,
  contents-at,
}
use co_mono.Editing.Refinement.Undo.{undo-Agree}

-- A character that is typed has no line end: for that the key is another command.
unfoldable pub IsTyped : Command → Type 0
IsTyped (type_char cs) = is_line cs ≡ true
IsTyped _ = Unit

pub run-Agree :
    (segmenter : Segmenter) (command : Command) (ed : Editor)
    → IsSegmenter segmenter
    → IsTyped command
    → IsSound ed
    → Agree (run segmenter command ed) (respond segmenter command (view ed))
unfolding respond IsTyped view
run-Agree segmenter (insert_text cs) ed law typed =
    Agree-everywhere (run segmenter (insert_text cs)) (respond segmenter (insert_text cs))
      (λ ed z p s. insert_text_at_cursor-Agree ed z p s cs) ed
run-Agree segmenter (type_char cs) ed law typed =
    Agree-everywhere (run segmenter (type_char cs)) (respond segmenter (type_char cs))
      (λ ed z p s. insert_character-Agree ed z p s cs typed) ed
run-Agree segmenter (set_whole cs) ed law typed =
    Agree-everywhere (run segmenter (set_whole cs)) (respond segmenter (set_whole cs))
      (λ ed z p s. set_text-Agree ed z p s cs) ed
run-Agree segmenter new_line ed law typed =
    Agree-everywhere (run segmenter new_line) (respond segmenter new_line) add_new_line-Agree ed
run-Agree segmenter backspace ed law typed =
    Agree-everywhere (run segmenter backspace) (respond segmenter backspace)
      (handle_backspace-Agree segmenter law) ed
run-Agree segmenter forward_delete ed law typed =
    Agree-everywhere (run segmenter forward_delete) (respond segmenter forward_delete)
      (handle_forward_delete-Agree segmenter law) ed
run-Agree segmenter left ed law typed =
    Agree-everywhere (run segmenter left) (respond segmenter left) (move_left-Agree segmenter law)
      ed
run-Agree segmenter right ed law typed =
    Agree-everywhere (run segmenter right) (respond segmenter right)
      (move_right-Agree segmenter law) ed
run-Agree segmenter line_start ed law typed =
    Agree-everywhere (run segmenter line_start) (respond segmenter line_start)
      move_to_line_start-Agree ed
run-Agree segmenter line_end ed law typed =
    Agree-everywhere (run segmenter line_end) (respond segmenter line_end) move_to_line_end-Agree ed
run-Agree segmenter word_left ed law typed =
    Agree-everywhere (run segmenter word_left) (respond segmenter word_left)
      (move_word_backwards-Agree segmenter law) ed
run-Agree segmenter word_right ed law typed =
    Agree-everywhere (run segmenter word_right) (respond segmenter word_right)
      (move_word_forwards-Agree segmenter law) ed
run-Agree segmenter kill_line_start ed law typed =
    Agree-everywhere (run segmenter kill_line_start) (respond segmenter kill_line_start)
      delete_to_start_of_line-Agree ed
run-Agree segmenter kill_line_end ed law typed =
    Agree-everywhere (run segmenter kill_line_end) (respond segmenter kill_line_end)
      delete_to_end_of_line-Agree ed
run-Agree segmenter kill_word_left ed law typed =
    Agree-everywhere (run segmenter kill_word_left) (respond segmenter kill_word_left)
      (delete_word_backwards-Agree segmenter law) ed
run-Agree segmenter kill_word_right ed law typed =
    Agree-everywhere (run segmenter kill_word_right) (respond segmenter kill_word_right)
      (delete_word_forward-Agree segmenter law) ed
run-Agree segmenter yank_last ed law typed =
    Agree-everywhere (run segmenter yank_last) (respond segmenter yank_last) yank_text-Agree ed
run-Agree segmenter older_prompt ed law typed =
    Agree-everywhere (run segmenter older_prompt) (respond segmenter older_prompt) navigate_up-Agree
      ed
run-Agree segmenter newer_prompt ed law typed =
    Agree-everywhere (run segmenter newer_prompt) (respond segmenter newer_prompt)
      navigate_down-Agree ed
run-Agree segmenter undo_last ed law typed = undo-Agree ed

pub data AllTyped : List Command → Type 0 where
  no_command : AllTyped []
  then_typed :
      {command : Command} {commands : List Command}
      → IsTyped command
      → AllTyped commands
      → AllTyped (command ∷ commands)

run_all-Agree :
    (segmenter : Segmenter) (commands : List Command) (ed : Editor)
    → IsSegmenter segmenter
    → AllTyped commands
    → IsSound ed
    → Agree (run_all segmenter commands ed) (respond_all segmenter commands (view ed))
run_all-Agree segmenter [] ed law no_command sound = record { same = refl; sound = sound }
run_all-Agree segmenter (command ∷ commands) ed law (then_typed h typed) sound =
    let first = run-Agree segmenter command ed law h sound in
    subst
      (λ r.
        Agree (run_all segmenter commands (run segmenter command ed))
          (respond_all segmenter commands r))
      (first.same)
      (run_all-Agree segmenter commands (run segmenter command ed) law typed (first.sound))

pub get_text-contents : (st : EditorState) → IsInText st → get_text st ≡ contents (view_text st)
get_text-contents st h =
    let (z, plain, parts) = zip st h in
    subst (λ s. get_text s ≡ contents (view_text s)) (sym parts)
      (contents-at z ∙ ap contents (sym (view_text-at z)))

-- After any commands, for a segmenter whose segments of a text join to the text, the editor is where the
-- reference on one text is: the texts before and after the cursor, the history and the place in it, the
-- kill ring, the last action and the texts to undo to. The editor's text is that of the reference. The
-- editor starts with its cursor, and those of its snapshots, in the text, and no typed character is a
-- line end.
pub run_all-respond_all :
    (segmenter : Segmenter) (commands : List Command) (ed : Editor)
    → IsSegmenter segmenter
    → AllTyped commands
    → IsSound ed
    → (view (run_all segmenter commands ed) ≡ respond_all segmenter commands (view ed))
      × (get_text ((run_all segmenter commands ed).state)
          ≡ contents ((respond_all segmenter commands (view ed)).text))
unfolding view
run_all-respond_all segmenter commands ed law typed sound =
    let agree = run_all-Agree segmenter commands ed law typed sound in
    (
      agree.same,
      get_text-contents ((run_all segmenter commands ed).state) (agree.sound.in_text)
          ∙ ap (λ (r : Reference). contents (r.text)) (agree.same),
    )

-- After any commands the cursor is at a column of one of the lines, and no line has a line end, in the
-- editor's state and in every snapshot, if this was so before them, for a segmenter whose segments of a
-- text join to the text and typed characters that are no line ends.
pub run_all-IsSound :
    (segmenter : Segmenter) (commands : List Command) (ed : Editor)
    → IsSegmenter segmenter
    → AllTyped commands
    → IsSound ed
    → IsSound (run_all segmenter commands ed)
run_all-IsSound segmenter commands ed law typed sound =
    (run_all-Agree segmenter commands ed law typed sound).sound
