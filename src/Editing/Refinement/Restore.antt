-- ===== src/Editing/Refinement/Restore.antt =====
-- What undo restores after a command.
use mathlib.Core.List.{map}
use co_mono.Base.{
  ℕ, zero, suc, ◌≡◌, ◌∙◌, refl, sym, ap, Bool, true, false, not, ◌||◌, Option, none, some, List, [],
  ◌∷◌, ◌==◌, leb, if◌then◌else◌, if-both, is_some, length, arith,
}
use co_mono.Editing.KillRing
use co_mono.Editing.UndoStack
use co_mono.Editing.Editor.{
  Editor, EditorState, Segmenter, get_text, undo, is_type_word, is_whitespace_char,
}
use co_mono.Editing.Editor.Texts.{same_text, older_index}
use co_mono.Editing.Command.{
  Command, insert_text, type_char, set_whole, new_line, backspace, forward_delete, left, right,
  line_start, line_end, word_left, word_right, kill_line_start, kill_line_end, kill_word_left,
  kill_word_right, yank_last, older_prompt, newer_prompt, undo_last, run,
}
use co_mono.Editing.Reference.{
  Text, Reference, save, respond, older, newer, yank_put, restore, contents,
}
use co_mono.Editing.Refinement.Graphemes.{IsSegmenter}
use co_mono.Editing.Refinement.Text.{view_text}
use co_mono.Editing.Refinement.View.{view, IsSound}
use co_mono.Editing.Refinement.Undo.{undo-Agree}
use co_mono.Editing.Refinement.Commands.{IsTyped, run-Agree, get_text-contents}

-- The undo stack is kept, or the text is saved on it.
data Saves (r : Reference) (stack : List Text) : Type 0 where
  unsaved : stack ≡ r.undo_stack → Saves r stack
  saved : stack ≡ UndoStack.push (r.text) (r.undo_stack) → Saves r stack

abbrev is_undo : Command → Bool
is_undo undo_last = true
is_undo _ = false

-- Either branch of a conditional saves or not.
save-if :
    (b : Bool) (r x y : Reference)
    → Saves r (x.undo_stack)
    → Saves r (y.undo_stack)
    → Saves r ((if b then x else y).undo_stack)
save-if true r x y h k = h
save-if false r x y h k = k

older-Saves : (o : Option ℕ) (r : Reference) → Saves r ((older o r).undo_stack)
older-Saves none r = unsaved refl
older-Saves (some i) r =
    save-if (is_some (r.history_index)) r r (save r) (unsaved refl) (saved refl)

newer-Saves : (o : Option ℕ) (r : Reference) → Saves r ((newer o r).undo_stack)
newer-Saves none r = unsaved refl
newer-Saves (some zero) r = unsaved refl
newer-Saves (some (suc i)) r =
    save-if (leb (length (r.history)) i) r _ _ (unsaved refl) (unsaved refl)

yank-Saves : (o : Option (List ℕ)) (r : Reference) → Saves r ((yank_put o r).undo_stack)
yank-Saves none r = unsaved refl
yank-Saves (some cs) r = saved refl

delete-Saves :
    (b : Bool) (r x y : Reference)
    → x.undo_stack ≡ r.undo_stack
    → y.undo_stack ≡ UndoStack.push (r.text) (r.undo_stack)
    → Saves r ((if b then x else y).undo_stack)
delete-Saves b r x y h k = save-if b r x y (unsaved h) (saved k)

respond-Saves :
    (segmenter : Segmenter) (command : Command) (r : Reference)
    → is_undo command ≡ false
    → Saves r ((respond segmenter command r).undo_stack)
unfolding respond
respond-Saves segmenter (insert_text cs) r h = delete-Saves (length cs == 0) r _ _ refl refl
respond-Saves segmenter (type_char cs) r h =
    save-if (is_whitespace_char cs || not (is_type_word (r.last_action))) r (save r) r (saved refl)
      (unsaved refl)
respond-Saves segmenter (set_whole cs) r h =
    delete-Saves (same_text (contents (r.text)) cs) r r (save r) refl refl
respond-Saves segmenter new_line r h = saved refl
respond-Saves segmenter backspace r h = delete-Saves (length (r.text.before) == 0) r _ _ refl refl
respond-Saves segmenter forward_delete r h =
    delete-Saves (length (r.text.after) == 0) r _ _ refl refl
respond-Saves segmenter left r h =
    save-if (length (r.text.before) == 0) r _ _ (unsaved refl) (unsaved refl)
respond-Saves segmenter right r h =
    save-if (length (r.text.after) == 0) r _ _ (unsaved refl) (unsaved refl)
respond-Saves segmenter line_start r h = unsaved refl
respond-Saves segmenter line_end r h = unsaved refl
respond-Saves segmenter word_left r h =
    save-if (length (r.text.before) == 0) r _ _ (unsaved refl) (unsaved refl)
respond-Saves segmenter word_right r h =
    save-if (length (r.text.after) == 0) r _ _ (unsaved refl) (unsaved refl)
respond-Saves segmenter kill_line_start r h =
    delete-Saves (length (r.text.before) == 0) r _ _ refl refl
respond-Saves segmenter kill_line_end r h =
    delete-Saves (length (r.text.after) == 0) r _ _ refl refl
respond-Saves segmenter kill_word_left r h =
    delete-Saves (length (r.text.before) == 0) r _ _ refl refl
respond-Saves segmenter kill_word_right r h =
    delete-Saves (length (r.text.after) == 0) r _ _ refl refl
respond-Saves segmenter yank_last r h = yank-Saves (KillRing.peek (r.kill_ring)) r
respond-Saves segmenter older_prompt r h = older-Saves (older_index (r.history) (r.history_index)) r
respond-Saves segmenter newer_prompt r h =
    if-both (λ (s : Reference). Saves r (s.undo_stack)) (length (r.history) == 0)
      (λ _. unsaved refl) (λ _. newer-Saves (r.history_index) r)
respond-Saves segmenter undo_last r h = absurd (cc (h))

length-map : (stack : List EditorState) → length (map view_text stack) ≡ length stack
length-map [] = refl
length-map (st ∷ stack) = ap suc (length-map stack)

restore-saved :
    (r after : Reference)
    → after.undo_stack ≡ UndoStack.push (r.text) (r.undo_stack)
    → (restore (UndoStack.pop (after.undo_stack)) after).text ≡ r.text
unfolding UndoStack.push UndoStack.pop
restore-saved r after h =
    ap (λ p. (restore p after).text)
      (ap UndoStack.pop h ∙ UndoStack.pop-push (r.text) (r.undo_stack))

-- When a command other than undo saves a snapshot, undo right after it brings back the text before the
-- cursor, the text after it and the whole text, for a segmenter whose segments of a text join to the
-- text, a typed character that is no line end, and an editor with its cursor in the text.
pub undo-run :
    (segmenter : Segmenter) (command : Command) (ed : Editor)
    → IsSegmenter segmenter
    → IsTyped command
    → IsSound ed
    → is_undo command ≡ false
    → length ((run segmenter command ed).undo_stack) ≡ suc (length (ed.undo_stack))
    → (view_text ((undo (run segmenter command ed)).state) ≡ view_text (ed.state))
      × (get_text ((undo (run segmenter command ed)).state) ≡ get_text (ed.state))
unfolding view
undo-run segmenter command ed law typed sound other longer =
    let next = run segmenter command ed in
    let agree = run-Agree segmenter command ed law typed sound in
    let undone = undo-Agree next (agree.sound) in
    let stacks = ap (λ (r : Reference). r.undo_stack) (agree.same) in
    let text : view_text ((undo next).state) ≡ view_text (ed.state) =
      elim (respond-Saves segmenter command (view ed) other) [
        | unsaved h ↦ absurd (
            omega (
              arith,
              longer,
              ap length (stacks ∙ h),
              length-map (next.undo_stack),
              length-map (ed.undo_stack),
            ))
        | saved h ↦
            ap (λ (r : Reference). r.text) (undone.same)
            ∙ restore-saved (view ed) (view next) (stacks ∙ h)
      ] in
    (
      text,
      get_text-contents ((undo next).state) (undone.sound.in_text)
          ∙ ap contents text
          ∙ sym (get_text-contents (ed.state) (sound.in_text)),
    )
