-- ===== src/Editing/Refinement/Undo.antt =====
-- Undoing a command agrees with the reference.
use mathlib.Core.List.{map, map-append}
use co_mono.Base.{
  last-cases, ◌≡◌, ◌∙◌, refl, sym, ap, subst, inl, inr, Option, none, some, List, [], ◌∷◌, ◌++◌,
}
use co_mono.Editing.UndoStack
use co_mono.Editing.Editor.{EditorState, Editor, undo_to, undo}
use co_mono.Editing.Reference.{Text, restore}
use co_mono.Editing.Refinement.Zipper.{IsInText}
use co_mono.Editing.Refinement.Text.{view_text}
use co_mono.Editing.Refinement.View.{view, AllInText, none_left, one_more, IsSound, Agree}

abbrev view_option : Option EditorState → Option Text
view_option none = none
view_option (some st) = some (view_text st)

abbrev view_popped : Option EditorState × List EditorState → Option Text × List Text
view_popped (o, stack) = (view_option o, map view_text stack)

data PoppedInText : Option EditorState × List EditorState → Type 0 where
  nothing_popped : {stack : List EditorState} → AllInText stack → PoppedInText (none, stack)
  popped :
      {st : EditorState} {stack : List EditorState}
      → IsInText st
      → AllInText stack
      → PoppedInText (some st, stack)

pop-map :
    (stack : List EditorState)
    → UndoStack.pop (map view_text stack) ≡ view_popped (UndoStack.pop stack)
unfolding UndoStack.pop
pop-map stack = elim (last-cases stack) [
  | inl empty ↦
      subst (λ ss. UndoStack.pop (map view_text ss) ≡ view_popped (UndoStack.pop ss)) (sym empty)
        refl
  | inr (older, last, parts) ↦
      subst (λ ss. UndoStack.pop (map view_text ss) ≡ view_popped (UndoStack.pop ss)) (sym parts)
        (ap UndoStack.pop (map-append view_text older (last ∷ []))
          ∙ UndoStack.pop-push (view_text last) (map view_text older)
          ∙ sym (ap view_popped (UndoStack.pop-push last older)))
]

AllInText-split :
    (older : List EditorState) (last : EditorState)
    → AllInText (older ++ last ∷ [])
    → AllInText older × IsInText last
AllInText-split [] last (one_more h none_left) = (none_left, h)
AllInText-split (st ∷ older) last (one_more h others) =
    let (rest, k) = AllInText-split older last others in (one_more h rest, k)

pop-InText : (stack : List EditorState) → AllInText stack → PoppedInText (UndoStack.pop stack)
unfolding UndoStack.pop
pop-InText stack h = elim (last-cases stack) [
  | inl empty ↦ subst (λ ss. PoppedInText (UndoStack.pop ss)) (sym empty) (nothing_popped none_left)
  | inr (older, last, parts) ↦
      let (rest, k) = AllInText-split older last (subst AllInText parts h) in
      subst PoppedInText (sym (ap UndoStack.pop parts ∙ UndoStack.pop-push last older))
        (popped k rest)
]

undo_to-Agree :
    (ed : Editor) (p : Option EditorState × List EditorState)
    → IsInText (ed.state)
    → PoppedInText p
    → Agree (undo_to p ed) (restore (view_popped p) (view ed))
unfolding view
undo_to-Agree ed (none, stack) h (nothing_popped rest) = record {
  same = refl;
  sound = record { in_text = h; stack_in_text = rest };
}
undo_to-Agree ed (some st, stack) h (popped k rest) = record {
  same = refl;
  sound = record { in_text = k; stack_in_text = rest };
}

pub undo-Agree :
    (ed : Editor)
    → IsSound ed
    → Agree (undo ed) (restore (UndoStack.pop ((view ed).undo_stack)) (view ed))
unfolding undo view
undo-Agree ed h =
    subst (λ p. Agree (undo ed) (restore p (view ed))) (sym (pop-map (ed.undo_stack)))
      (undo_to-Agree ed (UndoStack.pop (ed.undo_stack)) (h.in_text)
        (pop-InText (ed.undo_stack) (h.stack_in_text)))
