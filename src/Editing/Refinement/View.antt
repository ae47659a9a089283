-- ===== src/Editing/Refinement/View.antt =====
-- The reference's state that the editor's state stands for, and when the two agree.
use mathlib.Core.List.{map, map-append}
use co_mono.Base.{ℕ, ◌≡◌, ◌∙◌, sym, ap, subst, Bool, Option, none, some, List, [], ◌∷◌, ◌++◌}
use co_mono.Editing.KillRing.{PushOptions}
use co_mono.Editing.KillRing
use co_mono.Editing.UndoStack
use co_mono.Editing.Editor.{Action, EditorState, Editor, kill, push_undo_snapshot}
use co_mono.Editing.Editor.Kill.{kill_text, is_kill}
use co_mono.Editing.Reference.{Text, Reference, edit, move, cut, save}
use co_mono.Editing.Refinement.Zipper.{Zipper, IsPlain, at, IsInText, IsInText-at, zip}
use co_mono.Editing.Refinement.Text.{view_text, text_of, view_text-at}

unfoldable pub view : Editor → Reference
unfolding view_text
view ed = record {
  text = view_text (ed.state);
  history = ed.history;
  history_index = ed.history_index;
  kill_ring = ed.kill_ring;
  last_action = ed.last_action;
  undo_stack = map view_text (ed.undo_stack);
}

pub data AllInText : List EditorState → Type 0 where
  none_left : AllInText []
  one_more :
      {st : EditorState} {stack : List EditorState}
      → IsInText st
      → AllInText stack
      → AllInText (st ∷ stack)

-- The cursor is in the text, now and in every snapshot.
pub record IsSound (ed : Editor) : Type 0 where
  pub in_text : IsInText (ed.state)
  pub stack_in_text : AllInText (ed.undo_stack)

pub record Agree (ed : Editor) (r : Reference) : Type 0 where
  pub same : view ed ≡ r
  pub sound : IsSound ed

-- A state at `t` of the reference.
pub record Lands (st : EditorState) (t : Text) : Type 0 where
  pub place : Zipper
  pub place_plain : IsPlain place
  pub is_there : st ≡ at place
  pub text_there : text_of place ≡ t

AllInText-append :
    (stack : List EditorState) (st : EditorState)
    → AllInText stack
    → IsInText st
    → AllInText (stack ++ st ∷ [])
AllInText-append [] st none_left h = one_more h none_left
AllInText-append (s ∷ stack) st (one_more first others) h =
    one_more first (AllInText-append stack st others h)

Lands-view : (st : EditorState) (t : Text) → Lands st t → view_text st ≡ t
Lands-view st t h = ap view_text (h.is_there) ∙ view_text-at (h.place) ∙ h.text_there

Lands-InText : (st : EditorState) (t : Text) → Lands st t → IsInText st
Lands-InText st t h = subst IsInText (sym (h.is_there)) (IsInText-at (h.place) (h.place_plain))

-- The editor and the reference with the cursor at `z`.
abbrev pub here : Editor → Zipper → Editor
here ed z = record ed { state = at z }

abbrev pub there : Editor → Zipper → Reference
there ed z = record (view ed) { text = text_of z }

saved_stack :
    (ed : Editor) (z : Zipper)
    → map view_text (UndoStack.push (at z) (ed.undo_stack))
      ≡ UndoStack.push (text_of z) (map view_text (ed.undo_stack))
unfolding UndoStack.push
saved_stack ed z =
    map-append view_text (ed.undo_stack) (at z ∷ [])
    ∙ ap (λ t. map view_text (ed.undo_stack) ++ t ∷ []) (view_text-at z)

module _ (ed : Editor) (z : Zipper) (plain : IsPlain z) (stack : AllInText (ed.undo_stack)) where
  saved_sound : AllInText (UndoStack.push (at z) (ed.undo_stack))
  unfolding UndoStack.push
  saved_sound = AllInText-append (ed.undo_stack) (at z) stack (IsInText-at z plain)

  pub Agree-saved :
      (st : EditorState) (t : Text) (index : Option ℕ) (action : Option Action)
      → Lands st t
      → Agree
          (record (push_undo_snapshot (here ed z)) {
            state = st;
            last_action = action;
            history_index = index;
          })
          (record (save (there ed z)) { text = t; last_action = action; history_index = index })
  unfolding view push_undo_snapshot
  Agree-saved st t index action h = record {
    same = λ i. record {
      text = Lands-view st t h i;
      history = ed.history;
      history_index = index;
      kill_ring = ed.kill_ring;
      last_action = action;
      undo_stack = saved_stack ed z i;
    };
    sound = record { in_text = Lands-InText st t h; stack_in_text = saved_sound };
  }

  pub Agree-unsaved :
      (st : EditorState) (t : Text) (index : Option ℕ) (action : Option Action)
      → Lands st t
      → Agree
          (record (here ed z) { state = st; last_action = action; history_index = index })
          (record (there ed z) { text = t; last_action = action; history_index = index })
  unfolding view
  Agree-unsaved st t index action h = record {
    same = λ i. record {
      text = Lands-view st t h i;
      history = ed.history;
      history_index = index;
      kill_ring = ed.kill_ring;
      last_action = action;
      undo_stack = map view_text (ed.undo_stack);
    };
    sound = record { in_text = Lands-InText st t h; stack_in_text = stack };
  }

  pub Agree-edit :
      (st : EditorState) (t : Text)
      → Lands st t
      → Agree
          (record (push_undo_snapshot (here ed z)) {
            state = st;
            last_action = none;
            history_index = none;
          })
          (edit t (there ed z))
  Agree-edit st t h = Agree-saved st t none none h

  pub Agree-move :
      (st : EditorState) (t : Text)
      → Lands st t
      → Agree (record (here ed z) { last_action = none; state = st }) (move t (there ed z))
  unfolding view
  Agree-move st t h = Agree-unsaved st t (ed.history_index) none h

  pub Agree-cut :
      (cs ds : List ℕ) (prepend : Bool) (st : EditorState) (t : Text)
      → Lands st t
      → cs ≡ ds
      → Agree
          (kill_text cs
            (record { prepend = prepend; accumulate = is_kill (ed.last_action) })
            st
            (here ed z))
          (cut ds prepend t (there ed z))
  unfolding view push_undo_snapshot kill_text KillRing.push
  Agree-cut cs ds prepend st t h texts = record {
    same = λ i. record {
      text = Lands-view st t h i;
      history = ed.history;
      history_index = none;
      kill_ring =
          KillRing.push (texts i)
            (record { prepend = prepend; accumulate = is_kill (ed.last_action) }) (ed.kill_ring);
      last_action = some kill;
      undo_stack = saved_stack ed z i;
    };
    sound = record { in_text = Lands-InText st t h; stack_in_text = saved_sound };
  }

  -- Nothing but the last action and the place in the history changes.
  pub Agree-idle :
      (index : Option ℕ) (action : Option Action)
      → Agree
          (record (here ed z) { last_action = action; history_index = index })
          (record (there ed z) { last_action = action; history_index = index })
  unfolding view
  Agree-idle index action = record {
    same = λ i. record {
      text = view_text-at z i;
      history = ed.history;
      history_index = index;
      kill_ring = ed.kill_ring;
      last_action = action;
      undo_stack = map view_text (ed.undo_stack);
    };
    sound = record { in_text = IsInText-at z plain; stack_in_text = stack };
  }

-- It is enough to look at the editor with its cursor at `z`.
pub Agree-everywhere :
    (op : Editor → Editor) (spec : Reference → Reference)
    → ((ed : Editor) (z : Zipper)
        → IsPlain z
        → AllInText (ed.undo_stack)
        → Agree (op (here ed z)) (spec (there ed z)))
    → (ed : Editor) → IsSound ed
    → Agree (op ed) (spec (view ed))
unfolding view
Agree-everywhere op spec agree ed h =
    let (z, plain, parts) = zip (ed.state) (h.in_text) in
    let text : view_text (ed.state) ≡ text_of z = ap view_text parts ∙ view_text-at z in
    subst (λ t. Agree (op ed) (spec (record (view ed) { text = t }))) (sym text)
      (subst (λ st. Agree (op (record ed { state = st })) (spec (there ed z))) (sym parts)
        (agree ed z plain (h.stack_in_text)))
