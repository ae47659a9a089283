-- ===== src/Editing/Refinement/Whole.antt =====
-- The commands on the whole text and the history agree with the reference.
use co_mono.Base.{
  ℕ, zero, suc, ◌+◌, ◌≡◌, ◌∙◌, sym, ap, subst, Bool, true, false, not, ◌||◌, Option, none, some,
  List, [], ◌∷◌, ◌++◌, ◌==◌, leb, if◌then◌else◌, if-both, if-related, get_or_else, is_some,
  get_elem?, length, set, join_lines, join_lines-glue, length-append, arith,
}
use co_mono.Editing.KillRing
use co_mono.Editing.Editor.{
  type_word, yank, Editor, current_line, before_cursor, after_cursor, get_text, normalize,
  push_undo_snapshot, insert_text_internal, insert_text_at_cursor, insert_character, add_new_line,
  is_type_word, is_whitespace_char,
}
use co_mono.Editing.Editor.Graphemes.{move_to_line_start, move_to_line_end}
use co_mono.Editing.Editor.Yank.{yank_entry, yank_text}
use co_mono.Editing.Editor.Texts.{
  set_text_internal, same_text, set_text, older_index, show_older, show_newer, navigate_up,
  navigate_down,
}
use co_mono.Editing.Reference.{
  Reference, put, whole, contents, edit, move, rest, save, paste, type_text, replace, yank_put,
  older, newer, show, shift_back, shift_forward, column, row,
}
use co_mono.Editing.Refinement.Zipper.{Zipper, IsPlain, at, is_line, current_line-at}
use co_mono.Editing.Refinement.Text.{text_of, column-before, row-after}
use co_mono.Editing.Refinement.View.{
  view, AllInText, Agree, Lands, here, there, Agree-edit, Agree-move, Agree-saved, Agree-unsaved,
  Agree-idle,
}
use co_mono.Editing.Refinement.Lands.{Lands-left, Lands-right}
use co_mono.Editing.Refinement.Inserted.{
  Lands-insert_line, Lands-insert_split, Lands-insert_yanked_text, Lands-new_line, Lands-set_text,
}

pub contents-at : (z : Zipper) → get_text (at z) ≡ contents (text_of z)
unfolding get_text join_lines
contents-at z = join_lines-glue (z.above) (z.left) (z.right) (z.below)

module _ (ed : Editor) (z : Zipper) (plain : IsPlain z) (stack : AllInText (ed.undo_stack)) where
  pub insert_text_at_cursor-Agree :
      (cs : List ℕ) → Agree (insert_text_at_cursor cs (here ed z)) (paste cs (there ed z))
  unfolding insert_text_at_cursor insert_text_internal view
  insert_text_at_cursor-Agree cs =
      if-related Agree (length cs == 0)
        (λ _. Agree-idle ed z plain stack (ed.history_index) (ed.last_action))
        (λ some. Agree-edit ed z plain stack _ _ (
          if-both (λ st. Lands st (put (normalize false cs) (text_of z))) (length cs == 0)
            (λ none. absurd (cc (some, none)))
            (λ _. Lands-insert_split z plain (normalize false cs))))

  pub insert_character-Agree :
      (cs : List ℕ)
      → is_line cs ≡ true
      → Agree (insert_character cs (here ed z)) (type_text cs (there ed z))
  unfolding insert_character view
  insert_character-Agree cs line =
      saved_or_not (is_whitespace_char cs || not (is_type_word (ed.last_action)))
    where
      saved_or_not :
          (b : Bool)
          → Agree
              (record (if b then push_undo_snapshot (here ed z) else here ed z) {
                state = record (at z) {
                  lines =
                      set
                        ((at z).lines)
                        (length (z.above))
                        (before_cursor (at z) ++ (cs ++ after_cursor (at z)));
                  cursor_col = length (z.left) + length cs;
                };
                last_action = some type_word;
                history_index = none;
              })
              (record (if b then save (there ed z) else there ed z) {
                text = put cs (text_of z);
                last_action = some type_word;
                history_index = none;
              })
      saved_or_not true =
          Agree-saved ed z plain stack _ _ none (some type_word) (Lands-insert_line z cs plain line)
      saved_or_not false =
          Agree-unsaved ed z plain stack _ _ none (some type_word)
            (Lands-insert_line z cs plain line)

  pub add_new_line-Agree :
      Agree (add_new_line (here ed z)) (edit (put (0x0a ∷ []) (text_of z)) (there ed z))
  unfolding add_new_line view
  add_new_line-Agree = Agree-edit ed z plain stack _ _ (Lands-new_line z plain)

  pub move_to_line_start-Agree :
      Agree
        (move_to_line_start (here ed z))
        (move (shift_back (length (column ((text_of z).before))) (text_of z)) (there ed z))
  unfolding move_to_line_start
  move_to_line_start-Agree = Agree-move ed z plain stack _ _ (
      subst (λ l. Lands (record (at z) { cursor_col = 0 }) (shift_back (length l) (text_of z)))
        (sym (column-before z plain))
        (Lands-left z plain 0 (length (z.left)) (omega arith) (omega arith)))

  pub move_to_line_end-Agree :
      Agree
        (move_to_line_end (here ed z))
        (move (shift_forward (length (row ((text_of z).after))) (text_of z)) (there ed z))
  unfolding move_to_line_end
  move_to_line_end-Agree = Agree-move ed z plain stack _ _ (
      subst
        (λ l.
          Lands (record (at z) { cursor_col = length (current_line (at z)) })
            (shift_forward (length l) (text_of z)))
        (sym (row-after z plain))
        (Lands-right z plain (length (current_line (at z))) (length (z.right)) (omega arith)
          (ap length (current_line-at z) ∙ length-append (z.left) (z.right))))

  pub set_text-Agree : (cs : List ℕ) → Agree (set_text cs (here ed z)) (replace cs (there ed z))
  unfolding set_text view
  set_text-Agree cs =
      subst (λ b. Agree (replaced (same_text (get_text (at z)) cs)) (replaced_text b))
        (ap (λ t. same_text t cs) (contents-at z)) (saved_or_not (same_text (get_text (at z)) cs))
    where
      replaced : Bool → Editor
      replaced b = record (if b then here ed z else push_undo_snapshot (here ed z)) {
        state = set_text_internal cs;
        last_action = none;
        history_index = none;
      }

      replaced_text : Bool → Reference
      replaced_text b = record (if b then there ed z else save (there ed z)) {
        text = whole cs;
        last_action = none;
        history_index = none;
      }

      saved_or_not : (b : Bool) → Agree (replaced b) (replaced_text b)
      saved_or_not true = Agree-unsaved ed z plain stack _ _ none none (Lands-set_text cs)
      saved_or_not false = Agree-saved ed z plain stack _ _ none none (Lands-set_text cs)

  yank_entry-Agree :
      (o : Option (List ℕ)) → Agree (yank_entry o (here ed z)) (yank_put o (there ed z))
  unfolding view
  yank_entry-Agree none = Agree-idle ed z plain stack (ed.history_index) (ed.last_action)
  yank_entry-Agree (some cs) =
      Agree-saved ed z plain stack _ _ none (some yank) (Lands-insert_yanked_text z plain cs)

  pub yank_text-Agree :
      Agree (yank_text (here ed z)) (yank_put (KillRing.peek (ed.kill_ring)) (there ed z))
  unfolding yank_text view
  yank_text-Agree = yank_entry-Agree (KillRing.peek (ed.kill_ring))

  show_older-Agree : (o : Option ℕ) → Agree (show_older o (here ed z)) (older o (there ed z))
  unfolding view
  show_older-Agree none = Agree-idle ed z plain stack (ed.history_index) none
  show_older-Agree (some i) = saved_or_not (is_some (ed.history_index))
    where
      saved_or_not :
          (b : Bool)
          → Agree
              (record (if b then here ed z else push_undo_snapshot (here ed z)) {
                state = set_text_internal (get_or_else (get_elem? (ed.history) i) []);
                last_action = none;
                history_index = some i;
              })
              (show
                (some i)
                (get_or_else (get_elem? (ed.history) i) [])
                (if b then there ed z else save (there ed z)))
      saved_or_not true =
          Agree-unsaved ed z plain stack _ _ (some i) none
            (Lands-set_text (get_or_else (get_elem? (ed.history) i) []))
      saved_or_not false =
          Agree-saved ed z plain stack _ _ (some i) none
            (Lands-set_text (get_or_else (get_elem? (ed.history) i) []))

  pub navigate_up-Agree :
      Agree
        (navigate_up (here ed z))
        (older (older_index (ed.history) (ed.history_index)) (there ed z))
  unfolding navigate_up view
  navigate_up-Agree = show_older-Agree (older_index (ed.history) (ed.history_index))

  show_newer-Agree : (o : Option ℕ) → Agree (show_newer o (here ed z)) (newer o (there ed z))
  unfolding view
  show_newer-Agree none = Agree-idle ed z plain stack (ed.history_index) none
  show_newer-Agree (some zero) = Agree-unsaved ed z plain stack _ _ none none (Lands-set_text [])
  show_newer-Agree (some (suc i)) =
      if-related Agree (leb (length (ed.history)) i)
        (λ _. Agree-idle ed z plain stack (ed.history_index) none)
        (λ _.
          Agree-unsaved ed z plain stack _ _ (some i) none
            (Lands-set_text (get_or_else (get_elem? (ed.history) i) [])))

  pub navigate_down-Agree : Agree (navigate_down (here ed z)) (
      if length (ed.history) == 0 then rest (there ed z) else newer (ed.history_index) (there ed z))
  unfolding navigate_down view
  navigate_down-Agree =
      if-related Agree (length (ed.history) == 0)
        (λ _. Agree-idle ed z plain stack (ed.history_index) none)
        (λ _. show_newer-Agree (ed.history_index))
