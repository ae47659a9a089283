-- ===== src/Editing/Refinement/Back.antt =====
-- The commands that look back from the cursor agree with the reference.
use co_mono.Base.{
  ◌-◌, ◌≤◌, ◌<◌, ◌≡◌, ◌∙◌, sym, ap, true, none, ◌++◌, ◌==◌, if-both, length, take, drop, last?,
  arith,
}
use co_mono.Editing.Editor.{
  Editor, Segmenter, before_cursor, current_line, after_cursor, push_undo_snapshot,
}
use co_mono.Editing.Editor.Graphemes.{
  handle_backspace, move_left, grapheme_length, merge_with_previous,
}
use co_mono.Editing.Editor.Words.{move_word_backwards, word_start}
use co_mono.Editing.Editor.Kill.{delete_to_start_of_line, delete_word_backwards}
use co_mono.Editing.Reference.{
  edit, move, cut, cut_back, shift_back, nothing, rest, leave_history, last_size, word_left_size,
  delete_back, move_back, kill_back,
}
use co_mono.Editing.Refinement.Zipper.{Zipper, IsPlain, at, before_cursor-at, after_cursor-at}
use co_mono.Editing.Refinement.Text.{text_of, drop_back-at}
use co_mono.Editing.Refinement.Branches.{back-branches, back-branches_flipped}
use co_mono.Editing.Refinement.States.{cut_left}
use co_mono.Editing.Refinement.View.{
  view, AllInText, Agree, here, there, Agree-edit, Agree-move, Agree-cut, Agree-idle,
}
use co_mono.Editing.Refinement.Lands.{Lands-cut_left, Lands-left}
use co_mono.Editing.Refinement.Beside.{Lands-merge_previous, Lands-up, drop-raised}
use co_mono.Editing.Refinement.Graphemes.{
  IsSegmenter, last_size-le, word_left_size-le, word_start-size,
}

module _ (segmenter : Segmenter) (law : IsSegmenter segmenter) (ed : Editor) (z : Zipper)
    (plain : IsPlain z) (stack : AllInText (ed.undo_stack)) where
  size_before :
      grapheme_length (last? (segmenter.segment (before_cursor (at z))))
      ≡ last_size segmenter (z.left)
  size_before = ap (λ l. grapheme_length (last? (segmenter.segment l))) (before_cursor-at z)

  pub handle_backspace-Agree :
      Agree
        (handle_backspace segmenter (here ed z))
        (delete_back (last_size segmenter) (there ed z))
  unfolding handle_backspace push_undo_snapshot
  handle_backspace-Agree =
      back-branches z plain (last_size segmenter) (λ n. edit (cut_back n (text_of z)) (there ed z))
        (nothing (there ed z)) Agree
        (λ h. Agree-edit ed z plain stack _ _ (
          Lands-cut_left z plain _ (last_size segmenter (z.left)) _
            (last_size-le segmenter (z.left) law h)
            (ap (λ n. take (length (z.left) - n) (current_line (at z)) ++ after_cursor (at z))
                size_before
              ∙ cut_left z (last_size segmenter (z.left)))
            (ap (length (z.left) -◌) size_before)))
        (λ ls l above left.
          Agree-edit ed z plain stack (merge_with_previous (at z)) (cut_back 1 (text_of z))
            (Lands-merge_previous z plain ls l above left))
        (λ _ _. Agree-idle ed z plain stack none none)

  pub move_left-Agree :
      Agree (move_left segmenter (here ed z)) (move_back (last_size segmenter) (there ed z))
  unfolding move_left view
  move_left-Agree =
      back-branches z plain (last_size segmenter)
        (λ n. move (shift_back n (text_of z)) (there ed z)) (rest (there ed z)) Agree
        (λ h. Agree-move ed z plain stack _ _ (
          Lands-left z plain
            (length (z.left) - grapheme_length (last? (segmenter.segment (before_cursor (at z)))))
            (last_size segmenter (z.left)) (last_size-le segmenter (z.left) law h)
            (ap (length (z.left) -◌) size_before)))
        (λ ls l above left. Agree-move ed z plain stack _ _ (Lands-up z plain ls l above left))
        (λ _ _. Agree-idle ed z plain stack (ed.history_index) none)

  inside-word :
      0 < length (z.left)
      → (move_word_backwards segmenter (here ed z)).state.cursor_col
        ≡ length (z.left) - word_left_size segmenter (z.left)
  unfolding move_word_backwards
  inside-word h =
      if-both
        (λ (e : Editor). e.state.cursor_col ≡ length (z.left) - word_left_size segmenter (z.left))
        (length (z.left) == 0) (λ empty. absurd (ground (arith, h, empty)))
        (λ _.
          ap (word_start segmenter (length (z.left))) (before_cursor-at z)
          ∙ word_start-size segmenter (z.left))

  pub move_word_backwards-Agree :
      Agree
        (move_word_backwards segmenter (here ed z))
        (move_back (word_left_size segmenter) (there ed z))
  unfolding move_word_backwards view
  move_word_backwards-Agree =
      back-branches_flipped z plain (word_left_size segmenter)
        (λ n. move (shift_back n (text_of z)) (there ed z)) (rest (there ed z)) Agree
        (λ h. Agree-move ed z plain stack _ _ (
          Lands-left z plain _ (word_left_size segmenter (z.left))
            (word_left_size-le segmenter (z.left))
            (ap (word_start segmenter (length (z.left))) (before_cursor-at z)
              ∙ word_start-size segmenter (z.left))))
        (λ ls l above left. Agree-move ed z plain stack _ _ (Lands-up z plain ls l above left))
        (λ _ _. Agree-idle ed z plain stack (ed.history_index) none)

  pub delete_word_backwards-Agree :
      Agree
        (delete_word_backwards segmenter (here ed z))
        (kill_back (word_left_size segmenter) (there ed z))
  unfolding delete_word_backwards view
  delete_word_backwards-Agree =
      let n = word_left_size segmenter (z.left) in
      back-branches_flipped z plain (word_left_size segmenter)
        (λ n.
          cut (drop (length ((text_of z).before) - n) ((text_of z).before)) true
            (cut_back n (text_of z)) (there ed z))
        (leave_history (there ed z)) Agree
        (λ h.
          Agree-cut ed z plain stack _ _ true _ _
            (Lands-cut_left z plain _ n _ (word_left_size-le segmenter (z.left))
              (ap (λ c. take c (current_line (at z)) ++ after_cursor (at z)) (inside-word h)
                ∙ cut_left z n)
              (inside-word h))
            (ap (λ c. drop c (before_cursor (at z))) (inside-word h)
              ∙ ap (drop (length (z.left) - n)) (before_cursor-at z)
              ∙ sym (drop_back-at z n (word_left_size-le segmenter (z.left)))))
        (λ ls l above left.
          Agree-cut ed z plain stack _ _ true _ _ (Lands-merge_previous z plain ls l above left)
            (sym (drop-raised z plain ls l above left)))
        (λ _ _. Agree-idle ed z plain stack none (ed.last_action))

module _ (ed : Editor) (z : Zipper) (plain : IsPlain z) (stack : AllInText (ed.undo_stack)) where
  pub delete_to_start_of_line-Agree :
      Agree (delete_to_start_of_line (here ed z)) (kill_back length (there ed z))
  unfolding delete_to_start_of_line view
  delete_to_start_of_line-Agree =
      let n = length (z.left) in
      let whole : n ≤ n = omega arith in
      let nothing_left : 0 ≡ n - n = omega arith in
      back-branches z plain length
        (λ n.
          cut (drop (length ((text_of z).before) - n) ((text_of z).before)) true
            (cut_back n (text_of z)) (there ed z))
        (leave_history (there ed z)) Agree
        (λ h.
          Agree-cut ed z plain stack _ _ true _ _
            (Lands-cut_left z plain _ n 0 whole
              (after_cursor-at z ∙ ap (λ k. take k (z.left) ++ z.right) nothing_left) nothing_left)
            (before_cursor-at z
              ∙ ap (λ k. drop k (z.left)) nothing_left
              ∙ sym (drop_back-at z n whole)))
        (λ ls l above left.
          Agree-cut ed z plain stack _ _ true _ _ (Lands-merge_previous z plain ls l above left)
            (sym (drop-raised z plain ls l above left)))
        (λ _ _. Agree-idle ed z plain stack none (ed.last_action))
