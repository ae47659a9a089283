-- ===== src/Editing/Refinement/Forward.antt =====
-- The commands that look forward from the cursor agree with the reference.
use co_mono.Base.{
  ℕ, ◌+◌, ◌≤◌, ◌<◌, ◌≡◌, ◌∙◌, sym, ap, false, none, List, ◌++◌, leb, if-both, length, take, drop,
  append-nil, take-append-drop, drop_all, drop-append, length-append, arith,
}
use co_mono.Editing.Editor.{
  Editor, Segmenter, before_cursor, current_line, after_cursor, push_undo_snapshot,
}
use co_mono.Editing.Editor.Graphemes.{
  handle_forward_delete, move_right, grapheme_length, first?, merge_with_next,
}
use co_mono.Editing.Editor.Words.{move_word_forwards, word_end}
use co_mono.Editing.Editor.Kill.{delete_to_end_of_line, delete_word_forward}
use co_mono.Editing.Reference.{
  edit, move, cut, cut_forward, shift_forward, nothing, rest, leave_history, first_size,
  word_right_size, delete_forward, move_forward, kill_forward,
}
use co_mono.Editing.Refinement.Zipper.{
  Zipper, IsPlain, at, before_cursor-at, after_cursor-at, current_line-at,
}
use co_mono.Editing.Refinement.Text.{text_of, take_after-at, take-stem}
use co_mono.Editing.Refinement.Branches.{forward-tests, forward-tests_flipped}
use co_mono.Editing.Refinement.States.{cut_right}
use co_mono.Editing.Refinement.View.{
  view, AllInText, Agree, here, there, Agree-edit, Agree-move, Agree-cut, Agree-idle,
}
use co_mono.Editing.Refinement.Lands.{Lands-cut_right, Lands-right}
use co_mono.Editing.Refinement.Beside.{Lands-merge_next, Lands-down, take-lowered}
use co_mono.Editing.Refinement.Graphemes.{
  IsSegmenter, first_size-le, word_right_size-le, word_end-size,
}

module _ (segmenter : Segmenter) (law : IsSegmenter segmenter) (ed : Editor) (z : Zipper)
    (plain : IsPlain z) (stack : AllInText (ed.undo_stack)) where
  size_after :
      grapheme_length (first? (segmenter.segment (after_cursor (at z))))
      ≡ first_size segmenter (z.right)
  size_after = ap (λ l. grapheme_length (first? (segmenter.segment l))) (after_cursor-at z)

  pub handle_forward_delete-Agree :
      Agree
        (handle_forward_delete segmenter (here ed z))
        (delete_forward (first_size segmenter) (there ed z))
  unfolding handle_forward_delete push_undo_snapshot
  handle_forward_delete-Agree =
      forward-tests z plain (first_size segmenter)
        (λ n. edit (cut_forward n (text_of z)) (there ed z)) (nothing (there ed z)) Agree
        (λ h. Agree-edit ed z plain stack _ _ (
          Lands-cut_right z plain _ (first_size segmenter (z.right))
            (first_size-le segmenter (z.right) law h)
            (ap (λ n. before_cursor (at z) ++ drop (length (z.left) + n) (current_line (at z)))
                size_after
              ∙ cut_right z (first_size segmenter (z.right)))))
        (λ l ls below right.
          Agree-edit ed z plain stack (merge_with_next (at z)) (cut_forward 1 (text_of z))
            (Lands-merge_next z plain l ls below right))
        (λ _ _. Agree-idle ed z plain stack none none)

  pub move_right-Agree :
      Agree (move_right segmenter (here ed z)) (move_forward (first_size segmenter) (there ed z))
  unfolding move_right view
  move_right-Agree =
      forward-tests z plain (first_size segmenter)
        (λ n. move (shift_forward n (text_of z)) (there ed z)) (rest (there ed z)) Agree
        (λ h. Agree-move ed z plain stack _ _ (
          Lands-right z plain _ (first_size segmenter (z.right))
            (first_size-le segmenter (z.right) law h) (ap (length (z.left) +◌) size_after)))
        (λ l ls below right. Agree-move ed z plain stack _ _ (Lands-down z plain l ls below right))
        (λ _ _. Agree-idle ed z plain stack (ed.history_index) none)

  end_of_word :
      word_end segmenter (length (z.left)) (after_cursor (at z))
      ≡ length (z.left) + word_right_size segmenter (z.right)
  end_of_word =
      ap (word_end segmenter (length (z.left))) (after_cursor-at z)
      ∙ word_end-size segmenter (length (z.left)) (z.right)

  inside-word :
      0 < length (z.right)
      → (move_word_forwards segmenter (here ed z)).state.cursor_col
        ≡ length (z.left) + word_right_size segmenter (z.right)
  unfolding move_word_forwards
  inside-word h =
      if-both
        (λ (e : Editor). e.state.cursor_col ≡ length (z.left) + word_right_size segmenter (z.right))
        (leb (length (current_line (at z))) (length (z.left)))
        (λ past. absurd (
          ground (arith, h, past, ap length (current_line-at z), length-append (z.left) (z.right))))
        (λ _. end_of_word)

  pub move_word_forwards-Agree :
      Agree
        (move_word_forwards segmenter (here ed z))
        (move_forward (word_right_size segmenter) (there ed z))
  unfolding move_word_forwards view
  move_word_forwards-Agree =
      forward-tests_flipped z plain (word_right_size segmenter)
        (λ n. move (shift_forward n (text_of z)) (there ed z)) (rest (there ed z)) Agree
        (λ h. Agree-move ed z plain stack _ _ (
          Lands-right z plain _ (word_right_size segmenter (z.right))
            (word_right_size-le segmenter (z.right) law) end_of_word))
        (λ l ls below right. Agree-move ed z plain stack _ _ (Lands-down z plain l ls below right))
        (λ _ _. Agree-idle ed z plain stack (ed.history_index) none)

  pub delete_word_forward-Agree :
      Agree
        (delete_word_forward segmenter (here ed z))
        (kill_forward (word_right_size segmenter) (there ed z))
  unfolding delete_word_forward view
  delete_word_forward-Agree =
      let n = word_right_size segmenter (z.right) in
      let le = word_right_size-le segmenter (z.right) law in
      forward-tests_flipped z plain (word_right_size segmenter)
        (λ n. cut (take n ((text_of z).after)) false (cut_forward n (text_of z)) (there ed z))
        (leave_history (there ed z)) Agree
        (λ h.
          Agree-cut ed z plain stack _ _ false _ _
            (Lands-cut_right z plain _ n le (
              ap (λ c. before_cursor (at z) ++ drop c (current_line (at z))) (inside-word h)
              ∙ cut_right z n))
            (ap (λ c. drop (length (z.left)) (take c (current_line (at z)))) (inside-word h)
              ∙ ap (λ l. drop (length (z.left)) (take (length (z.left) + n) l)) (current_line-at z)
              ∙ ap (drop (length (z.left))) (take-stem (z.left) (z.right) n)
              ∙ drop-append (z.left) (take n (z.right))
              ∙ sym (take_after-at z n le)))
        (λ l ls below right.
          Agree-cut ed z plain stack _ _ false _ _ (Lands-merge_next z plain l ls below right)
            (sym (take-lowered z plain l ls below right)))
        (λ _ _. Agree-idle ed z plain stack none (ed.last_action))

take_whole : (l : List ℕ) → take (length l) l ≡ l
take_whole l =
    let le : length l ≤ length l = omega arith in
    sym (append-nil (take (length l) l))
    ∙ ap (take (length l) l ++◌) (sym (drop_all l (length l) le))
    ∙ take-append-drop (length l) l

module _ (ed : Editor) (z : Zipper) (plain : IsPlain z) (stack : AllInText (ed.undo_stack)) where
  pub delete_to_end_of_line-Agree :
      Agree (delete_to_end_of_line (here ed z)) (kill_forward length (there ed z))
  unfolding delete_to_end_of_line view
  delete_to_end_of_line-Agree =
      let n = length (z.right) in
      let whole : n ≤ n = omega arith in
      forward-tests z plain length
        (λ n. cut (take n ((text_of z).after)) false (cut_forward n (text_of z)) (there ed z))
        (leave_history (there ed z)) Agree
        (λ h.
          Agree-cut ed z plain stack _ _ false _ _
            (Lands-cut_right z plain _ n whole (
              before_cursor-at z
              ∙ sym (append-nil (z.left))
              ∙ ap (z.left ++◌) (sym (drop_all (z.right) n whole))))
            (after_cursor-at z ∙ sym (take_whole (z.right)) ∙ sym (take_after-at z n whole)))
        (λ l ls below right.
          Agree-cut ed z plain stack _ _ false _ _ (Lands-merge_next z plain l ls below right)
            (sym (take-lowered z plain l ls below right)))
        (λ _ _. Agree-idle ed z plain stack none (ed.last_action))
