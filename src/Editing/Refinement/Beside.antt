-- ===== src/Editing/Refinement/Beside.antt =====
-- Where the editor lands when it joins or crosses lines.
use co_mono.Base.{
  ℕ, suc, ◌-◌, ◌≡◌, ◌∙◌, refl, sym, ap, true, List, [], ◌∷◌, ◌++◌, append_assoc, append-nil,
  get_or_else, length, length-append, take, drop, get_elem?, every, join_lines, every-append,
  take-append, drop-append, and-split, arith,
}
use co_mono.Editing.Editor.Graphemes.{merge_with_previous, merge_with_next}
use co_mono.Editing.Reference.{cut_back, cut_forward, shift_back, shift_forward, keep_back}
use co_mono.Editing.Refinement.Zipper.{Zipper, IsPlain, at, is_line, every-cons}
use co_mono.Editing.Refinement.Text.{text_of, stem-one_more}
use co_mono.Editing.Refinement.States.{previous_line-at, merge_with_previous-at, merge_with_next-at}
use co_mono.Editing.Refinement.View.{Lands}

-- At the start of a line that has one above.
module _ (z : Zipper) (plain : IsPlain z) (ls : List (List ℕ)) (l : List ℕ)
    (above : z.above ≡ ls ++ l ∷ []) (left : z.left ≡ []) where
  abbrev raised : Zipper
  raised = record { above = ls ++ l ∷ []; left = []; right = z.right; below = z.below }

  is-raised : z ≡ raised
  is-raised = λ i. record { above = above i; left = left i; right = z.right; below = z.below }

  rows_plain : (every is_line ls ≡ true) × (is_line l ≡ true)
  rows_plain =
      let (rows, row, _) =
        every-cons is_line ls l [] (sym (ap (every is_line) above) ∙ plain.above_plain) in
      (rows, row)

  before-raised : (text_of z).before ≡ join_lines (ls ++ l ∷ []) ++ 0x0a ∷ []
  before-raised = ap (λ y. (text_of y).before) is-raised ∙ stem-one_more ls l

  size_raised :
      length (join_lines (ls ++ l ∷ []) ++ 0x0a ∷ []) - 1 ≡ length (join_lines (ls ++ l ∷ []))
  size_raised = omega (arith, length-append (join_lines (ls ++ l ∷ [])) (0x0a ∷ []))

  keep-raised : keep_back 1 (text_of z) ≡ join_lines (ls ++ l ∷ [])
  keep-raised =
      let s = join_lines (ls ++ l ∷ []) in
      ap (λ b. take (length b - 1) b) before-raised
      ∙ ap (λ n. take n (s ++ 0x0a ∷ [])) size_raised
      ∙ take-append s (0x0a ∷ [])

  pub drop-raised : drop (length ((text_of z).before) - 1) ((text_of z).before) ≡ 0x0a ∷ []
  drop-raised =
      let s = join_lines (ls ++ l ∷ []) in
      ap (λ b. drop (length b - 1) b) before-raised
      ∙ ap (λ n. drop n (s ++ 0x0a ∷ [])) size_raised
      ∙ drop-append s (0x0a ∷ [])

  pub Lands-merge_previous : Lands (merge_with_previous (at z)) (cut_back 1 (text_of z))
  Lands-merge_previous = record {
    place = record { above = ls; left = l; right = z.right; below = z.below };
    place_plain = record {
      above_plain = rows_plain.0;
      left_plain = rows_plain.1;
      right_plain = plain.right_plain;
      below_plain = plain.below_plain;
    };
    is_there =
        ap (λ y. merge_with_previous (at y)) is-raised
        ∙ merge_with_previous-at ls l (z.right) (z.below);
    text_there = λ i. record (text_of z) { before = sym keep-raised i };
  }

  row_raised : length (ls ++ l ∷ []) - 1 ≡ length ls
  row_raised = omega (arith, length-append ls (l ∷ []))

  previous-raised : get_or_else (get_elem? ((at raised).lines) (length (ls ++ l ∷ []) - 1)) [] ≡ l
  previous-raised = previous_line-at ls l (z.right) (z.below)

  pub Lands-up :
      Lands
        (record (at z) {
          cursor_line = length (z.above) - 1;
          cursor_col = length (get_or_else (get_elem? ((at z).lines) (length (z.above) - 1)) []);
        })
        (shift_back 1 (text_of z))
  unfolding join_lines
  Lands-up = record {
    place = record { above = ls; left = l; right = []; below = z.right ∷ z.below };
    place_plain = record {
      above_plain = rows_plain.0;
      left_plain = rows_plain.1;
      right_plain = refl;
      below_plain = cc (plain.right_plain, plain.below_plain);
    };
    is_there =
        ap
          (λ y. record (at y) {
            cursor_line = length (y.above) - 1;
            cursor_col = length (get_or_else (get_elem? ((at y).lines) (length (y.above) - 1)) []);
          })
          is-raised
        ∙ (λ i. record {
          lines =
              (append_assoc ls (l ∷ []) (z.right ∷ z.below)
                  ∙ ap (λ m. ls ++ m ∷ z.right ∷ z.below) (sym (append-nil l)))
                i;
          cursor_line = row_raised i;
          cursor_col = length (previous-raised i);
        });
    text_there = λ i. record {
      before = sym keep-raised i;
      after = ap (λ cs. cs ++ (text_of z).after) (sym drop-raised) i;
    };
  }

-- At the end of a line that has one below.
module _ (z : Zipper) (plain : IsPlain z) (l : List ℕ) (ls : List (List ℕ))
    (below : z.below ≡ l ∷ ls) (right : z.right ≡ []) where
  abbrev lowered : Zipper
  lowered = record { above = z.above; left = z.left; right = []; below = l ∷ ls }

  is-lowered : z ≡ lowered
  is-lowered = λ i. record { above = z.above; left = z.left; right = right i; below = below i }

  next_plain : (is_line l ≡ true) × (every is_line ls ≡ true)
  next_plain =
      and-split (is_line l) (every is_line ls) (sym (ap (every is_line) below) ∙ plain.below_plain)

  after-lowered : (text_of z).after ≡ 0x0a ∷ join_lines (l ∷ ls)
  unfolding join_lines
  after-lowered = ap (λ y. (text_of y).after) is-lowered

  pub take-lowered : take 1 ((text_of z).after) ≡ 0x0a ∷ []
  take-lowered = ap (take 1) after-lowered

  pub Lands-merge_next : Lands (merge_with_next (at z)) (cut_forward 1 (text_of z))
  Lands-merge_next = record {
    place = record { above = z.above; left = z.left; right = l; below = ls };
    place_plain = record {
      above_plain = plain.above_plain;
      left_plain = plain.left_plain;
      right_plain = next_plain.0;
      below_plain = next_plain.1;
    };
    is_there =
        ap (λ y. merge_with_next (at y)) is-lowered ∙ merge_with_next-at (z.above) (z.left) l ls;
    text_there = λ i. record (text_of z) { after = ap (drop 1) (sym after-lowered) i };
  }

  pub Lands-down :
      Lands
        (record (at z) { cursor_line = suc (length (z.above)); cursor_col = 0 })
        (shift_forward 1 (text_of z))
  unfolding join_lines
  Lands-down =
      let row : suc (length (z.above)) ≡ length (z.above ++ z.left ∷ []) =
        omega (arith, length-append (z.above) (z.left ∷ [])) in
      record {
        place = record { above = z.above ++ z.left ∷ []; left = []; right = l; below = ls };
        place_plain = record {
          above_plain =
              every-append is_line (z.above) (z.left ∷ [])
              ∙ cc (plain.above_plain, plain.left_plain);
          left_plain = refl;
          right_plain = next_plain.0;
          below_plain = next_plain.1;
        };
        is_there =
            ap (λ y. record (at y) { cursor_line = suc (length (y.above)); cursor_col = 0 })
              is-lowered
            ∙ (λ i. record {
              lines =
                  (ap (λ m. z.above ++ m ∷ l ∷ ls) (append-nil (z.left))
                      ∙ sym (append_assoc (z.above) (z.left ∷ []) (l ∷ ls)))
                    i;
              cursor_line = row i;
              cursor_col = 0;
            });
        text_there = λ i. record {
          before =
              (stem-one_more (z.above) (z.left) ∙ ap ((text_of z).before ++◌) (sym take-lowered)) i;
          after = ap (drop 1) (sym after-lowered) i;
        };
      }
