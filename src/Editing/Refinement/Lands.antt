-- ===== src/Editing/Refinement/Lands.antt =====
-- Where the editor's changes land in the reference's text.
use co_mono.Base.{
  ℕ, ◌+◌, ◌-◌, ◌≤◌, ◌≡◌, ◌∙◌, refl, sym, ap, subst, true, not, List, [], ◌∷◌, ◌++◌, ◌==◌,
  append_assoc, length, length-append, take, drop, set, take-append-drop, join_lines,
  join_lines-glue, every-append, arith,
}
use co_mono.Editing.Editor.{current_line, before_cursor, after_cursor}
use co_mono.Editing.Reference.{cut_back, cut_forward, shift_back, shift_forward}
use co_mono.Editing.Refinement.Zipper.{Zipper, IsPlain, at, is_line, every-split}
use co_mono.Editing.Refinement.Text.{
  text_of, keep_back-at, drop_back-at, drop_after-at, take_after-at,
}
use co_mono.Editing.Refinement.States.{set_line, set_col, cut_left, cut_right, length-take_le}
use co_mono.Editing.Refinement.View.{Lands}

-- A part of a line is a line.
is_line-take : (n : ℕ) (l : List ℕ) → is_line l ≡ true → is_line (take n l) ≡ true
is_line-take n l h =
    (every-split (λ c. not (c == 0x0a)) (take n l) (drop n l)
      (ap is_line (take-append-drop n l) ∙ h)).0

is_line-drop : (n : ℕ) (l : List ℕ) → is_line l ≡ true → is_line (drop n l) ≡ true
is_line-drop n l h =
    (every-split (λ c. not (c == 0x0a)) (take n l) (drop n l)
      (ap is_line (take-append-drop n l) ∙ h)).1

is_line-append : (l r : List ℕ) → is_line l ≡ true → is_line r ≡ true → is_line (l ++ r) ≡ true
is_line-append l r h k = every-append (λ c. not (c == 0x0a)) l r ∙ cc (h, k)

join_lines-append :
    (d r : List ℕ) (below : List (List ℕ))
    → join_lines ((d ++ r) ∷ below) ≡ d ++ join_lines (r ∷ below)
unfolding join_lines
join_lines-append d r below = join_lines-glue [] d r below

join_lines-glue_end :
    (above : List (List ℕ)) (l d : List ℕ)
    → join_lines (above ++ (l ++ d) ∷ []) ≡ join_lines (above ++ l ∷ []) ++ d
unfolding join_lines
join_lines-glue_end above l d = join_lines-glue above l d []

IsPlain-with :
    (z : Zipper) (l r : List ℕ)
    → IsPlain z
    → is_line l ≡ true
    → is_line r ≡ true
    → IsPlain (record z { left = l; right = r })
IsPlain-with z l r h left_line right_line = record {
  above_plain = h.above_plain;
  left_plain = left_line;
  right_plain = right_line;
  below_plain = h.below_plain;
}

module _ (z : Zipper) (plain : IsPlain z) (n : ℕ) where
  Lands-cut_back :
      n ≤ length (z.left)
      → Lands
          (record (at z) {
            lines =
                set
                  ((at z).lines)
                  (length (z.above))
                  (take (length (z.left) - n) (current_line (at z)) ++ after_cursor (at z));
            cursor_col = length (z.left) - n;
          })
          (cut_back n (text_of z))
  Lands-cut_back h = record {
    place = record z { left = take (length (z.left) - n) (z.left) };
    place_plain =
        IsPlain-with z (take (length (z.left) - n) (z.left)) (z.right) plain
          (is_line-take (length (z.left) - n) (z.left) (plain.left_plain)) (plain.right_plain);
    is_there =
        set_line z (take (length (z.left) - n) (z.left)) (z.right)
          (take (length (z.left) - n) (current_line (at z)) ++ after_cursor (at z))
          (length (z.left) - n) (cut_left z n)
          (sym (length-take_le (length (z.left) - n) (z.left) (omega arith)));
    text_there = λ i. record (text_of z) { before = sym (keep_back-at z n h) i };
  }

  Lands-cut_forward :
      n ≤ length (z.right)
      → Lands
          (record (at z) {
            lines =
                set
                  ((at z).lines)
                  (length (z.above))
                  (before_cursor (at z) ++ drop (length (z.left) + n) (current_line (at z)));
          })
          (cut_forward n (text_of z))
  Lands-cut_forward h = record {
    place = record z { right = drop n (z.right) };
    place_plain =
        IsPlain-with z (z.left) (drop n (z.right)) plain (plain.left_plain)
          (is_line-drop n (z.right) (plain.right_plain));
    is_there =
        set_line z (z.left) (drop n (z.right))
          (before_cursor (at z) ++ drop (length (z.left) + n) (current_line (at z)))
          (length (z.left)) (cut_right z n) refl;
    text_there = λ i. record (text_of z) { after = sym (drop_after-at z n h) i };
  }

  Lands-shift_back :
      n ≤ length (z.left)
      → Lands (record (at z) { cursor_col = length (z.left) - n }) (shift_back n (text_of z))
  Lands-shift_back h =
      let k = length (z.left) - n in
      record {
        place = record z { left = take k (z.left); right = drop k (z.left) ++ z.right };
        place_plain =
            IsPlain-with z (take k (z.left)) (drop k (z.left) ++ z.right) plain
              (is_line-take k (z.left) (plain.left_plain))
              (is_line-append (drop k (z.left)) (z.right)
                (is_line-drop k (z.left) (plain.left_plain)) (plain.right_plain));
        is_there =
            set_col z (take k (z.left)) (drop k (z.left) ++ z.right) k
              (ap (λ l. l ++ z.right) (sym (take-append-drop k (z.left)))
                ∙ append_assoc (take k (z.left)) (drop k (z.left)) (z.right))
              (sym (length-take_le k (z.left) (omega arith)));
        text_there = λ i. record {
          before = sym (keep_back-at z n h) i;
          after =
              (join_lines-append (drop k (z.left)) (z.right) (z.below)
                  ∙ ap (λ cs. cs ++ (text_of z).after) (sym (drop_back-at z n h)))
                i;
        };
      }

  Lands-shift_forward :
      n ≤ length (z.right)
      → Lands (record (at z) { cursor_col = length (z.left) + n }) (shift_forward n (text_of z))
  Lands-shift_forward h = record {
    place = record z { left = z.left ++ take n (z.right); right = drop n (z.right) };
    place_plain =
        IsPlain-with z (z.left ++ take n (z.right)) (drop n (z.right)) plain
          (is_line-append (z.left) (take n (z.right)) (plain.left_plain)
            (is_line-take n (z.right) (plain.right_plain)))
          (is_line-drop n (z.right) (plain.right_plain));
    is_there =
        set_col z (z.left ++ take n (z.right)) (drop n (z.right)) (length (z.left) + n)
          (ap (z.left ++◌) (sym (take-append-drop n (z.right)))
            ∙ sym (append_assoc (z.left) (take n (z.right)) (drop n (z.right))))
          (omega (arith, length-append (z.left) (take n (z.right)), length-take_le n (z.right) h));
    text_there = λ i. record {
      before =
          (join_lines-glue_end (z.above) (z.left) (take n (z.right))
              ∙ ap ((text_of z).before ++◌) (sym (take_after-at z n h)))
            i;
      after = sym (drop_after-at z n h) i;
    };
  }

-- The line, the column and the number that the code computes in another way.
module _ (z : Zipper) (plain : IsPlain z) (line : List ℕ) (n : ℕ) where
  pub Lands-cut_left :
      (col : ℕ)
      → n ≤ length (z.left)
      → line ≡ take (length (z.left) - n) (z.left) ++ z.right
      → col ≡ length (z.left) - n
      → Lands
          (record (at z) { lines = set ((at z).lines) (length (z.above)) line; cursor_col = col })
          (cut_back n (text_of z))
  Lands-cut_left col h parts same =
      subst (λ st. Lands st (cut_back n (text_of z)))
        (λ i. record (at z) {
          lines = set ((at z).lines) (length (z.above)) ((cut_left z n ∙ sym parts) i);
          cursor_col = sym same i;
        })
        (Lands-cut_back z plain n h)

  pub Lands-cut_right :
      n ≤ length (z.right)
      → line ≡ z.left ++ drop n (z.right)
      → Lands
          (record (at z) { lines = set ((at z).lines) (length (z.above)) line })
          (cut_forward n (text_of z))
  Lands-cut_right h parts =
      subst (λ st. Lands st (cut_forward n (text_of z)))
        (λ i. record (at z) {
          lines = set ((at z).lines) (length (z.above)) ((cut_right z n ∙ sym parts) i);
        })
        (Lands-cut_forward z plain n h)

-- A column the code computes in another way.
module _ (z : Zipper) (plain : IsPlain z) (col n : ℕ) where
  pub Lands-left :
      n ≤ length (z.left)
      → col ≡ length (z.left) - n
      → Lands (record (at z) { cursor_col = col }) (shift_back n (text_of z))
  Lands-left h same =
      subst (λ c. Lands (record (at z) { cursor_col = c }) (shift_back n (text_of z))) (sym same)
        (Lands-shift_back z plain n h)

  pub Lands-right :
      n ≤ length (z.right)
      → col ≡ length (z.left) + n
      → Lands (record (at z) { cursor_col = col }) (shift_forward n (text_of z))
  Lands-right h same =
      subst (λ c. Lands (record (at z) { cursor_col = c }) (shift_forward n (text_of z))) (sym same)
        (Lands-shift_forward z plain n h)
