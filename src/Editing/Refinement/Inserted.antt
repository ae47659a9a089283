-- ===== src/Editing/Refinement/Inserted.antt =====
-- Where a text that is inserted, or that replaces the text, lands.
use co_mono.Base.{
  ℕ, suc, ◌+◌, ◌-◌, ◌≡◌, ◌∙◌, refl, sym, ap, subst, true, false, not, some, List, [], ◌∷◌, ◌++◌,
  ◌==◌, get_or_else, length, last?, last?-append-one, set, splice, every, every-append, and-split,
  append-nil, append_assoc, set-append_cons, length-append, split_lines, split_lines-cons,
  join_lines, join_lines-split_lines, join_lines-glue, arith,
}
use co_mono.Editing.Editor.{before_cursor, after_cursor, last_line, insert_lines, normalize}
use co_mono.Editing.Editor.Texts.{set_text_internal}
use co_mono.Editing.Editor.Yank.{insert_yanked_lines, insert_yanked_text}
use co_mono.Editing.Reference.{put, whole}
use co_mono.Editing.Refinement.Zipper.{
  Zipper, IsPlain, at, is_line, every-cons, before_cursor-at, after_cursor-at,
}
use co_mono.Editing.Refinement.Text.{text_of, stem-one_more}
use co_mono.Editing.Refinement.States.{set_line}
use co_mono.Editing.Refinement.View.{Lands}
use co_mono.Editing.Refinement.Insert.{
  split_lines-plain, splice-here, spread, spread-IsPlain, spread-text, insert_lines-spread,
  insert_yanked_lines-spread, first_lines, first-last, length-first,
}

-- A text on one line.
pub Lands-insert_line :
    (z : Zipper) (line : List ℕ)
    → IsPlain z
    → is_line line ≡ true
    → Lands
        (record (at z) {
          lines =
              set
                ((at z).lines)
                (length (z.above))
                (before_cursor (at z) ++ (line ++ after_cursor (at z)));
          cursor_col = length (z.left) + length line;
        })
        (put line (text_of z))
unfolding join_lines
Lands-insert_line z line plain h = record {
  place = record z { left = z.left ++ line };
  place_plain = record {
    above_plain = plain.above_plain;
    left_plain = every-append (λ c. not (c == 0x0a)) (z.left) line ∙ cc (plain.left_plain, h);
    right_plain = plain.right_plain;
    below_plain = plain.below_plain;
  };
  is_there =
      set_line z (z.left ++ line) (z.right) (before_cursor (at z) ++ (line ++ after_cursor (at z)))
        (length (z.left) + length line)
        ((λ i. before_cursor-at z i ++ (line ++ after_cursor-at z i))
          ∙ sym (append_assoc (z.left) line (z.right)))
        (omega (arith, length-append (z.left) line));
  text_there = λ i. record {
    before = join_lines-glue (z.above) (z.left) line [] i;
    after = (text_of z).after;
  };
}

module _ (z : Zipper) (plain : IsPlain z) where
  Lands-insert_lines :
      (lines : List (List ℕ)) (l : List ℕ) (ls : List (List ℕ))
      → lines ≡ l ∷ ls
      → every is_line lines ≡ true
      → Lands (insert_lines lines (at z)) (put (join_lines lines) (text_of z))
  unfolding insert_lines join_lines
  Lands-insert_lines [] l ls eq h = absurd (cc (eq))
  Lands-insert_lines (line ∷ []) l ls eq h =
      Lands-insert_line z line plain (and-split (is_line line) true h).0
  Lands-insert_lines (line ∷ m ∷ ms) l ls eq h = record {
    place = spread z line m ms;
    place_plain = spread-IsPlain z line m ms plain h;
    is_there = insert_lines-spread z line m ms;
    text_there = spread-text z line m ms;
  }

  Lands-insert_yanked_lines :
      (lines : List (List ℕ)) (l : List ℕ) (ls : List (List ℕ))
      → lines ≡ l ∷ ls
      → every is_line lines ≡ true
      → Lands (insert_yanked_lines lines (at z)) (put (join_lines lines) (text_of z))
  unfolding insert_yanked_lines join_lines
  Lands-insert_yanked_lines [] l ls eq h = absurd (cc (eq))
  Lands-insert_yanked_lines (line ∷ []) l ls eq h =
      Lands-insert_line z line plain (and-split (is_line line) true h).0
  Lands-insert_yanked_lines (line ∷ m ∷ ms) l ls eq h = record {
    place = spread z line m ms;
    place_plain = spread-IsPlain z line m ms plain h;
    is_there = insert_yanked_lines-spread z line m ms;
    text_there = spread-text z line m ms;
  }

  pub Lands-insert_split :
      (text : List ℕ) → Lands (insert_lines (split_lines text) (at z)) (put text (text_of z))
  Lands-insert_split text =
      let (l, ls, lines) = split_lines-cons text in
      subst (λ cs. Lands (insert_lines (split_lines text) (at z)) (put cs (text_of z)))
        (join_lines-split_lines text)
        (Lands-insert_lines (split_lines text) l ls lines (split_lines-plain text))

  pub Lands-insert_yanked_text :
      (text : List ℕ) → Lands (insert_yanked_text text (at z)) (put text (text_of z))
  unfolding insert_yanked_text
  Lands-insert_yanked_text text =
      let (l, ls, lines) = split_lines-cons text in
      subst (λ cs. Lands (insert_yanked_lines (split_lines text) (at z)) (put cs (text_of z)))
        (join_lines-split_lines text)
        (Lands-insert_yanked_lines (split_lines text) l ls lines (split_lines-plain text))

  pub Lands-new_line :
      Lands
        (record {
          lines =
              splice
                (set ((at z).lines) (length (z.above)) (before_cursor (at z)))
                (suc (length (z.above)))
                0
                (after_cursor (at z) ∷ []);
          cursor_line = suc (length (z.above));
          cursor_col = 0;
        })
        (put (0x0a ∷ []) (text_of z))
  Lands-new_line =
      let row : length (z.above ++ z.left ∷ []) ≡ suc (length (z.above)) =
        omega (arith, length-append (z.above) (z.left ∷ [])) in
      record {
        place = record {
          above = z.above ++ z.left ∷ [];
          left = [];
          right = z.right;
          below = z.below;
        };
        place_plain = record {
          above_plain =
              every-append is_line (z.above) (z.left ∷ [])
              ∙ cc (plain.above_plain, plain.left_plain);
          left_plain = refl;
          right_plain = plain.right_plain;
          below_plain = plain.below_plain;
        };
        is_there = λ i. record {
          lines =
              ((λ j.
                    splice (set ((at z).lines) (length (z.above)) (before_cursor-at z j))
                      (suc (length (z.above))) 0 (after_cursor-at z j ∷ []))
                  ∙ ap (λ xs. splice xs (suc (length (z.above))) 0 (z.right ∷ []))
                      (set-append_cons (z.above) (z.left ++ z.right) (z.left) (z.below)
                        ∙ sym (append_assoc (z.above) (z.left ∷ []) (z.below)))
                  ∙ splice-here (z.above ++ z.left ∷ []) (suc (length (z.above))) (z.right)
                      (z.below) row)
                i;
          cursor_line = sym row i;
          cursor_col = 0;
        };
        text_there =
            λ i. record { before = stem-one_more (z.above) (z.left) i; after = (text_of z).after };
      }

-- The whole text replaced.
Lands-last :
    (lines : List (List ℕ)) (l : List ℕ) (ls : List (List ℕ))
    → lines ≡ l ∷ ls
    → every is_line lines ≡ true
    → Lands
        (record {
          lines = lines;
          cursor_line = length lines - 1;
          cursor_col = length (get_or_else (last? lines) []);
        })
        (record { before = join_lines lines; after = [] })
unfolding join_lines
Lands-last lines l ls eq h =
    let parts : lines ≡ first_lines l ls ++ last_line l ls ∷ [] = eq ∙ sym (first-last l ls) in
    let (front, last, _) =
      every-cons is_line (first_lines l ls) (last_line l ls) []
        (sym (ap (every is_line) parts) ∙ h) in
    let row : length lines - 1 ≡ length (first_lines l ls) =
      omega (arith, ap length eq, length-first l ls) in
    let end : last? lines ≡ some (last_line l ls) =
      ap last? parts ∙ last?-append-one (first_lines l ls) (last_line l ls) in
    record {
      place = record { above = first_lines l ls; left = last_line l ls; right = []; below = [] };
      place_plain = record {
        above_plain = front;
        left_plain = last;
        right_plain = refl;
        below_plain = refl;
      };
      is_there = λ i. record {
        lines =
            (parts ∙ ap (λ x. first_lines l ls ++ x ∷ []) (sym (append-nil (last_line l ls)))) i;
        cursor_line = row i;
        cursor_col = length (get_or_else (end i) []);
      };
      text_there = λ i. record { before = join_lines (sym parts i); after = [] };
    }

pub Lands-set_text : (cs : List ℕ) → Lands (set_text_internal cs) (whole cs)
unfolding set_text_internal
Lands-set_text cs =
    let text = normalize false cs in
    let (l, ls, lines) = split_lines-cons text in
    subst (λ ds. Lands (set_text_internal cs) (record { before = ds; after = [] }))
      (join_lines-split_lines text)
      (Lands-last (split_lines text) l ls lines (split_lines-plain text))
