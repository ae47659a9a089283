-- ===== src/Editing/Refinement/Text.antt =====
-- The text before and after the cursor of the editor, and its last and first rows.
use mathlib.Core.List.{reverse-reverse, reverse-append, reverse-cons}
use Prim.Native.Nat.add
use co_mono.Base.{
  last-cases, ℕ, suc, ◌+◌, ◌-◌, ◌≤◌, ◌≡◌, ◌∙◌, refl, sym, ap, inl, inr, Bool, true, not, List, [],
  ◌∷◌, ◌++◌, ◌==◌, reverse, append_assoc, append-nil, length, take, drop, every, every-append,
  length-append, join_lines, join_lines-glue, take-append, drop-append, drop-add, take-append_le,
  drop-append_le, and-split, if-both, arith,
}
use co_mono.Editing.Editor.{EditorState, before_cursor, after_cursor}
use co_mono.Editing.Reference.{Text, row, column, keep_back}
use co_mono.Editing.Refinement.Zipper.{
  Zipper, IsPlain, at, is_line, before_cursor-at, after_cursor-at,
}

unfoldable pub view_text : EditorState → Text
view_text st = record {
  before = join_lines (take (st.cursor_line) (st.lines) ++ before_cursor st ∷ []);
  after = join_lines (after_cursor st ∷ drop (suc (st.cursor_line)) (st.lines));
}

abbrev pub text_of : Zipper → Text
text_of z = record {
  before = join_lines (z.above ++ z.left ∷ []);
  after = join_lines (z.right ∷ z.below);
}

-- The rows above with the line end behind them, and those below with the one in front of them.
abbrev pub stem : List (List ℕ) → List ℕ
stem above = join_lines (above ++ [] ∷ [])

abbrev pub tail : List (List ℕ) → List ℕ
tail [] = []
tail (l ∷ ls) = 0x0a ∷ join_lines (l ∷ ls)

pub drop_past {ℓ} :
    {A : Type ℓ} (xs : List A) (y : A) (ys : List A) → drop (suc (length xs)) (xs ++ y ∷ ys) ≡ ys
drop_past [] y ys = refl
drop_past (x ∷ xs) y ys = drop_past xs y ys

pub view_text-at : (z : Zipper) → view_text (at z) ≡ text_of z
unfolding view_text
view_text-at z = λ i. record {
  before =
      join_lines
        (take-append (z.above) ((z.left ++ z.right) ∷ z.below) i ++ before_cursor-at z i ∷ []);
  after = join_lines (after_cursor-at z i ∷ drop_past (z.above) (z.left ++ z.right) (z.below) i);
}

pub before-stem :
    (above : List (List ℕ)) (left : List ℕ) → join_lines (above ++ left ∷ []) ≡ stem above ++ left
unfolding join_lines
before-stem above left = join_lines-glue above [] left []

pub after-tail :
    (right : List ℕ) (below : List (List ℕ)) → join_lines (right ∷ below) ≡ right ++ tail below
unfolding join_lines
after-tail right [] = sym (append-nil right)
after-tail right (l ∷ ls) = refl

pub stem-one_more :
    (above : List (List ℕ)) (p : List ℕ)
    → stem (above ++ p ∷ []) ≡ join_lines (above ++ p ∷ []) ++ 0x0a ∷ []
unfolding join_lines
stem-one_more above p =
    ap join_lines (append_assoc above (p ∷ []) ([] ∷ []))
    ∙ ap (λ l. join_lines (above ++ l ∷ [] ∷ [])) (sym (append-nil p))
    ∙ join_lines-glue above p [] ([] ∷ [])

row_line : (l : List ℕ) → is_line l ≡ true → row l ≡ l
row_line [] h = refl
row_line (c ∷ cs) h =
    let (here, later) = and-split (not (c == 0x0a)) (is_line cs) h in
    if-both (λ ds. ds ≡ c ∷ cs) (c == 0x0a) (λ e. absurd (cc (here, e)))
      (λ _. ap (c ∷◌) (row_line cs later))

row-append : (l rest : List ℕ) → is_line l ≡ true → row (l ++ 0x0a ∷ rest) ≡ l
row-append [] rest h = refl
row-append (c ∷ cs) rest h =
    let (here, later) = and-split (not (c == 0x0a)) (is_line cs) h in
    if-both (λ ds. ds ≡ c ∷ cs) (c == 0x0a) (λ e. absurd (cc (here, e)))
      (λ _. ap (c ∷◌) (row-append cs rest later))

every-reverse {ℓ} :
    {A : Type ℓ} (p : A → Bool) (xs : List A) → every p xs ≡ true → every p (reverse xs) ≡ true
every-reverse p [] h = refl
every-reverse p (x ∷ xs) h =
    let (here, later) = and-split (p x) (every p xs) h in
    ap (every p) (reverse-cons x xs)
    ∙ every-append p (reverse xs) (x ∷ [])
    ∙ cc (every-reverse p xs later, here)

-- The row before the cursor, and the one after it.
pub column-before : (z : Zipper) → IsPlain z → column ((text_of z).before) ≡ z.left
unfolding join_lines
column-before z h =
    let plain = every-reverse (λ c. not (c == 0x0a)) (z.left) (h.left_plain) in
    elim (last-cases (z.above)) [
      | inl empty ↦
          ap (λ ls. column (join_lines (ls ++ z.left ∷ []))) empty
          ∙ ap reverse (row_line (reverse (z.left)) plain)
          ∙ reverse-reverse (z.left)
      | inr (ls, l, parts) ↦
          let text = join_lines (ls ++ l ∷ []) in
          ap column (
            before-stem (z.above) (z.left)
            ∙ ap (λ ms. stem ms ++ z.left) parts
            ∙ ap (λ s. s ++ z.left) (stem-one_more ls l))
          ∙ ap (λ s. reverse (row s))
              (reverse-append (text ++ 0x0a ∷ []) (z.left)
                ∙ ap (reverse (z.left) ++◌) (reverse-append text (0x0a ∷ [])))
          ∙ ap reverse (row-append (reverse (z.left)) (reverse text) plain)
          ∙ reverse-reverse (z.left)
    ]

pub row-after : (z : Zipper) → IsPlain z → row ((text_of z).after) ≡ z.right
row-after z h =
    ap row (after-tail (z.right) (z.below)) ∙ row-tail (z.right) (z.below) (h.right_plain)
  where
    row-tail :
        (right : List ℕ) (below : List (List ℕ))
        → is_line right ≡ true
        → row (right ++ tail below) ≡ right
    row-tail right [] plain = ap row (append-nil right) ∙ row_line right plain
    row-tail right (l ∷ ls) plain = row-append right (join_lines (l ∷ ls)) plain

pub take-stem : (s l : List ℕ) (n : ℕ) → take (length s + n) (s ++ l) ≡ s ++ take n l
take-stem [] l n = rw (add.zero n)
take-stem (c ∷ s) l n = rw (add.suc (length s) n) (ap (c ∷◌) (take-stem s l n))

drop-stem : (s l : List ℕ) (n : ℕ) → drop (length s + n) (s ++ l) ≡ drop n l
drop-stem s l n = drop-add (length s) n (s ++ l) ∙ ap (drop n) (drop-append s l)

-- Cutting and moving on the cursor's line.
keep-stem : (s l : List ℕ) (n : ℕ) → n ≤ length l → length (s ++ l) - n ≡ length s + (length l - n)
keep-stem s l n h = omega (arith, length-append s l)

pub keep_back-at :
    (z : Zipper) (n : ℕ)
    → n ≤ length (z.left)
    → keep_back n (text_of z) ≡ join_lines (z.above ++ take (length (z.left) - n) (z.left) ∷ [])
keep_back-at z n h =
    let s = stem (z.above) in
    let l = z.left in
    ap (λ b. take (length b - n) b) (before-stem (z.above) l)
    ∙ ap (λ m. take m (s ++ l)) (keep-stem s l n h)
    ∙ take-stem s l (length l - n)
    ∙ sym (before-stem (z.above) (take (length l - n) l))

pub drop_back-at :
    (z : Zipper) (n : ℕ)
    → n ≤ length (z.left)
    → drop (length ((text_of z).before) - n) ((text_of z).before)
      ≡ drop (length (z.left) - n) (z.left)
drop_back-at z n h =
    let s = stem (z.above) in
    let l = z.left in
    ap (λ b. drop (length b - n) b) (before-stem (z.above) l)
    ∙ ap (λ m. drop m (s ++ l)) (keep-stem s l n h)
    ∙ drop-stem s l (length l - n)

pub drop_after-at :
    (z : Zipper) (n : ℕ)
    → n ≤ length (z.right)
    → drop n ((text_of z).after) ≡ join_lines (drop n (z.right) ∷ z.below)
drop_after-at z n h =
    ap (drop n) (after-tail (z.right) (z.below))
    ∙ drop-append_le n (z.right) (tail (z.below)) h
    ∙ sym (after-tail (drop n (z.right)) (z.below))

pub take_after-at :
    (z : Zipper) (n : ℕ) → n ≤ length (z.right) → take n ((text_of z).after) ≡ take n (z.right)
take_after-at z n h =
    ap (take n) (after-tail (z.right) (z.below)) ∙ take-append_le n (z.right) (tail (z.below)) h
