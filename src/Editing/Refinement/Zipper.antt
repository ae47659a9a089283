-- ===== src/Editing/Refinement/Zipper.antt =====
-- The state of the editor around its cursor, and what its lines and columns are there.
use co_mono.Base.{
  ℕ, zero, suc, ◌≤◌, ◌<◌, ◌≡◌, ◌∙◌, refl, sym, ap, subst, Bool, true, not, ◌&&◌, List, [], ◌∷◌,
  ◌++◌, ◌==◌, length, take, drop, get_elem?, get_or_else, every, every-append, length-append,
  length-take, take-append-drop, take-append, drop-append, get_elem?-append_cons, and-split, arith,
}
use co_mono.Editing.Editor.{EditorState, current_line, before_cursor, after_cursor}

-- A line has no line end.
abbrev pub is_line : List ℕ → Bool
is_line l = every (λ c. not (c == 0x0a)) l

pub record Zipper : Type 0 where
  pub above : List (List ℕ)
  pub left : List ℕ
  pub right : List ℕ
  pub below : List (List ℕ)

abbrev pub at : Zipper → EditorState
at z = record {
  lines = z.above ++ (z.left ++ z.right) ∷ z.below;
  cursor_line = length (z.above);
  cursor_col = length (z.left);
}

-- The cursor is in the text, at a column of its line, and no line has a line end.
unfoldable pub IsInText : EditorState → Type 0
IsInText st =
    (st.cursor_line < length (st.lines))
    × (st.cursor_col ≤ length (current_line st))
    × (every is_line (st.lines) ≡ true)

-- The four parts are of lines.
pub record IsPlain (z : Zipper) : Type 0 where
  pub above_plain : every is_line (z.above) ≡ true
  pub left_plain : is_line (z.left) ≡ true
  pub right_plain : is_line (z.right) ≡ true
  pub below_plain : every is_line (z.below) ≡ true

-- What to set or read at the cursor.
pub current_line-at : (z : Zipper) → current_line (at z) ≡ z.left ++ z.right
current_line-at z =
    ap (λ o. get_or_else o []) (get_elem?-append_cons (z.above) (z.left ++ z.right) (z.below))

pub before_cursor-at : (z : Zipper) → before_cursor (at z) ≡ z.left
before_cursor-at z =
    ap (take (length (z.left))) (current_line-at z) ∙ take-append (z.left) (z.right)

pub after_cursor-at : (z : Zipper) → after_cursor (at z) ≡ z.right
after_cursor-at z = ap (drop (length (z.left))) (current_line-at z) ∙ drop-append (z.left) (z.right)

split_at {ℓ} :
    {A : Type ℓ} (i : ℕ) (xs : List A)
    → i < length xs
    → (above : List A) × (y : A) × (below : List A) × (xs ≡ above ++ y ∷ below) × (length above ≡ i)
split_at i [] h = absurd (omega arith)
split_at zero (x ∷ xs) h = ([], x, xs, refl, refl)
split_at (suc i) (x ∷ xs) h =
    let (above, y, below, parts, size) = split_at i xs (omega arith) in
    (x ∷ above, y, below, ap (x ∷◌) parts, ap suc size)

length-take_le {ℓ} : {A : Type ℓ} (n : ℕ) (xs : List A) → n ≤ length xs → length (take n xs) ≡ n
length-take_le n xs h = omega (arith, length-take n xs)

pub every-cons {ℓ} :
    {A : Type ℓ} (p : A → Bool) (xs : List A) (y : A) (zs : List A)
    → every p (xs ++ y ∷ zs) ≡ true
    → (every p xs ≡ true) × (p y ≡ true) × (every p zs ≡ true)
every-cons p xs y zs h =
    let (front, tail) =
      and-split (every p xs) (p y && every p zs) (sym (every-append p xs (y ∷ zs)) ∙ h) in
    let (here, back) = and-split (p y) (every p zs) tail in (front, here, back)

pub every-split {ℓ} :
    {A : Type ℓ} (p : A → Bool) (xs ys : List A)
    → every p (xs ++ ys) ≡ true
    → (every p xs ≡ true) × (every p ys ≡ true)
every-split p xs ys h = and-split (every p xs) (every p ys) (sym (every-append p xs ys) ∙ h)

-- A state with its cursor in the text has its four parts.
pub zip : (st : EditorState) → IsInText st → (z : Zipper) × IsPlain z × (st ≡ at z)
unfolding IsInText
zip st (row, col, plain) =
    let (above, line, below, parts, size) = split_at (st.cursor_line) (st.lines) row in
    let current : current_line st ≡ line =
      ap (λ n. get_or_else (get_elem? (st.lines) n) []) (sym size)
      ∙ ap (λ ls. get_or_else (get_elem? ls (length above)) []) parts
      ∙ ap (λ o. get_or_else o []) (get_elem?-append_cons above line below) in
    let cursor : st.cursor_col ≤ length line = subst (λ l. st.cursor_col ≤ length l) current col in
    let (plain_above, plain_line, plain_below) =
      every-cons is_line above line below (ap (every is_line) (sym parts) ∙ plain) in
    let halves = take-append-drop (st.cursor_col) line in
    let (plain_left, plain_right) =
      every-split (λ c. not (c == 0x0a)) (take (st.cursor_col) line) (drop (st.cursor_col) line)
        (ap is_line halves ∙ plain_line) in
    (
      record {
        above = above;
        left = take (st.cursor_col) line;
        right = drop (st.cursor_col) line;
        below = below;
      },
      record {
        above_plain = plain_above;
        left_plain = plain_left;
        right_plain = plain_right;
        below_plain = plain_below;
      },
      λ i. record {
        lines = (parts ∙ ap (λ l. above ++ l ∷ below) (sym halves)) i;
        cursor_line = sym size i;
        cursor_col = sym (length-take_le (st.cursor_col) line cursor) i;
      },
    )

pub IsInText-at : (z : Zipper) → IsPlain z → IsInText (at z)
unfolding IsInText
IsInText-at z h =
    let line : is_line (z.left ++ z.right) ≡ true =
      every-append (λ c. not (c == 0x0a)) (z.left) (z.right) ∙ cc (h.left_plain, h.right_plain) in
    (
      omega (arith, length-append (z.above) ((z.left ++ z.right) ∷ z.below)),
      subst (λ l. length (z.left) ≤ length l) (sym (current_line-at z))
          (omega (arith, length-append (z.left) (z.right))),
      every-append is_line (z.above) ((z.left ++ z.right) ∷ z.below)
          ∙ cc (h.above_plain, line, h.below_plain),
    )
