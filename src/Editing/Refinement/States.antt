-- ===== src/Editing/Refinement/States.antt =====
-- What the editor's changes of its lines and its cursor are around the cursor.
use co_mono.Base.{
  ℕ, suc, ◌+◌, ◌-◌, ◌≤◌, ◌≡◌, ◌∙◌, refl, ap, some, List, [], ◌∷◌, ◌++◌, append_assoc, append-nil,
  get_or_else, length, length-append, length-take, take, drop, get_elem?, set, splice,
  take-append_le, drop-append, drop-add, get_elem?-append_cons, set-append_cons, arith,
}
use co_mono.Editing.Editor.{current_line, before_cursor, after_cursor}
use co_mono.Editing.Editor.Graphemes.{merge_with_previous, merge_with_next}
use co_mono.Editing.Refinement.Zipper.{
  Zipper, at, current_line-at, before_cursor-at, after_cursor-at,
}

-- A new line at the cursor.
pub set_line :
    (z : Zipper) (l r line : List ℕ) (col : ℕ)
    → line ≡ l ++ r
    → col ≡ length l
    → record (at z) { lines = set ((at z).lines) (length (z.above)) line; cursor_col = col }
      ≡ at (record z { left = l; right = r })
set_line z l r line col parts size = λ i. record {
  lines =
      (ap (set ((at z).lines) (length (z.above))) parts
          ∙ set-append_cons (z.above) (z.left ++ z.right) (l ++ r) (z.below))
        i;
  cursor_line = length (z.above);
  cursor_col = size i;
}

-- Another column in the same line.
pub set_col :
    (z : Zipper) (l r : List ℕ) (col : ℕ)
    → z.left ++ z.right ≡ l ++ r
    → col ≡ length l
    → record (at z) { cursor_col = col } ≡ at (record z { left = l; right = r })
set_col z l r col parts size = λ i. record {
  lines = z.above ++ parts i ∷ z.below;
  cursor_line = length (z.above);
  cursor_col = size i;
}

pub length-take_le {ℓ} : {A : Type ℓ} (n : ℕ) (xs : List A) → n ≤ length xs → length (take n xs) ≡ n
length-take_le n xs h = omega (arith, length-take n xs)

-- A cut of `n` units, and a move over them.
pub cut_left :
    (z : Zipper) (n : ℕ)
    → take (length (z.left) - n) (current_line (at z)) ++ after_cursor (at z)
      ≡ take (length (z.left) - n) (z.left) ++ z.right
cut_left z n =
    ap (λ l. take (length (z.left) - n) l ++ after_cursor (at z)) (current_line-at z)
    ∙ ap (λ r. take (length (z.left) - n) (z.left ++ z.right) ++ r) (after_cursor-at z)
    ∙ ap (λ l. l ++ z.right) (take-append_le (length (z.left) - n) (z.left) (z.right) (omega arith))

pub cut_right :
    (z : Zipper) (n : ℕ)
    → before_cursor (at z) ++ drop (length (z.left) + n) (current_line (at z))
      ≡ z.left ++ drop n (z.right)
cut_right z n =
    ap (λ l. l ++ drop (length (z.left) + n) (current_line (at z))) (before_cursor-at z)
    ∙ ap (λ l. z.left ++ drop (length (z.left) + n) l) (current_line-at z)
    ∙ ap (z.left ++◌) (
        drop-add (length (z.left)) n (z.left ++ z.right)
        ∙ ap (drop n) (drop-append (z.left) (z.right)))

take_past {ℓ} :
    {A : Type ℓ} (xs : List A) (y : A) (ys : List A)
    → take (suc (length xs)) (xs ++ y ∷ ys) ≡ xs ++ y ∷ []
take_past [] y ys = refl
take_past (x ∷ xs) y ys = ap (x ∷◌) (take_past xs y ys)

drop_two {ℓ} :
    {A : Type ℓ} (xs : List A) (y z : A) (zs : List A)
    → drop (suc (length xs) + 1) (xs ++ y ∷ z ∷ zs) ≡ zs
drop_two xs y z zs =
    let two : suc (length xs) + 1 ≡ length xs + 2 = omega arith in
    ap (λ n. drop n (xs ++ y ∷ z ∷ zs)) two
    ∙ drop-add (length xs) 2 (xs ++ y ∷ z ∷ zs)
    ∙ ap (drop 2) (drop-append xs (y ∷ z ∷ zs))

splice_second {ℓ} :
    {A : Type ℓ} (xs : List A) (y z : A) (zs : List A)
    → splice (xs ++ y ∷ z ∷ zs) (suc (length xs)) 1 [] ≡ xs ++ y ∷ zs
splice_second xs y z zs =
    ap (λ us. us ++ drop (suc (length xs) + 1) (xs ++ y ∷ z ∷ zs)) (take_past xs y (z ∷ zs))
    ∙ ap ((xs ++ y ∷ []) ++◌) (drop_two xs y z zs)
    ∙ append_assoc xs (y ∷ []) zs

pub previous_line-at :
    (ls : List (List ℕ)) (l r : List ℕ) (below : List (List ℕ))
    → get_or_else (get_elem? ((ls ++ l ∷ []) ++ r ∷ below) (length (ls ++ l ∷ []) - 1)) [] ≡ l
previous_line-at ls l r below =
    let up : length (ls ++ l ∷ []) - 1 ≡ length ls = omega (arith, length-append ls (l ∷ [])) in
    ap (λ n. get_or_else (get_elem? ((ls ++ l ∷ []) ++ r ∷ below) n) []) up
    ∙ ap (λ ms. get_or_else (get_elem? ms (length ls)) []) (append_assoc ls (l ∷ []) (r ∷ below))
    ∙ ap (λ o. get_or_else o []) (get_elem?-append_cons ls l (r ∷ below))

-- Joining the line with the one above, and with the one below.
pub merge_with_previous-at :
    (ls : List (List ℕ)) (l r : List ℕ) (below : List (List ℕ))
    → merge_with_previous
        (at (record { above = ls ++ l ∷ []; left = []; right = r; below = below }))
      ≡ at (record { above = ls; left = l; right = r; below = below })
unfolding merge_with_previous
merge_with_previous-at ls l r below =
    let z : Zipper = record { above = ls ++ l ∷ []; left = []; right = r; below = below } in
    let row : length (ls ++ l ∷ []) ≡ suc (length ls) = omega (arith, length-append ls (l ∷ [])) in
    let up : length (ls ++ l ∷ []) - 1 ≡ length ls = omega (arith, length-append ls (l ∷ [])) in
    let lines : (ls ++ l ∷ []) ++ r ∷ below ≡ ls ++ l ∷ r ∷ below =
      append_assoc ls (l ∷ []) (r ∷ below) in
    let previous = previous_line-at ls l r below in
    λ i. record {
      lines =
          (ap
                (λ p.
                  splice (set ((at z).lines) (length (ls ++ l ∷ []) - 1) (p ++ current_line (at z)))
                    (length (ls ++ l ∷ [])) 1 [])
                previous
              ∙ ap
                  (λ c.
                    splice (set ((at z).lines) (length (ls ++ l ∷ []) - 1) (l ++ c))
                      (length (ls ++ l ∷ [])) 1 [])
                  (current_line-at z)
              ∙ ap (λ n. splice (set ((at z).lines) n (l ++ r)) (length (ls ++ l ∷ [])) 1 []) up
              ∙ ap (λ n. splice (set ((at z).lines) (length ls) (l ++ r)) n 1 []) row
              ∙ ap (λ ms. splice (set ms (length ls) (l ++ r)) (suc (length ls)) 1 []) lines
              ∙ ap (λ ms. splice ms (suc (length ls)) 1 [])
                  (set-append_cons ls l (l ++ r) (r ∷ below))
              ∙ splice_second ls (l ++ r) r below)
            i;
      cursor_line = up i;
      cursor_col = length (previous i);
    }

get_elem?-next {ℓ} :
    {A : Type ℓ} (xs : List A) (y z : A) (zs : List A)
    → get_elem? (xs ++ y ∷ z ∷ zs) (suc (length xs)) ≡ some z
get_elem?-next [] y z zs = refl
get_elem?-next (x ∷ xs) y z zs = get_elem?-next xs y z zs

pub merge_with_next-at :
    (above : List (List ℕ)) (l r : List ℕ) (ls : List (List ℕ))
    → merge_with_next (at (record { above = above; left = l; right = []; below = r ∷ ls }))
      ≡ at (record { above = above; left = l; right = r; below = ls })
unfolding merge_with_next
merge_with_next-at above l r ls =
    let z : Zipper = record { above = above; left = l; right = []; below = r ∷ ls } in
    let n = length above in
    let next = ap (λ o. get_or_else o []) (get_elem?-next above (l ++ []) r ls) in
    λ i. record {
      lines =
          (ap (λ p. splice (set ((at z).lines) n (current_line (at z) ++ p)) (suc n) 1 []) next
              ∙ ap (λ c. splice (set ((at z).lines) n (c ++ r)) (suc n) 1 [])
                  (current_line-at z ∙ append-nil l)
              ∙ ap (λ ms. splice ms (suc n) 1 [])
                  (set-append_cons above (l ++ []) (l ++ r) (r ∷ ls))
              ∙ splice_second above (l ++ r) r ls)
            i;
      cursor_line = n;
      cursor_col = length l;
    }
