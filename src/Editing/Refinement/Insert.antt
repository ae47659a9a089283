-- ===== src/Editing/Refinement/Insert.antt =====
-- The commands that insert a text, replace the text or go along a line agree with the reference.
use co_mono.Base.{
  ℕ, suc, ◌+◌, ◌≡◌, ◌∙◌, refl, sym, ap, subst, true, not, List, [], ◌∷◌, ◌++◌, ◌==◌, if-both,
  length, take, drop, set, splice, every, every-append, and-split, append_assoc, take-append,
  drop-append, set-append_cons, length-append, cons_first, split_lines, split_lines-cons,
  join_lines, join_lines-glue, arith,
}
use co_mono.Editing.Editor.{close_lines, last_line, insert_lines}
use co_mono.Editing.Editor.Yank.{splice_lines, insert_yanked_lines}
use co_mono.Editing.Reference.{put}
use co_mono.Editing.Refinement.Zipper.{
  Zipper, IsPlain, at, is_line, every-cons, before_cursor-at, after_cursor-at,
}
use co_mono.Editing.Refinement.Text.{text_of, drop_past}

pub split_lines-plain : (s : List ℕ) → every is_line (split_lines s) ≡ true
unfolding split_lines
split_lines-plain [] = refl
split_lines-plain (c ∷ cs) =
    let (l, ls, lines) = split_lines-cons cs in
    let (first, others) =
      and-split (is_line l) (every is_line ls)
        (sym (ap (every is_line) lines) ∙ split_lines-plain cs) in
    if-both (λ ms. every is_line ms ≡ true) (c == 0x0a) (λ _. split_lines-plain cs)
      (λ other.
        subst (λ ms. every is_line (cons_first c ms) ≡ true) (sym lines)
          (cc (other, first, others)))

abbrev pub first_lines : List ℕ → List (List ℕ) → List (List ℕ)
first_lines line [] = []
first_lines line (m ∷ ms) = line ∷ first_lines m ms

pub first-last :
    (line : List ℕ) (ms : List (List ℕ)) → first_lines line ms ++ last_line line ms ∷ [] ≡ line ∷ ms
first-last line [] = refl
first-last line (m ∷ ms) = ap (line ∷◌) (first-last m ms)

pub length-first : (line : List ℕ) (ms : List (List ℕ)) → length (first_lines line ms) ≡ length ms
length-first line [] = refl
length-first line (m ∷ ms) = ap suc (length-first m ms)

close-lines :
    (line : List ℕ) (ms : List (List ℕ)) (after : List ℕ)
    → close_lines line ms after ≡ first_lines line ms ++ (last_line line ms ++ after) ∷ []
close-lines line [] after = refl
close-lines line (m ∷ ms) after = ap (line ∷◌) (close-lines m ms after)

-- The middle lines one by one, as yanking inserts them.
pub splice-here {ℓ} :
    {A : Type ℓ} (front : List A) (n : ℕ) (x : A) (back : List A)
    → length front ≡ n
    → splice (front ++ back) n 0 (x ∷ []) ≡ front ++ x ∷ back
splice-here front n x back size =
    let at_end : n + 0 ≡ length front = omega (arith, size) in
    ap (λ k. take k (front ++ back) ++ x ∷ drop (n + 0) (front ++ back)) (sym size)
    ∙ ap (λ xs. xs ++ x ∷ drop (n + 0) (front ++ back)) (take-append front back)
    ∙ ap (λ k. front ++ x ∷ drop k (front ++ back)) at_end
    ∙ ap (λ xs. front ++ x ∷ xs) (drop-append front back)

splice_lines-at :
    (row i : ℕ) (line : List ℕ) (ms : List (List ℕ)) (after : List ℕ) (front back : List (List ℕ))
    → length front ≡ row + i
    → splice_lines row i line ms after (front ++ back)
      ≡ front ++ (close_lines line ms after ++ back)
splice_lines-at row i line [] after front back size =
    splice-here front (row + i) (line ++ after) back size
splice_lines-at row i line (m ∷ ms) after front back size =
    ap (splice_lines row (suc i) m ms after)
      (splice-here front (row + i) line back size ∙ sym (append_assoc front (line ∷ []) back))
    ∙ splice_lines-at row (suc i) m ms after (front ++ line ∷ []) back
        (omega (arith, size, length-append front (line ∷ [])))
    ∙ append_assoc front (line ∷ []) (close_lines m ms after ++ back)

-- Where inserted lines end.
abbrev pub spread : Zipper → List ℕ → List ℕ → List (List ℕ) → Zipper
spread z line m ms = record z {
  above = z.above ++ (z.left ++ line) ∷ first_lines m ms;
  left = last_line m ms;
}

spread-lines :
    (z : Zipper) (line m : List ℕ) (ms : List (List ℕ))
    → z.above ++ (z.left ++ line) ∷ (close_lines m ms (z.right) ++ z.below)
      ≡ (at (spread z line m ms)).lines
spread-lines z line m ms =
    ap (λ xs. z.above ++ (z.left ++ line) ∷ (xs ++ z.below)) (close-lines m ms (z.right))
    ∙ ap (λ xs. z.above ++ (z.left ++ line) ∷ xs)
        (append_assoc (first_lines m ms) ((last_line m ms ++ z.right) ∷ []) (z.below))
    ∙ sym (
        append_assoc (z.above) ((z.left ++ line) ∷ first_lines m ms)
          ((last_line m ms ++ z.right) ∷ z.below))

row-spread :
    (z : Zipper) (line m : List ℕ) (ms : List (List ℕ))
    → length (z.above) + length (m ∷ ms) ≡ length ((spread z line m ms).above)
row-spread z line m ms =
    omega (arith, length-append (z.above) ((z.left ++ line) ∷ first_lines m ms), length-first m ms)

pub insert_lines-spread :
    (z : Zipper) (line m : List ℕ) (ms : List (List ℕ))
    → insert_lines (line ∷ m ∷ ms) (at z) ≡ at (spread z line m ms)
unfolding insert_lines
insert_lines-spread z line m ms = λ i. record {
  lines =
      ((λ j.
            take-append (z.above) ((z.left ++ z.right) ∷ z.below) j
            ++ (before_cursor-at z j ++ line)
              ∷ (close_lines m ms (after_cursor-at z j)
                  ++ drop_past (z.above) (z.left ++ z.right) (z.below) j))
          ∙ spread-lines z line m ms)
        i;
  cursor_line = row-spread z line m ms i;
  cursor_col = length (last_line m ms);
}

pub insert_yanked_lines-spread :
    (z : Zipper) (line m : List ℕ) (ms : List (List ℕ))
    → insert_yanked_lines (line ∷ m ∷ ms) (at z) ≡ at (spread z line m ms)
unfolding insert_yanked_lines
insert_yanked_lines-spread z line m ms = λ i. record {
  lines =
      ((λ j.
            splice_lines (length (z.above)) 1 m ms (after_cursor-at z j)
              (set ((at z).lines) (length (z.above)) (before_cursor-at z j ++ line)))
          ∙ ap (splice_lines (length (z.above)) 1 m ms (z.right)) (
              set-append_cons (z.above) (z.left ++ z.right) (z.left ++ line) (z.below)
              ∙ sym (append_assoc (z.above) ((z.left ++ line) ∷ []) (z.below)))
          ∙ splice_lines-at (length (z.above)) 1 m ms (z.right) (z.above ++ (z.left ++ line) ∷ [])
              (z.below) (omega (arith, length-append (z.above) ((z.left ++ line) ∷ [])))
          ∙ append_assoc (z.above) ((z.left ++ line) ∷ []) (close_lines m ms (z.right) ++ z.below)
          ∙ spread-lines z line m ms)
        i;
  cursor_line = row-spread z line m ms i;
  cursor_col = length (last_line m ms);
}

pub spread-text :
    (z : Zipper) (line m : List ℕ) (ms : List (List ℕ))
    → text_of (spread z line m ms) ≡ put (join_lines (line ∷ m ∷ ms)) (text_of z)
unfolding join_lines
spread-text z line m ms = λ i. record {
  before =
      (ap join_lines
            (append_assoc (z.above) ((z.left ++ line) ∷ first_lines m ms) (last_line m ms ∷ []))
          ∙ ap (λ xs. join_lines (z.above ++ (z.left ++ line) ∷ xs)) (first-last m ms)
          ∙ join_lines-glue (z.above) (z.left) line (m ∷ ms))
        i;
  after = (text_of z).after;
}

pub spread-IsPlain :
    (z : Zipper) (line m : List ℕ) (ms : List (List ℕ))
    → IsPlain z
    → every is_line (line ∷ m ∷ ms) ≡ true
    → IsPlain (spread z line m ms)
spread-IsPlain z line m ms plain h =
    let (here, later) = and-split (is_line line) (every is_line (m ∷ ms)) h in
    let (front, last, _) =
      every-cons is_line (first_lines m ms) (last_line m ms) []
        (ap (every is_line) (first-last m ms) ∙ later) in
    let joined : is_line (z.left ++ line) ≡ true =
      every-append (λ c. not (c == 0x0a)) (z.left) line ∙ cc (plain.left_plain, here) in
    record {
      above_plain =
          every-append is_line (z.above) ((z.left ++ line) ∷ first_lines m ms)
          ∙ cc (plain.above_plain, joined, front);
      left_plain = last;
      right_plain = plain.right_plain;
      below_plain = plain.below_plain;
    }
