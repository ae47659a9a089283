-- ===== src/Editing/Refinement/Branches.antt =====
-- The branches of the editor's commands: on the cursor's line, at the end of that line, at the end of the
-- text.
use co_mono.Base.{
  last-cases, ℕ, suc, ◌<◌, ◌≡◌, ◌∙◌, refl, sym, ap, subst, inl, inr, Bool, true, false, not, List,
  [], ◌∷◌, ◌++◌, ◌==◌, ltb, leb, if◌then◌else◌, if-both, if-true, if-false, length, length-append,
  join_lines, arith,
}
use co_mono.Editing.Reference.{row, column, reach}
use co_mono.Editing.Refinement.Zipper.{Zipper, IsPlain, at, current_line-at}
use co_mono.Editing.Editor.{current_line}
use co_mono.Editing.Refinement.Text.{
  text_of, stem, tail, before-stem, after-tail, stem-one_more, column-before, row-after,
}

nil-length {ℓ} : {A : Type ℓ} (xs : List A) → ltb 0 (length xs) ≡ false → xs ≡ []
nil-length [] h = refl
nil-length (x ∷ xs) h = absurd (ground (arith, h))

if-flip {ℓ} :
    {A : Type ℓ} (a b : Bool) (x y : A) → a ≡ not b → (if a then x else y) ≡ (if b then y else x)
if-flip true true x y h = absurd (cc (h))
if-flip true false x y h = refl
if-flip false true x y h = refl
if-flip false false x y h = absurd (cc (h))

module _ {ℓ} {B : Type ℓ} (z : Zipper) (plain : IsPlain z) (size : List ℕ → ℕ) (some_more : ℕ → B)
    (no_more : B) where
  -- What the reference does back and forward from the cursor.
  abbrev reference_back : B
  reference_back =
      let before = (text_of z).before in
      if length before == 0 then no_more else some_more (reach size (column before))

  abbrev reference_forward : B
  reference_forward =
      let after = (text_of z).after in
      if length after == 0 then no_more else some_more (reach size (row after))

  back-inside : 0 < length (z.left) → reference_back ≡ some_more (size (z.left))
  back-inside h =
      if-false (length ((text_of z).before) == 0) no_more
        (some_more (reach size (column ((text_of z).before))))
        (ground (arith, before-stem (z.above) (z.left), length-append (stem (z.above)) (z.left)))
      ∙ ap (λ l. some_more (reach size l)) (column-before z plain)
      ∙ ap some_more (if-false (length (z.left) == 0) 1 (size (z.left)) (ground (arith, h)))

  forward-inside : 0 < length (z.right) → reference_forward ≡ some_more (size (z.right))
  forward-inside h =
      if-false (length ((text_of z).after) == 0) no_more
        (some_more (reach size (row ((text_of z).after))))
        (ground (arith, after-tail (z.right) (z.below), length-append (z.right) (tail (z.below))))
      ∙ ap (λ l. some_more (reach size l)) (row-after z plain)
      ∙ ap some_more (if-false (length (z.right) == 0) 1 (size (z.right)) (ground (arith, h)))

  back-line_start :
      (ls : List (List ℕ)) (l : List ℕ)
      → z.above ≡ ls ++ l ∷ []
      → z.left ≡ []
      → reference_back ≡ some_more 1
  back-line_start ls l above left =
      let text : (text_of z).before ≡ join_lines (ls ++ l ∷ []) ++ 0x0a ∷ [] =
        ap (λ c. join_lines (z.above ++ c ∷ [])) left ∙ ap stem above ∙ stem-one_more ls l in
      if-false (length ((text_of z).before) == 0) no_more
        (some_more (reach size (column ((text_of z).before))))
        (ap (λ b. length b == 0) text
          ∙ ground (arith, length-append (join_lines (ls ++ l ∷ [])) (0x0a ∷ [])))
      ∙ ap (λ c. some_more (reach size c)) (column-before z plain ∙ left)

  back-text_start : z.above ≡ [] → z.left ≡ [] → reference_back ≡ no_more
  unfolding join_lines
  back-text_start above left =
      if-true (length ((text_of z).before) == 0) no_more
        (some_more (reach size (column ((text_of z).before))))
        (ap (λ b. length b == 0) (ap (λ c. join_lines (z.above ++ c ∷ [])) left ∙ ap stem above))

  forward-line_end :
      (l : List ℕ) (ls : List (List ℕ))
      → z.below ≡ l ∷ ls
      → z.right ≡ []
      → reference_forward ≡ some_more 1
  unfolding join_lines
  forward-line_end l ls below right =
      if-false (length ((text_of z).after) == 0) no_more
        (some_more (reach size (row ((text_of z).after))))
        (ap (λ b. length b == 0)
            (ap (λ c. join_lines (c ∷ z.below)) right ∙ ap (λ ms. join_lines ([] ∷ ms)) below)
          ∙ ground (arith))
      ∙ ap (λ c. some_more (reach size c)) (row-after z plain ∙ right)

  forward-text_end : z.below ≡ [] → z.right ≡ [] → reference_forward ≡ no_more
  unfolding join_lines
  forward-text_end below right =
      if-true (length ((text_of z).after) == 0) no_more
        (some_more (reach size (row ((text_of z).after))))
        (ap (λ b. length b == 0)
          (ap (λ c. join_lines (c ∷ z.below)) right ∙ ap (λ ms. join_lines ([] ∷ ms)) below))

  -- A command that looks back from the cursor agrees with the reference when it does in each place.
  pub back-branches {ℓ₁ ℓ₂} :
      {A : Type ℓ₁} (R : A → B → Type ℓ₂) {x y w : A}
      → (0 < length (z.left) → R x (some_more (size (z.left))))
      → ((ls : List (List ℕ)) (l : List ℕ)
          → z.above ≡ ls ++ l ∷ []
          → z.left ≡ []
          → R y (some_more 1))
      → (z.above ≡ [] → z.left ≡ [] → R w no_more)
      → R
          (if ltb 0 (length (z.left)) then x else if ltb 0 (length (z.above)) then y else w)
          reference_back
  back-branches R {x} {y} {w} inside line_start text_start =
      if-both (λ v. R v reference_back) (ltb 0 (length (z.left)))
        (λ some.
          let h : 0 < length (z.left) = ground (arith, some) in
          subst (R x) (sym (back-inside h)) (inside h))
        (λ none_left.
          let left = nil-length (z.left) none_left in
          if-both (λ v. R v reference_back) (ltb 0 (length (z.above)))
            (λ rows. elim (last-cases (z.above)) [
              | inl empty ↦ absurd (cc (rows, ap (λ ls. ltb 0 (length ls)) empty))
              | inr (ls, l, above) ↦
                  subst (R y) (sym (back-line_start ls l above left)) (line_start ls l above left)
            ])
            (λ no_rows.
              let above = nil-length (z.above) no_rows in
              subst (R w) (sym (back-text_start above left)) (text_start above left)))

  forward-branches {ℓ₁ ℓ₂} :
      {A : Type ℓ₁} (R : A → B → Type ℓ₂) {x y w : A}
      → (0 < length (z.right) → R x (some_more (size (z.right))))
      → ((l : List ℕ) (ls : List (List ℕ)) → z.below ≡ l ∷ ls → z.right ≡ [] → R y (some_more 1))
      → (z.below ≡ [] → z.right ≡ [] → R w no_more)
      → R
          (if ltb 0 (length (z.right)) then x else if ltb 0 (length (z.below)) then y else w)
          reference_forward
  forward-branches R {x} {y} {w} inside line_end text_end =
      if-both (λ v. R v reference_forward) (ltb 0 (length (z.right)))
        (λ some.
          let h : 0 < length (z.right) = ground (arith, some) in
          subst (R x) (sym (forward-inside h)) (inside h))
        (λ none_right.
          let right = nil-length (z.right) none_right in
          if-both (λ v. R v reference_forward) (ltb 0 (length (z.below)))
            (λ rows. below_cases (z.below) refl rows right line_end)
            (λ no_rows.
              let below = nil-length (z.below) no_rows in
              subst (R w) (sym (forward-text_end below right)) (text_end below right)))
    where
      below_cases :
          (ms : List (List ℕ))
          → z.below ≡ ms
          → ltb 0 (length (z.below)) ≡ true
          → z.right ≡ []
          → ((l : List ℕ) (ls : List (List ℕ))
              → z.below ≡ l ∷ ls
              → z.right ≡ []
              → R y (some_more 1))
          → R y reference_forward
      below_cases [] below rows right k = absurd (cc (rows, ap (λ ls. ltb 0 (length ls)) below))
      below_cases (l ∷ ls) below rows right k =
          subst (R y) (sym (forward-line_end l ls below right)) (k l ls below right)

  -- The tests of the code, in the order of their branches or the other way round.
  pub back-branches_flipped {ℓ₁ ℓ₂} :
      {A : Type ℓ₁} (R : A → B → Type ℓ₂) {x y w : A}
      → (0 < length (z.left) → R x (some_more (size (z.left))))
      → ((ls : List (List ℕ)) (l : List ℕ)
          → z.above ≡ ls ++ l ∷ []
          → z.left ≡ []
          → R y (some_more 1))
      → (z.above ≡ [] → z.left ≡ [] → R w no_more)
      → R
          (if length (z.left) == 0 then if ltb 0 (length (z.above)) then y else w else x)
          reference_back
  back-branches_flipped R {x} {y} {w} inside line_start text_start =
      let rows = if ltb 0 (length (z.above)) then y else w in
      subst (λ v. R v reference_back)
        (if-flip (ltb 0 (length (z.left))) (length (z.left) == 0) x rows (ground arith))
        (back-branches R inside line_start text_start)

  abbrev at_line_end : Bool
  at_line_end = leb (length (current_line (at z))) (length (z.left))

  abbrev is_inside : Bool
  is_inside = ltb (length (z.left)) (length (current_line (at z)))

  abbrev has_next : Bool
  has_next = ltb (suc (length (z.above))) (length ((at z).lines))

  inside-test : is_inside ≡ ltb 0 (length (z.right))
  inside-test = ground (arith, ap length (current_line-at z), length-append (z.left) (z.right))

  next-test : has_next ≡ ltb 0 (length (z.below))
  next-test = ground (arith, length-append (z.above) ((z.left ++ z.right) ∷ z.below))

  pub forward-tests {ℓ₁ ℓ₂} :
      {A : Type ℓ₁} (R : A → B → Type ℓ₂) {x y w : A}
      → (0 < length (z.right) → R x (some_more (size (z.right))))
      → ((l : List ℕ) (ls : List (List ℕ)) → z.below ≡ l ∷ ls → z.right ≡ [] → R y (some_more 1))
      → (z.below ≡ [] → z.right ≡ [] → R w no_more)
      → R (if is_inside then x else if has_next then y else w) reference_forward
  forward-tests R {x} {y} {w} inside line_end text_end =
      subst (λ a. R (if a then x else if has_next then y else w) reference_forward)
        (sym inside-test)
        (subst
          (λ b. R (if ltb 0 (length (z.right)) then x else if b then y else w) reference_forward)
          (sym next-test) (forward-branches R inside line_end text_end))

  pub forward-tests_flipped {ℓ₁ ℓ₂} :
      {A : Type ℓ₁} (R : A → B → Type ℓ₂) {x y w : A}
      → (0 < length (z.right) → R x (some_more (size (z.right))))
      → ((l : List ℕ) (ls : List (List ℕ)) → z.below ≡ l ∷ ls → z.right ≡ [] → R y (some_more 1))
      → (z.below ≡ [] → z.right ≡ [] → R w no_more)
      → R (if at_line_end then if has_next then y else w else x) reference_forward
  forward-tests_flipped R {x} {y} {w} inside line_end text_end =
      subst (λ v. R v reference_forward)
        (if-flip is_inside at_line_end x (if has_next then y else w) (ground arith))
        (forward-tests R inside line_end text_end)
