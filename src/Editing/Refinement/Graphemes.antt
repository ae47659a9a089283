-- ===== src/Editing/Refinement/Graphemes.antt =====
-- How far the graphemes and the words of a text reach.
use co_mono.Base.{
  ℕ, ◌+◌, ◌-◌, ◌≤◌, ◌<◌, ◌≡◌, ◌∙◌, refl, ap, subst, Bool, true, false, List, [], ◌∷◌, ◌++◌, length,
  length-append, last?, reverse, if◌then◌else◌, if-both, arith,
}
use co_mono.Editing.Editor.{Segmenter, is_whitespace_char}
use co_mono.Editing.Editor.Graphemes.{grapheme_length, first?}
use co_mono.Editing.Editor.Words.{
  skip_back, skip_forward, run_back, run_forward, run_of, word_start, word_end,
}
use co_mono.Editing.Reference.{last_size, first_size, word_left_size, word_right_size}

abbrev concat : List (List ℕ) → List ℕ
concat [] = []
concat (g ∷ gs) = g ++ concat gs

-- The segments of a text are the text, as `Intl.Segmenter` promises.
unfoldable pub IsSegmenter : Segmenter → Type 0
IsSegmenter segmenter = (text : List ℕ) → concat (segmenter.segment text) ≡ text

last-fits :
    (g : List ℕ) (gs : List (List ℕ)) → grapheme_length (last? (g ∷ gs)) ≤ length (concat (g ∷ gs))
last-fits g [] = omega (arith, length-append g [])
last-fits g (f ∷ gs) = omega (arith, last-fits f gs, length-append g (concat (f ∷ gs)))

last_of-fits :
    (gs : List (List ℕ)) (text : List ℕ)
    → concat gs ≡ text
    → 0 < length text
    → grapheme_length (last? gs) ≤ length text
last_of-fits [] text parts h = absurd (omega (arith, h, ap length parts))
last_of-fits (g ∷ gs) text parts h =
    subst (λ t. grapheme_length (last? (g ∷ gs)) ≤ length t) parts (last-fits g gs)

first_of-fits :
    (gs : List (List ℕ)) (text : List ℕ)
    → concat gs ≡ text
    → 0 < length text
    → grapheme_length (first? gs) ≤ length text
first_of-fits [] text parts h = absurd (omega (arith, h, ap length parts))
first_of-fits (g ∷ gs) text parts h = omega (arith, ap length parts, length-append g (concat gs))

skip_back-le : (p : List ℕ → Bool) (col : ℕ) (gs : List (List ℕ)) → (skip_back p col gs).0 ≤ col
skip_back-le p col [] = omega arith
skip_back-le p col (g ∷ gs) =
    if-both (λ (r : ℕ × List (List ℕ)). r.0 ≤ col) (p g)
      (λ _. omega (arith, skip_back-le p (col - length g) gs)) (λ _. omega arith)

run_back-le : (w : ℕ × List (List ℕ)) → run_back w ≤ w.0
run_back-le (col, []) = omega arith
run_back-le (col, g ∷ gs) = skip_back-le (run_of g) col (g ∷ gs)

abbrev shifted : ℕ → ℕ × List (List ℕ) → ℕ × List (List ℕ)
shifted c (col, gs) = (c + col, gs)

shifted-if :
    (c : ℕ) (b : Bool) (v w : ℕ × List (List ℕ))
    → (if b then shifted c v else shifted c w) ≡ shifted c (if b then v else w)
shifted-if c true v w = refl
shifted-if c false v w = refl

skip_forward-add :
    (p : List ℕ → Bool) (c col : ℕ) (gs : List (List ℕ))
    → skip_forward p (c + col) gs ≡ shifted c (skip_forward p col gs)
skip_forward-add p c col [] = refl
skip_forward-add p c col (g ∷ gs) =
    let assoc : (c + col) + length g ≡ c + (col + length g) = omega arith in
    ap (λ r. if p g then r else (c + col, g ∷ gs))
      (ap (λ n. skip_forward p n gs) assoc ∙ skip_forward-add p c (col + length g) gs)
    ∙ shifted-if c (p g) (skip_forward p (col + length g) gs) (col, g ∷ gs)

skip_forward-total :
    (p : List ℕ → Bool) (col : ℕ) (gs : List (List ℕ))
    → (skip_forward p col gs).0 + length (concat ((skip_forward p col gs).1))
      ≡ col + length (concat gs)
skip_forward-total p col [] = refl
skip_forward-total p col (g ∷ gs) =
    if-both (λ (r : ℕ × List (List ℕ)). r.0 + length (concat (r.1)) ≡ col + length (g ++ concat gs))
      (p g)
      (λ _. omega (arith, skip_forward-total p (col + length g) gs, length-append g (concat gs)))
      (λ _. refl)

run_forward-add : (c : ℕ) (w : ℕ × List (List ℕ)) → run_forward (shifted c w) ≡ c + run_forward w
run_forward-add c (col, []) = refl
run_forward-add c (col, g ∷ gs) =
    ap (λ (r : ℕ × List (List ℕ)). r.0) (skip_forward-add (run_of g) c col (g ∷ gs))

run_forward-le : (w : ℕ × List (List ℕ)) → run_forward w ≤ w.0 + length (concat (w.1))
run_forward-le (col, []) = omega arith
run_forward-le (col, g ∷ gs) = omega (arith, skip_forward-total (run_of g) col (g ∷ gs))

module _ (segmenter : Segmenter) where
  pub last_size-le :
      (text : List ℕ)
      → IsSegmenter segmenter
      → 0 < length text
      → last_size segmenter text ≤ length text
  unfolding IsSegmenter
  last_size-le text law h = last_of-fits (segmenter.segment text) text (law text) h

  pub first_size-le :
      (text : List ℕ)
      → IsSegmenter segmenter
      → 0 < length text
      → first_size segmenter text ≤ length text
  unfolding IsSegmenter
  first_size-le text law h = first_of-fits (segmenter.segment text) text (law text) h

  word_start-le : (col : ℕ) (text : List ℕ) → word_start segmenter col text ≤ col
  word_start-le col text =
      let w = skip_back is_whitespace_char col (reverse (segmenter.segment text)) in
      omega (
        arith,
        run_back-le w,
        skip_back-le is_whitespace_char col (reverse (segmenter.segment text)),
      )

  pub word_left_size-le : (text : List ℕ) → word_left_size segmenter text ≤ length text
  word_left_size-le text = omega arith

  pub word_start-size :
      (text : List ℕ)
      → word_start segmenter (length text) text ≡ length text - word_left_size segmenter text
  word_start-size text = omega (arith, word_start-le (length text) text)

  pub word_right_size-le :
      (text : List ℕ) → IsSegmenter segmenter → word_right_size segmenter text ≤ length text
  unfolding IsSegmenter
  word_right_size-le text law =
      let w = skip_forward is_whitespace_char 0 (segmenter.segment text) in
      omega (
        arith,
        run_forward-le w,
        skip_forward-total is_whitespace_char 0 (segmenter.segment text),
        ap length (law text),
      )

  pub word_end-size :
      (col : ℕ) (text : List ℕ) → word_end segmenter col text ≡ col + word_right_size segmenter text
  word_end-size col text =
      let zero_more : col ≡ col + 0 = omega arith in
      ap (λ n. word_end segmenter n text) zero_more
      ∙ ap run_forward (skip_forward-add is_whitespace_char col 0 (segmenter.segment text))
      ∙ run_forward-add col (skip_forward is_whitespace_char 0 (segmenter.segment text))
