-- ===== src/Base/TextLines.antt =====
-- Splitting a text into its lines and joining them, as `split("\n")` and `join("\n")` do. A text is the
-- list of its units.
use Prim.Native.Nat.{ℕ}
use mathlib.Core.Path.{◌≡◌, refl, ap, sym, subst, ◌∙◌}
use mathlib.Core.List.{List, [], ◌∷◌, ◌++◌, append_assoc}
use native.Mathlib.Omega.{arith}
use co_mono.Base.Tests.{◌==◌, if◌then◌else◌, if-both}

abbrev pub cons_first : ℕ → List (List ℕ) → List (List ℕ)
cons_first c [] = (c ∷ []) ∷ []
cons_first c (l ∷ ls) = (c ∷ l) ∷ ls

-- `content.split("\n")`
unfoldable pub split_lines : List ℕ → List (List ℕ)
split_lines [] = [] ∷ []
split_lines (c ∷ cs) =
    let rest = split_lines cs in if c == 0x0a then [] ∷ rest else cons_first c rest

-- `lines.join("\n")`
unfoldable pub join_lines : List (List ℕ) → List ℕ
join_lines [] = []
join_lines (l ∷ []) = l
join_lines (l ∷ m ∷ ls) = l ++ 0x0a ∷ join_lines (m ∷ ls)

join_lines-cons_first :
    (c : ℕ) (ls : List (List ℕ)) → join_lines (cons_first c ls) ≡ c ∷ join_lines ls
unfolding join_lines
join_lines-cons_first c [] = refl
join_lines-cons_first c (l ∷ []) = refl
join_lines-cons_first c (l ∷ m ∷ ls) = refl

-- There is always a line.
pub split_lines-cons : (s : List ℕ) → (l : List ℕ) × (ls : List (List ℕ)) × (split_lines s ≡ l ∷ ls)
unfolding split_lines
split_lines-cons [] = ([], [], refl)
split_lines-cons (c ∷ cs) =
    let (l, ls, lines) = split_lines-cons cs in
    if-both (λ ms. (k : List ℕ) × (ks : List (List ℕ)) × (ms ≡ k ∷ ks)) (c == 0x0a)
      (λ _. ([], split_lines cs, refl)) (λ _. (c ∷ l, ls, ap (cons_first c) lines))

-- Joining the lines of a text gives the text.
pub join_lines-split_lines : (s : List ℕ) → join_lines (split_lines s) ≡ s
unfolding join_lines split_lines
join_lines-split_lines [] = refl
join_lines-split_lines (c ∷ cs) =
    let rest = split_lines cs in
    let (l, ls, lines) = split_lines-cons cs in
    if-both (λ ms. join_lines ms ≡ c ∷ cs) (c == 0x0a)
      (λ newline.
        subst (λ ms. join_lines ([] ∷ ms) ≡ 0x0a ∷ join_lines ms) (sym lines) refl
        ∙ ap (0x0a ∷◌) (join_lines-split_lines cs)
        ∙ ap (λ d. d ∷ cs) (sym (ground (arith, newline))))
      (λ _. join_lines-cons_first c rest ∙ ap (c ∷◌) (join_lines-split_lines cs))

-- Text behind the start of a line, which may go on over more lines.
pub join_lines-glue :
    (above : List (List ℕ)) (left right : List ℕ) (below : List (List ℕ))
    → join_lines (above ++ (left ++ right) ∷ below)
      ≡ join_lines (above ++ left ∷ []) ++ join_lines (right ∷ below)
unfolding join_lines
join_lines-glue [] left right [] = refl
join_lines-glue [] left right (m ∷ ms) = append_assoc left right (0x0a ∷ join_lines (m ∷ ms))
join_lines-glue (a ∷ []) left right below =
    ap (λ s. a ++ 0x0a ∷ s) (join_lines-glue [] left right below)
    ∙ sym (append_assoc a (0x0a ∷ left) (join_lines (right ∷ below)))
join_lines-glue (a ∷ b ∷ above) left right below =
    ap (λ s. a ++ 0x0a ∷ s) (join_lines-glue (b ∷ above) left right below)
    ∙ sym (append_assoc a (0x0a ∷ join_lines (b ∷ above ++ left ∷ [])) (join_lines (right ∷ below)))
