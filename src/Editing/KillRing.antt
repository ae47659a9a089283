-- ===== src/Editing/KillRing.antt =====
-- Class `KillRing` (packages/tui/src/kill-ring.ts). The ring is its array, the most recent entry last; a
-- text is the list of its units.
use mathlib.Core.List.{reverse-cons, reverse-append, reverse-reverse}
use co_mono.Base.{
  ℕ, zero, suc, ◌≡◌, ◌∙◌, refl, sym, ap, ◌==◌, Bool, false, Option, some, List, [], ◌∷◌, ◌++◌,
  reverse, append-nil, append_assoc, length, length-reverse, length-append, last?, last?-append-one,
  ltb, if◌then◌else◌, if-both, arith,
}

-- `opts`; `accumulate` is false where it is left out.
pub record PushOptions : Type 0 where
  pub prepend : Bool
  pub accumulate : Bool

-- The ring in reverse, with the most recent entry first.
abbrev merge : List ℕ → PushOptions → List (List ℕ) → List (List ℕ)
merge text options [] = text ∷ []
merge text options (last ∷ older) =
    if options.accumulate
    then (if options.prepend then text ++ last else last ++ text) ∷ older
    else text ∷ last ∷ older

unfoldable pub push : List ℕ → PushOptions → List (List ℕ) → List (List ℕ)
push text options ring =
    if length text == 0 then ring else reverse (merge text options (reverse ring))

abbrev pub peek : List (List ℕ) → Option (List ℕ)
peek ring = last? ring

abbrev to_front : List (List ℕ) → List (List ℕ)
to_front [] = []
to_front (last ∷ older) = last ∷ reverse older

-- A ring of one entry stays as it is.
pub rotate : List (List ℕ) → List (List ℕ)
rotate ring = if ltb 1 (length ring) then to_front (reverse ring) else ring

-- Some rotations, as yank-pop makes them.
pub rotations : ℕ → List (List ℕ) → List (List ℕ)
unfolding rotate
rotations zero ring = ring
rotations (suc n) ring = rotations n (rotate ring)

to_front-append : (xs : List (List ℕ)) (x : List ℕ) → to_front (reverse (xs ++ x ∷ [])) ≡ x ∷ xs
to_front-append xs x = ap to_front (reverse-append xs (x ∷ [])) ∙ ap (x ∷◌) (reverse-reverse xs)

one_entry :
    (xs : List (List ℕ)) (x : List ℕ)
    → ltb 1 (length (xs ++ x ∷ [])) ≡ false
    → xs ++ x ∷ [] ≡ x ∷ xs
one_entry [] x h = refl
one_entry (y ∷ ys) x h = absurd (ground (arith, h, length-append ys (x ∷ [])))

rotate-append : (xs : List (List ℕ)) (x : List ℕ) → rotate (xs ++ x ∷ []) ≡ x ∷ xs
unfolding rotate
rotate-append xs x =
    if-both (λ ring. ring ≡ x ∷ xs) (ltb 1 (length (xs ++ x ∷ []))) (λ _. to_front-append xs x)
      (λ single. one_entry xs x single)

rotations-reverse :
    (xs rs : List (List ℕ)) → rotations (length rs) (xs ++ reverse rs) ≡ reverse rs ++ xs
unfolding rotations
rotations-reverse xs [] = append-nil xs
rotations-reverse xs (r ∷ rs) =
    let newest : xs ++ reverse (r ∷ rs) ≡ (xs ++ reverse rs) ++ r ∷ [] =
      ap (xs ++◌) (reverse-cons r rs) ∙ sym (append_assoc xs (reverse rs) (r ∷ [])) in
    ap (λ ring. rotations (length rs) (rotate ring)) newest
    ∙ ap (rotations (length rs)) (rotate-append (xs ++ reverse rs) r)
    ∙ rotations-reverse (r ∷ xs) rs
    ∙ sym (append_assoc (reverse rs) (r ∷ []) xs)
    ∙ ap (λ ys. ys ++ xs) (sym (reverse-cons r rs))

-- As many rotations as `ys` has entries bring these entries, in their order, in front of the others.
pub rotations-append : (xs ys : List (List ℕ)) → rotations (length ys) (xs ++ ys) ≡ ys ++ xs
rotations-append xs ys =
    ap (λ n. rotations n (xs ++ ys)) (sym (length-reverse ys))
    ∙ ap (λ zs. rotations (length (reverse ys)) (xs ++ zs)) (sym (reverse-reverse ys))
    ∙ rotations-reverse xs (reverse ys)
    ∙ ap (λ zs. zs ++ xs) (reverse-reverse ys)

-- A text that does not go with the last entry is the most recent entry.
merge-apart :
    (text : List ℕ) (prepend : Bool) (ring : List (List ℕ))
    → merge text (record { prepend = prepend; accumulate = false }) ring ≡ text ∷ ring
merge-apart text prepend [] = refl
merge-apart text prepend (last ∷ older) = refl

pub peek-push :
    (text : List ℕ) (prepend : Bool) (ring : List (List ℕ))
    → length text == 0 ≡ false
    → peek (push text (record { prepend = prepend; accumulate = false }) ring) ≡ some text
unfolding push
peek-push text prepend ring some_text =
    if-both (λ entries. peek entries ≡ some text) (length text == 0)
      (λ empty. absurd (cc (empty, some_text)))
      (λ _.
        ap (λ entries. peek (reverse entries)) (merge-apart text prepend (reverse ring))
        ∙ ap peek (reverse-cons text (reverse ring))
        ∙ last?-append-one (reverse (reverse ring)) text)
