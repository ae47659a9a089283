-- ===== src/Stdin/Extract/Steps.antt =====
-- One round of the loops of `extractCompleteSequences` (packages/tui/src/stdin-buffer.ts): where a
-- sequence ends, and that the text behind it does not matter.
use co_mono.Base.{
  ℕ, zero, suc, ◌+◌, ◌≤◌, ◌<◌, ◌≡◌, refl, ap, none, some, List, [], ◌∷◌, ◌++◌, ◌==◌, length, take,
  drop, Bool-cases, Option-cases, inl, inr, arith, length-append, length-drop, take-append_le,
  take-take_le, length-take,
}
use co_mono.Stdin.Sequence.{esc, is_complete_sequence}
use co_mono.Stdin.Extract.{
  is_incomplete, find_end, next_end, extract_from, extract_complete_sequences, push,
}

find_end-bounds :
    (rounds k : ℕ) (xs : List ℕ) (n : ℕ)
    → find_end rounds k xs ≡ some n
    → (k ≤ n) × (n < k + rounds)
unfolding find_end
find_end-bounds zero k xs n h = absurd (cc)
find_end-bounds (suc rounds) k xs n h =
    elim (Bool-cases (is_incomplete (is_complete_sequence (take k xs)))) [
      | inl more ↦
          let (low, high) = find_end-bounds rounds (suc k) xs n (rw (more, find_end) at h) in
          (omega arith, omega arith)
      | inr stop ↦ let e : some k ≡ some n = rw (stop, find_end) at h in ground arith
    ]

pub next_end-bounds : (xs : List ℕ) (n : ℕ) → next_end xs ≡ some n → (1 ≤ n) × (n ≤ length xs)
unfolding next_end
next_end-bounds [] n h = absurd (cc)
next_end-bounds (c ∷ cs) n h = ground (arith, find_end-bounds (suc (length cs)) 1 (c ∷ cs) n)

find_end-append :
    (rounds more k : ℕ) (xs ys : List ℕ) (n : ℕ)
    → rounds ≤ more
    → k + rounds ≤ suc (length xs)
    → find_end rounds k xs ≡ some n
    → find_end more k (xs ++ ys) ≡ some n
unfolding find_end
find_end-append zero more k xs ys n le fits h = absurd (cc)
find_end-append (suc rounds) zero k xs ys n le fits h = absurd (omega arith)
find_end-append (suc rounds) (suc more) k xs ys n le fits h =
    rw (take-append_le k xs ys (omega arith), find_end)
      (elim (Bool-cases (is_incomplete (is_complete_sequence (take k xs)))) [
        | inl again ↦ rw again (
            find_end-append rounds more (suc k) xs ys n (omega arith) (omega arith)
              (rw (again, find_end) at h))
        | inr stop ↦ rw stop (rw (stop, find_end) at h)
      ])

-- The end of a sequence does not depend on the text behind it.
pub next_end-append : (xs ys : List ℕ) (n : ℕ) → next_end xs ≡ some n → next_end (xs ++ ys) ≡ some n
unfolding next_end
next_end-append [] ys n h = absurd (cc)
next_end-append (c ∷ cs) ys n h = elim (Bool-cases (c == esc)) [
  | inl is_esc ↦ rw is_esc (
      find_end-append (suc (length cs)) (suc (length (cs ++ ys))) 1 (c ∷ cs) ys n
        (omega (arith, length-append cs ys)) (omega arith) (rw is_esc at h))
  | inr other ↦ rw other (rw other at h)
]

-- More fuel than the length of the text changes nothing.
extract_from-fuel :
    (f g : ℕ) (xs : List ℕ) → length xs ≤ f → length xs ≤ g → extract_from f xs ≡ extract_from g xs
unfolding extract_from
extract_from-fuel f g [] hf hg = refl
extract_from-fuel zero g (c ∷ cs) hf hg = absurd (omega arith)
extract_from-fuel (suc f) zero (c ∷ cs) hf hg = absurd (omega arith)
extract_from-fuel (suc f) (suc g) (c ∷ cs) hf hg = elim (Option-cases (next_end (c ∷ cs))) [
  | inl stop ↦ rw (stop, extract_from) refl
  | inr (n, cut) ↦
      let (low, high) = next_end-bounds (c ∷ cs) n cut in
      rw (cut, extract_from)
        (ap (push (take n (c ∷ cs))) (
          extract_from-fuel f g (drop n (c ∷ cs)) (omega (arith, length-drop n (c ∷ cs)))
            (omega (arith, length-drop n (c ∷ cs)))))
]

pub extract-stop :
    (c : ℕ) (cs : List ℕ)
    → next_end (c ∷ cs) ≡ none
    → extract_complete_sequences (c ∷ cs) ≡ some (record { sequences = []; remainder = c ∷ cs })
unfolding extract_complete_sequences extract_from
extract-stop c cs stop = rw (stop, extract_from)

pub extract-cut :
    (xs : List ℕ) (n : ℕ)
    → next_end xs ≡ some n
    → extract_complete_sequences xs ≡ push (take n xs) (extract_complete_sequences (drop n xs))
unfolding extract_complete_sequences extract_from
extract-cut [] n cut = let (low, high) = next_end-bounds [] n cut in absurd (omega arith)
extract-cut (c ∷ cs) n cut =
    let (low, high) = next_end-bounds (c ∷ cs) n cut in
    rw (cut, extract_from)
      (ap (push (take n (c ∷ cs))) (
        extract_from-fuel (length cs) (length (drop n (c ∷ cs))) (drop n (c ∷ cs))
          (omega (arith, length-drop n (c ∷ cs))) (omega arith)))

find_end-take :
    (rounds again k : ℕ) (xs : List ℕ) (n : ℕ)
    → find_end rounds k xs ≡ some n
    → n < k + again
    → find_end again k (take n xs) ≡ some n
unfolding find_end
find_end-take zero again k xs n h lt = absurd (cc)
find_end-take (suc rounds) zero k xs n h lt =
    let (low, high) = find_end-bounds (suc rounds) k xs n h in absurd (omega arith)
find_end-take (suc rounds) (suc again) k xs n h lt =
    let (low, high) = find_end-bounds (suc rounds) k xs n h in
    rw (take-take_le k n xs low, find_end)
      (elim (Bool-cases (is_incomplete (is_complete_sequence (take k xs)))) [
        | inl more ↦
            rw more
              (find_end-take rounds again (suc k) xs n (rw (more, find_end) at h) (omega arith))
        | inr stop ↦ rw stop (rw (stop, find_end) at h)
      ])

next_end-take-some : (xs : List ℕ) (n : ℕ) → next_end xs ≡ some n → next_end (take n xs) ≡ some n
unfolding next_end
next_end-take-some [] n cut = absurd (cc)
next_end-take-some (c ∷ cs) zero cut =
    let (low, high) = next_end-bounds (c ∷ cs) zero cut in absurd (omega arith)
next_end-take-some (c ∷ cs) (suc n) cut =
    let (low, high) = next_end-bounds (c ∷ cs) (suc n) cut in
    elim (Bool-cases (c == esc)) [
      | inl is_esc ↦ rw is_esc (
          find_end-take (suc (length cs)) (suc (length (take n cs))) 1 (c ∷ cs) (suc n)
            (rw is_esc at cut) (omega (arith, length-take n cs)))
      | inr other ↦ rw other (rw other at cut)
    ]

pub next_end-take :
    (xs : List ℕ) (n : ℕ) → next_end xs ≡ some n → next_end (take n xs) ≡ some (length (take n xs))
next_end-take xs n cut =
    let (low, high) = next_end-bounds xs n cut in
    let e : length (take n xs) ≡ n = omega (arith, length-take n xs) in
    rw e (next_end-take-some xs n cut)
