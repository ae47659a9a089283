-- ===== src/Stdin/Buffer/Occurrence.antt =====
-- What `indexOf` finds in a text, as class `StdinBuffer` uses it (packages/tui/src/stdin-buffer.ts).
use co_mono.Base.{
  ℕ, suc, ◌+◌, ◌≤◌, ◌≡◌, refl, ap, subst, true, some, List, [], ◌∷◌, ◌++◌, ◌==◌, length, take, drop,
  Bool-cases, Option-cases, inl, inr, arith, length-append, some_inj,
}
use co_mono.Stdin.Sequence.{starts_with}
use co_mono.Stdin.Buffer.{index_of}

starts_with-take : (xs p : List ℕ) → starts_with xs p ≡ true → xs ≡ p ++ drop (length p) xs
unfolding starts_with
starts_with-take xs [] h = refl
starts_with-take [] (c ∷ p) h = absurd (cc)
starts_with-take (x ∷ xs) (c ∷ p) h = elim (Bool-cases (x == c)) [
  | inl same ↦
      let e : x ≡ c = ground (arith, same) in
      let tail : starts_with xs p ≡ true = rw (same, starts_with) at h in
      cc (e, starts_with-take xs p tail)
  | inr other ↦ absurd (cc (rw (other, starts_with) at h))
]

abbrev Splits : List ℕ → List ℕ → ℕ → Type 0
Splits p xs i = xs ≡ take i xs ++ (p ++ drop (length p) (drop i xs))

-- An occurrence splits the text.
pub index_of-Splits : (p xs : List ℕ) (i : ℕ) → index_of p xs ≡ some i → Splits p xs i
unfolding index_of
index_of-Splits p [] i h = absurd (cc)
index_of-Splits p (x ∷ xs) i h = elim (Bool-cases (starts_with (x ∷ xs) p)) [
  | inl here ↦
      subst (Splits p (x ∷ xs)) (some_inj (rw (here, index_of) at h))
        (starts_with-take (x ∷ xs) p here)
  | inr later ↦ elim (Option-cases (index_of p xs)) [
    | inl missing ↦ absurd (cc (rw (later, missing, index_of) at h))
    | inr (j, found) ↦
        subst (Splits p (x ∷ xs)) (some_inj (rw (later, found, index_of) at h))
          (ap (x ∷◌) (index_of-Splits p xs j found))
  ]
]

pub index_of-bound : (p xs : List ℕ) (i : ℕ) → index_of p xs ≡ some i → i + length p ≤ length xs
unfolding index_of
index_of-bound p [] i h = absurd (cc)
index_of-bound p (x ∷ xs) i h = elim (Bool-cases (starts_with (x ∷ xs) p)) [
  | inl here ↦
      let e : 0 ≡ i = some_inj (rw (here, index_of) at h) in
      let l = ap length (starts_with-take (x ∷ xs) p here) in
      omega (arith, e, l, length-append p (drop (length p) (x ∷ xs)))
  | inr later ↦ elim (Option-cases (index_of p xs)) [
    | inl missing ↦ absurd (cc (rw (later, missing, index_of) at h))
    | inr (j, found) ↦
        let e : suc j ≡ i = some_inj (rw (later, found, index_of) at h) in
        omega (arith, e, index_of-bound p xs j found)
  ]
]
