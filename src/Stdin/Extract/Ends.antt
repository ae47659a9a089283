-- ===== src/Stdin/Extract/Ends.antt =====
-- Where a sequence ends, in terms of the completeness of prefixes alone
-- (packages/tui/src/stdin-buffer.ts).
use co_mono.Base.{
  ℕ, zero, suc, ◌+◌, ◌≤◌, ◌<◌, ◌≡◌, ◌≢◌, refl, ap, subst, ◌⊎◌, inl, inr, true, false, none, some,
  some_inj, List, [], ◌∷◌, ◌==◌, length, take, Bool-cases, arith,
}
use co_mono.Stdin.Sequence.{Status, complete, incomplete, not_escape, esc, is_complete_sequence}
use co_mono.Stdin.Extract.{is_incomplete, find_end, next_end}

-- A unit that is no escape.
abbrev pub IsTyped : List ℕ → Type 0
IsTyped s = (c : ℕ) × (s ≡ c ∷ []) × (c ≢ esc)

abbrev pub StartsAtEscape : List ℕ → Type 0
StartsAtEscape s = (cs : List ℕ) × (s ≡ esc ∷ cs)

-- No prefix of one unit or more, up to `bound` units, is complete.
abbrev pub AreIncomplete : (bound : ℕ) → List ℕ → Type 0
AreIncomplete bound s = (k : ℕ) → 1 ≤ k → k < bound → is_complete_sequence (take k s) ≡ incomplete

abbrev pub IsEscape : List ℕ → Type 0
IsEscape s = StartsAtEscape s × (is_complete_sequence s ≢ incomplete) × AreIncomplete (length s) s

incomplete-true : (s : Status) → is_incomplete s ≡ true → s ≡ incomplete
incomplete-true incomplete h = refl
incomplete-true complete h = absurd (cc (h))
incomplete-true not_escape h = absurd (cc (h))

incomplete-false : (s : Status) → is_incomplete s ≡ false → s ≢ incomplete
incomplete-false s h e = cc (h, e)

take_whole : (xs : List ℕ) → take (length xs) xs ≡ xs
take_whole [] = refl
take_whole (x ∷ xs) = ap (x ∷◌) (take_whole xs)

empty : (cs : List ℕ) → length cs ≡ 0 → cs ≡ []
empty [] h = refl
empty (c ∷ cs) h = absurd (omega (arith, h))

from-suc : (P : ℕ → Type 0) (k j : ℕ) → P k → (suc k ≤ j → P j) → k ≤ j → P j
from-suc P k j here later low = elim (Bool-cases (k == j)) [
  | inl same ↦ let e : k ≡ j = ground (arith, same) in subst P e here
  | inr other ↦ later (ground (arith, other, low))
]

find_end-some :
    (rounds k : ℕ) (xs : List ℕ) (n : ℕ)
    → find_end rounds k xs ≡ some n
    → (is_complete_sequence (take n xs) ≢ incomplete)
      × ((j : ℕ) → k ≤ j → j < n → is_complete_sequence (take j xs) ≡ incomplete)
unfolding find_end
find_end-some zero k xs n h = absurd (cc)
find_end-some (suc rounds) k xs n h =
    elim (Bool-cases (is_incomplete (is_complete_sequence (take k xs)))) [
      | inl more ↦
          let (stops, before) = find_end-some rounds (suc k) xs n (rw (more, find_end) at h) in
          (
            stops,
            λ j low high.
                from-suc (λ i. is_complete_sequence (take i xs) ≡ incomplete) k j
                  (incomplete-true _ more) (λ above. before j above high) low,
          )
      | inr stop ↦
          let e : k ≡ n = some_inj (rw (stop, find_end) at h) in
          (
            subst (λ m. is_complete_sequence (take m xs) ≢ incomplete) e (incomplete-false _ stop),
            λ j low high. absurd (omega arith),
          )
    ]

find_end-none :
    (rounds k : ℕ) (xs : List ℕ)
    → find_end rounds k xs ≡ none
    → (j : ℕ) → k ≤ j
    → j < k + rounds
    → is_complete_sequence (take j xs) ≡ incomplete
unfolding find_end
find_end-none zero k xs h j low high = absurd (omega arith)
find_end-none (suc rounds) k xs h j low high =
    elim (Bool-cases (is_incomplete (is_complete_sequence (take k xs)))) [
      | inl more ↦
          from-suc (λ i. is_complete_sequence (take i xs) ≡ incomplete) k j (incomplete-true _ more)
            (λ above.
              find_end-none rounds (suc k) xs (rw (more, find_end) at h) j above (omega arith))
            low
      | inr stop ↦ absurd (cc (rw (stop, find_end) at h))
    ]

-- A text that the inner loop takes whole.
pub next_end-whole : (s : List ℕ) → next_end s ≡ some (length s) → IsTyped s ⊎ IsEscape s
unfolding next_end
next_end-whole [] h = absurd (cc (h))
next_end-whole (c ∷ cs) h = elim (Bool-cases (c == esc)) [
  | inl is_esc ↦
      let e : c ≡ esc = ground (arith, is_esc) in
      let (stops, before) =
        find_end-some (suc (length cs)) 1 (c ∷ cs) (suc (length cs)) (rw is_esc at h) in
      inr (
        (cs, ap (λ x. x ∷ cs) e),
        subst (λ t. is_complete_sequence t ≢ incomplete) (take_whole (c ∷ cs)) stops,
        before,
      )
  | inr other ↦
      let one : 1 ≡ suc (length cs) = some_inj (rw other at h) in
      inl (c, ap (c ∷◌) (empty cs (omega (arith, one))), ground (arith, other))
]

-- A text in which the inner loop finds no end.
pub next_end-open :
    (s : List ℕ)
    → next_end s ≡ none
    → (s ≡ []) ⊎ (StartsAtEscape s × AreIncomplete (suc (length s)) s)
unfolding next_end
next_end-open [] h = inl refl
next_end-open (c ∷ cs) h = elim (Bool-cases (c == esc)) [
  | inl is_esc ↦
      let e : c ≡ esc = ground (arith, is_esc) in
      inr (
        (cs, ap (λ x. x ∷ cs) e),
        λ k low high.
            find_end-none (suc (length cs)) 1 (c ∷ cs) (rw is_esc at h) k low (omega arith),
      )
  | inr other ↦ absurd (cc (rw other at h))
]
