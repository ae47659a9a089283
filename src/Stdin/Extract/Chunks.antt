-- ===== src/Stdin/Extract/Chunks.antt =====
-- What `extractCompleteSequences` promises: it ends, it loses nothing, and where the input is split
-- into chunks makes no difference (packages/tui/src/stdin-buffer.ts).
use co_mono.Base.{
  ℕ, zero, suc, ◌≤◌, ◌≡◌, ◌∙◌, ◌⊎◌, sym, refl, ap, Option, none, some, List, [], ◌∷◌, ◌++◌,
  append_assoc, length, take, drop, Option-cases, inl, inr, arith, take-append-drop, length-drop,
  take-append_le, drop-append_le, some_inj, subst,
}
use co_mono.Stdin.Extract.{next_end, Extraction, extract_from, extract_complete_sequences, push}
use co_mono.Stdin.Extract.Steps.{
  next_end-bounds, next_end-append, extract-stop, extract-cut, next_end-take,
}
use co_mono.Stdin.Extract.Ends.{
  IsTyped, StartsAtEscape, AreIncomplete, IsEscape, next_end-whole, next_end-open,
}

-- The sequences joined again.
abbrev pub joined : List (List ℕ) → List ℕ
joined [] = []
joined (s ∷ ss) = s ++ joined ss

-- Every sequence is one unit that is no escape, or an escape sequence that is complete while none of
-- its shorter prefixes is.
abbrev AreSequences : List (List ℕ) → Type 0
AreSequences [] = Unit
AreSequences (s ∷ ss) = (IsTyped s ⊎ IsEscape s) × AreSequences ss

-- Nothing, or an escape sequence that is still to be completed: it and its prefixes are incomplete.
abbrev IsPending : List ℕ → Type 0
IsPending xs = (xs ≡ []) ⊎ (StartsAtEscape xs × AreIncomplete (suc (length xs)) xs)

pub record IsExtraction (xs : List ℕ) (x : Extraction) : Type 0 where
  pub lossless : joined x.sequences ++ x.remainder ≡ xs
  pub sequences_end : AreSequences x.sequences
  pub remainder_pending : IsPending x.remainder

extraction-cut :
    (xs : List ℕ) (n : ℕ) (x : Extraction)
    → next_end xs ≡ some n
    → IsExtraction (drop n xs) x
    → IsExtraction xs (record { sequences = take n xs ∷ x.sequences; remainder = x.remainder })
extraction-cut xs n x cut h = record {
  lossless =
      append_assoc (take n xs) (joined x.sequences) x.remainder
      ∙ rw h.lossless (take-append-drop n xs);
  sequences_end = (next_end-whole (take n xs) (next_end-take xs n cut), h.sequences_end);
  remainder_pending = h.remainder_pending;
}

extract-below :
    (k : ℕ) (xs : List ℕ)
    → length xs ≤ k
    → (x : Extraction) × (extract_complete_sequences xs ≡ some x) × IsExtraction xs x
unfolding extract_complete_sequences extract_from next_end
extract-below k [] le = (
  record { sequences = []; remainder = [] },
  refl,
  record { lossless = refl; sequences_end = tt; remainder_pending = inl refl },
)
extract-below zero (c ∷ cs) le = absurd (omega arith)
extract-below (suc k) (c ∷ cs) le = elim (Option-cases (next_end (c ∷ cs))) [
  | inl stop ↦ (
    record { sequences = []; remainder = c ∷ cs },
    extract-stop c cs stop,
    record { lossless = refl; sequences_end = tt; remainder_pending = next_end-open (c ∷ cs) stop },
  )
  | inr (n, cut) ↦
      let (low, high) = next_end-bounds (c ∷ cs) n cut in
      let (x, e, h) = extract-below k (drop n (c ∷ cs)) (omega (arith, length-drop n (c ∷ cs))) in
      (
        record { sequences = take n (c ∷ cs) ∷ x.sequences; remainder = x.remainder },
        extract-cut (c ∷ cs) n cut ∙ ap (push (take n (c ∷ cs))) e,
        extraction-cut (c ∷ cs) n x cut h,
      )
]

-- The extraction ends for every text. Its sequences and the remainder, put together, are the text.
-- Each sequence is one unit that is no escape, or starts with an escape and is such that
-- `isCompleteSequence` calls each of its shorter prefixes incomplete, and not the sequence itself. The
-- remainder is empty, or starts with an escape, and it and all its prefixes are incomplete.
pub extract-IsExtraction :
    (xs : List ℕ) → (x : Extraction) × (extract_complete_sequences xs ≡ some x) × IsExtraction xs x
extract-IsExtraction xs = extract-below (length xs) xs (omega arith)

-- Sequences in front of an extraction.
abbrev pub prepend : List (List ℕ) → Option Extraction → Option Extraction
prepend ss none = none
prepend ss (some x) = some (record { sequences = ss ++ x.sequences; remainder = x.remainder })

prepend-nil : (o : Option Extraction) → prepend [] o ≡ o
prepend-nil none = refl
prepend-nil (some x) = refl

push-prepend :
    (s : List ℕ) (ss : List (List ℕ)) (o : Option Extraction)
    → push s (prepend ss o) ≡ prepend (s ∷ ss) o
push-prepend s ss none = refl
push-prepend s ss (some x) = refl

abbrev Resumes : List ℕ → List ℕ → Extraction → Type 0
Resumes xs ys x =
    extract_complete_sequences (xs ++ ys)
    ≡ prepend x.sequences (extract_complete_sequences (x.remainder ++ ys))

resume-cut :
    (xs ys : List ℕ) (n : ℕ) (x : Extraction)
    → next_end xs ≡ some n
    → Resumes (drop n xs) ys x
    → Resumes xs ys (record { sequences = take n xs ∷ x.sequences; remainder = x.remainder })
resume-cut xs ys n x cut h =
    let (low, high) = next_end-bounds xs n cut in
    extract-cut (xs ++ ys) n (next_end-append xs ys n cut)
    ∙ rw (take-append_le n xs ys high, drop-append_le n xs ys high, h)
        (push-prepend (take n xs) x.sequences (extract_complete_sequences (x.remainder ++ ys)))

resume-below :
    (k : ℕ) (xs ys : List ℕ) (x : Extraction)
    → length xs ≤ k
    → extract_complete_sequences xs ≡ some x
    → Resumes xs ys x
unfolding extract_complete_sequences extract_from
resume-below k [] ys x le e =
    subst (Resumes [] ys) (some_inj e) (sym (prepend-nil (extract_complete_sequences ys)))
resume-below zero (c ∷ cs) ys x le e = absurd (omega arith)
resume-below (suc k) (c ∷ cs) ys x le e = elim (Option-cases (next_end (c ∷ cs))) [
  | inl stop ↦
      subst (Resumes (c ∷ cs) ys) (some_inj (sym (extract-stop c cs stop) ∙ e))
        (sym (prepend-nil (extract_complete_sequences (c ∷ (cs ++ ys)))))
  | inr (n, cut) ↦
      let (low, high) = next_end-bounds (c ∷ cs) n cut in
      let (x', e', h) = extract-IsExtraction (drop n (c ∷ cs)) in
      subst (Resumes (c ∷ cs) ys)
        (some_inj (sym (extract-cut (c ∷ cs) n cut ∙ ap (push (take n (c ∷ cs))) e') ∙ e))
        (resume-cut (c ∷ cs) ys n x' cut
          (resume-below k (drop n (c ∷ cs)) ys x' (omega (arith, length-drop n (c ∷ cs))) e'))
]

-- It makes no difference where the input is split into chunks: the sequences of a text are those of
-- its first part, followed by those of the first part's remainder with the second part behind it.
pub extract-chunks :
    (xs ys : List ℕ) (x : Extraction)
    → extract_complete_sequences xs ≡ some x
    → extract_complete_sequences (xs ++ ys)
      ≡ prepend x.sequences (extract_complete_sequences (x.remainder ++ ys))
extract-chunks xs ys x e = resume-below (length xs) xs ys x (omega arith) e
