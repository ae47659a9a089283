-- ===== src/Truncate/Collect.antt =====
-- What the loops collect, and the limits (packages/coding-agent/src/core/tools/truncate.ts).
use co_mono.Base.{
  split_lines, ℕ, zero, suc, ◌+◌, ◌-◌, ◌≤◌, ◌<◌, ◌≡◌, refl, ◌⊎◌, inl, inr, ap, true, ◌&&◌, List, [],
  ◌∷◌, ◌++◌, ltb, leb, if-both, and-split, length, arith,
}
use co_mono.Truncate.{byte_length, TruncationResult, Collected, collect, whole}
use co_mono.Truncate.Lines.{line_bytes}

-- The next line was left because the number of lines is full or it does not fit.
abbrev Stops : (max_bytes rounds count newline : ℕ) (kept rest : List (List ℕ)) → Type 0
Stops max_bytes n count newline kept rest =
    (m : List ℕ) (older : List (List ℕ))
    → rest ≡ m ∷ older
    → (length kept ≡ n)
      ⊎ (max_bytes + (1 - newline) < count + line_bytes kept + (1 + byte_length m))

-- The lines that a loop collects are the first ones, no more than the limits allow.
abbrev pub Fits : (max_bytes rounds count newline : ℕ) → List (List ℕ) → Collected → Type 0
Fits max_bytes n count newline ls x =
    (count + line_bytes (x.lines) ≤ max_bytes + (1 - newline))
    × (length (x.lines) ≤ n)
    × ((rest : List (List ℕ)) × (ls ≡ x.lines ++ rest)
        × Stops max_bytes n count newline (x.lines) rest)

head_eq : (l m : List ℕ) (ls ms : List (List ℕ)) → l ∷ ls ≡ m ∷ ms → l ≡ m
head_eq l m ls ms e = cc (e)

pub collect-Fits :
    (max_bytes n count newline : ℕ) (ls : List (List ℕ))
    → count ≤ max_bytes
    → newline ≤ 1
    → Fits max_bytes n count newline ls (collect max_bytes n count newline ls)
unfolding collect
collect-Fits max_bytes zero count newline ls h k =
    (omega arith, omega arith, (ls, refl, λ m older e. inl refl))
collect-Fits max_bytes (suc n) count newline [] h k =
    (omega arith, omega arith, ([], refl, λ m older e. absurd (cc (e))))
collect-Fits max_bytes (suc n) count newline (l ∷ ls) h k =
    let sum = count + (byte_length l + newline) in
    if-both (Fits max_bytes (suc n) count newline (l ∷ ls)) (ltb max_bytes sum)
      (λ long. (
        omega arith,
        omega arith,
        (
          l ∷ ls,
          refl,
          λ m older e. inr (ground (arith, long, ap byte_length (head_eq l m ls older e))),
        ),
      ))
      (λ fits.
        let ih = collect-Fits max_bytes n sum 1 ls (ground (arith, fits)) (omega arith) in
        (
          omega (arith, ih.0),
          omega (arith, ih.1),
          (
            (ih.2).0,
            ap (l ∷◌) ((ih.2).1),
            λ m older e. elim ((ih.2).2 m older e) [
              | inl full ↦ inl (omega (arith, full))
              | inr long ↦ inr (omega (arith, long))
            ],
          ),
        ))

abbrev pub InLimits : (max_lines max_bytes : ℕ) → TruncationResult → Type 0
InLimits max_lines max_bytes r =
    (r.output_bytes ≡ byte_length (r.content))
    × (r.output_bytes ≤ max_bytes)
    × (r.output_lines ≤ max_lines)

pub whole-InLimits :
    (content : List ℕ) (max_lines max_bytes : ℕ)
    → (leb (length (split_lines content)) max_lines && leb (byte_length content) max_bytes) ≡ true
    → InLimits max_lines max_bytes (whole content max_lines max_bytes)
whole-InLimits content max_lines max_bytes h =
    let (lines, bytes) =
      and-split (leb (length (split_lines content)) max_lines) (leb (byte_length content) max_bytes)
        h in
    (refl, ground (arith, bytes), ground (arith, lines))
