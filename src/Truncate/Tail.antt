-- ===== src/Truncate/Tail.antt =====
-- `truncateTail` (packages/coding-agent/src/core/tools/truncate.ts).
use co_mono.Truncate.Collect.{Fits, collect-Fits, InLimits, whole-InLimits}
use mathlib.Core.List.{reverse-append, reverse-reverse, reverse-cons}
use co_mono.Base.{
  split_lines, join_lines, join_lines-split_lines, ℕ, zero, suc, ◌-◌, ◌≤◌, ◌<◌, ◌≡◌, ◌∙◌, refl, ◌⊎◌,
  inl, inr, sym, ap, subst, map, if-false, Bool, true, false, ◌&&◌, List, [], ◌∷◌, ◌++◌, reverse,
  ltb, leb, if-both, length, length-reverse, arith,
}
use co_mono.Truncate.{
  byte_length, width, TruncationResult, Collected, cut_to, drop_bytes, replace_lone,
  truncate_string_to_bytes_from_end, collect_back, truncate_tail_to, ended_by,
}
use co_mono.Truncate.Lines.{line_bytes-join_lines, line_bytes-reverse, byte_length-join_lines}

-- The output is some last lines of the text, and with the line before them it would pass a limit.
abbrev IsSuffix : List ℕ → (max_lines max_bytes : ℕ) → TruncationResult → Type 0
IsSuffix content max_lines max_bytes r =
    (front : List (List ℕ)) × (kept : List (List ℕ)) × (split_lines content ≡ front ++ kept)
    × (r.content ≡ join_lines kept)
    × (r.output_lines ≡ length kept)
    × ((m : List ℕ) (older : List (List ℕ))
        → front ≡ older ++ m ∷ []
        → (length kept ≡ max_lines) ⊎ (max_bytes < byte_length (join_lines (m ∷ kept))))

drop_bytes-suffix : (n : ℕ) (s : List ℕ) → (front : List ℕ) × (s ≡ front ++ drop_bytes n s)
unfolding drop_bytes
drop_bytes-suffix zero s = ([], refl)
drop_bytes-suffix (suc n) [] = ([], refl)
drop_bytes-suffix (suc n) (c ∷ cs) =
    let (front, whole_text) = drop_bytes-suffix (suc n - width c) cs in
    (c ∷ front, ap (c ∷◌) whole_text)

drop_bytes-bound : (n : ℕ) (s : List ℕ) → byte_length (drop_bytes n s) ≤ byte_length s - n
unfolding drop_bytes byte_length
drop_bytes-bound zero s = omega arith
drop_bytes-bound (suc n) [] = omega arith
drop_bytes-bound (suc n) (c ∷ cs) = omega (arith, drop_bytes-bound (suc n - width c) cs)

width-replace_lone : (c : ℕ) → width (replace_lone c) ≡ width c
width-replace_lone c = ground arith

byte_length-replace_lone : (s : List ℕ) → byte_length (map replace_lone s) ≡ byte_length s
unfolding byte_length
byte_length-replace_lone [] = refl
byte_length-replace_lone (c ∷ cs) = omega (arith, width-replace_lone c, byte_length-replace_lone cs)

-- A line that is too long is cut to an end of it that fits, with its lone surrogates replaced.
from_end-suffix :
    (s : List ℕ) (max_bytes : ℕ)
    → ltb max_bytes (byte_length s) ≡ true
    → (front part : List ℕ) × (s ≡ front ++ part)
      × (truncate_string_to_bytes_from_end s max_bytes ≡ map replace_lone part)
      × (byte_length (truncate_string_to_bytes_from_end s max_bytes) ≤ max_bytes)
unfolding truncate_string_to_bytes_from_end
from_end-suffix s max_bytes h =
    let long : leb (byte_length s) max_bytes ≡ false = ground (arith, h) in
    let n = byte_length s - max_bytes in
    let (front, split) = drop_bytes-suffix n s in
    let cut = if-false (leb (byte_length s) max_bytes) s (map replace_lone (drop_bytes n s)) long in
    (
      front,
      drop_bytes n s,
      split,
      cut,
      ground (
        arith,
        h,
        ap byte_length cut,
        byte_length-replace_lone (drop_bytes n s),
        drop_bytes-bound n s,
      ),
    )

-- What the loop from the last line back collects, from the lines in reverse.
abbrev BackFits : (max_bytes n : ℕ) → List (List ℕ) → Bool × Collected → Type 0
BackFits max_bytes n rs (false, x) = Fits max_bytes n 0 0 rs x
BackFits max_bytes n rs (true, x) =
    (l : List ℕ) × (older : List (List ℕ)) × (front part : List ℕ) × (rs ≡ l ∷ older)
    × (x.lines ≡ map replace_lone part ∷ [])
    × (l ≡ front ++ part)
    × (byte_length (map replace_lone part) ≤ max_bytes)
    × (1 ≤ n)

collect_back-Fits :
    (max_bytes n : ℕ) (rs : List (List ℕ)) → BackFits max_bytes n rs (collect_back max_bytes n rs)
unfolding collect_back
collect_back-Fits max_bytes zero rs = collect-Fits max_bytes 0 0 0 rs (omega arith) (omega arith)
collect_back-Fits max_bytes (suc n) [] =
    collect-Fits max_bytes (suc n) 0 0 [] (omega arith) (omega arith)
collect_back-Fits max_bytes (suc n) (l ∷ ls) =
    if-both (BackFits max_bytes (suc n) (l ∷ ls)) (ltb max_bytes (byte_length l))
      (λ long.
        let (front, part, split, cut, bound) = from_end-suffix l max_bytes long in
        (
          l,
          ls,
          front,
          part,
          refl,
          ap (λ p. p ∷ []) cut,
          split,
          subst (λ p. byte_length p ≤ max_bytes) cut bound,
          omega arith,
        ))
      (λ _. collect-Fits max_bytes (suc n) 0 0 (l ∷ ls) (omega arith) (omega arith))

abbrev pub IsTail : List ℕ → (max_lines max_bytes : ℕ) → TruncationResult → Type 0
IsTail content max_lines max_bytes r =
    InLimits max_lines max_bytes r
    × (r.last_line_partial ≡ false → IsSuffix content max_lines max_bytes r)
    × (r.last_line_partial ≡ true
        → (front : List (List ℕ)) × (l start part : List ℕ) × (split_lines content
            ≡ front ++ l ∷ [])
          × (l ≡ start ++ part)
          × (r.content ≡ map replace_lone part))
    × (r.truncated ≡ false → r.content ≡ content)

nil_snoc : (older : List (List ℕ)) (m : List ℕ) → [] ≡ older ++ m ∷ [] → ⊥
nil_snoc [] m e = cc (e)
nil_snoc (l ∷ older) m e = cc (e)

cut_back-IsTail :
    (content : List ℕ) (max_lines max_bytes : ℕ) (out : Bool × Collected)
    → BackFits max_bytes max_lines (reverse (split_lines content)) out
    → IsTail content max_lines max_bytes (
        cut_to
          (reverse (out.1.lines))
          (ended_by max_lines max_bytes (out.1))
          (out.0)
          false
          content
          max_lines
          max_bytes)
unfolding join_lines
cut_back-IsTail content max_lines max_bytes (false, x) (bytes, lines, (rest, split, stops)) = (
  (
    refl,
    omega (arith, bytes, byte_length-join_lines (reverse (x.lines)), line_bytes-reverse (x.lines)),
    omega (arith, lines, length-reverse (x.lines)),
  ),
  λ _. (
    reverse rest,
    reverse (x.lines),
    sym (reverse-reverse (split_lines content)) ∙ ap reverse split ∙ reverse-append (x.lines) rest,
    refl,
    refl,
    λ m older e.
        elim (stops m (reverse older)
          (sym (reverse-reverse rest) ∙ ap reverse e ∙ reverse-append older (m ∷ []))) [
            | inl full ↦ inl (length-reverse (x.lines) ∙ full)
            | inr long ↦ inr (
                omega (
                  arith,
                  long,
                  line_bytes-reverse (x.lines),
                  line_bytes-join_lines (m ∷ reverse (x.lines)),
                ))
          ],
  ),
  λ e. absurd (cc (e)),
  λ e. absurd (cc (e)),
)
cut_back-IsTail content max_lines max_bytes (true, x)
      (l, older, front, part, split, only, suffix, bytes, some_line) =
    let kept : join_lines (reverse (x.lines)) ≡ map replace_lone part =
      ap (λ ls. join_lines (reverse ls)) only in
    (
      (
        refl,
        omega (arith, bytes, ap byte_length kept),
        omega (arith, some_line, length-reverse (x.lines), ap length only),
      ),
      λ e. absurd (cc (e)),
      λ _. (
        reverse older,
        l,
        front,
        part,
        sym (reverse-reverse (split_lines content)) ∙ ap reverse split ∙ reverse-cons l older,
        suffix,
        kept,
      ),
      λ e. absurd (cc (e)),
    )

-- Truncating from the tail, whatever the limits: the output has no more lines and bytes than they allow,
-- and its byte count is right; if its last line is not partial, it consists of some last lines of the
-- text, all of them complete, and with the line before them it would pass a limit; if it is, the output is an end of
-- the text's last line, in which U+FFFD stands for each half of a surrogate pair on its own; and if it is not
-- marked as truncated it is the text.
pub truncate_tail_to-IsTail :
    (content : List ℕ) (max_lines max_bytes : ℕ)
    → IsTail content max_lines max_bytes (truncate_tail_to content max_lines max_bytes)
unfolding truncate_tail_to
truncate_tail_to-IsTail content max_lines max_bytes =
    let lines = split_lines content in
    if-both (IsTail content max_lines max_bytes)
      (leb (length lines) max_lines && leb (byte_length content) max_bytes)
      (λ h. (
        whole-InLimits content max_lines max_bytes h,
        λ _. (
          [],
          lines,
          refl,
          sym (join_lines-split_lines content),
          refl,
          λ m older e. absurd (nil_snoc older m e),
        ),
        λ e. absurd (cc (e)),
        λ _. refl,
      ))
      (λ _.
        cut_back-IsTail content max_lines max_bytes
          (collect_back max_bytes max_lines (reverse lines))
          (collect_back-Fits max_bytes max_lines (reverse lines)))
