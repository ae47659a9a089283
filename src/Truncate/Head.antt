-- ===== src/Truncate/Head.antt =====
-- `truncateHead` (packages/coding-agent/src/core/tools/truncate.ts).
use co_mono.Truncate.Collect.{collect-Fits, InLimits, whole-InLimits}
use co_mono.Base.{
  split_lines, join_lines, join_lines-split_lines, ℕ, ◌<◌, ◌≡◌, refl, ◌⊎◌, inl, inr, sym, ap, false,
  ◌&&◌, List, [], ◌∷◌, ◌++◌, append-nil, ltb, leb, if-both, length, arith,
}
use co_mono.Truncate.{byte_length, TruncationResult, collect, first_line, truncate_head_to}
use co_mono.Truncate.Lines.{line_bytes-append, line_bytes-join_lines, byte_length-join_lines}

-- The output is some first lines of the text.
-- With one more line it would pass a limit.
abbrev IsPrefix : List ℕ → (max_lines max_bytes : ℕ) → TruncationResult → Type 0
IsPrefix content max_lines max_bytes r =
    (kept : List (List ℕ)) × (rest : List (List ℕ)) × (split_lines content ≡ kept ++ rest)
    × (r.content ≡ join_lines kept)
    × (r.output_lines ≡ length kept)
    × ((m : List ℕ) (older : List (List ℕ))
        → rest ≡ m ∷ older
        → (length kept ≡ max_lines) ⊎ (max_bytes < byte_length (join_lines (kept ++ m ∷ []))))

abbrev pub IsHead : List ℕ → (max_lines max_bytes : ℕ) → TruncationResult → Type 0
IsHead content max_lines max_bytes r =
    InLimits max_lines max_bytes r
    × IsPrefix content max_lines max_bytes r
    × (r.truncated ≡ false → r.content ≡ content)

-- Truncating from the head, whatever the limits: the output has no more lines and bytes than they allow,
-- and its byte count is right; it consists of some first lines of the text, all of them complete, and with
-- the next line it would pass a limit; and if it is not marked as truncated it is the text.
pub truncate_head_to-IsHead :
    (content : List ℕ) (max_lines max_bytes : ℕ)
    → IsHead content max_lines max_bytes (truncate_head_to content max_lines max_bytes)
unfolding truncate_head_to
truncate_head_to-IsHead content max_lines max_bytes =
    let lines = split_lines content in
    let P = IsHead content max_lines max_bytes in
    let kept = collect max_bytes max_lines 0 0 lines in
    let fits = collect-Fits max_bytes max_lines 0 0 lines (omega arith) (omega arith) in
    if-both P (leb (length lines) max_lines && leb (byte_length content) max_bytes)
      (λ h. (
        whole-InLimits content max_lines max_bytes h,
        (
          lines,
          [],
          sym (append-nil lines),
          sym (join_lines-split_lines content),
          refl,
          λ m older e. absurd (cc (e)),
        ),
        λ _. refl,
      ))
      (λ _.
        if-both P (ltb max_bytes (byte_length (first_line lines)))
          (λ long. (
            (refl, omega arith, omega arith),
            (
              [],
              lines,
              refl,
              refl,
              refl,
              λ m older e. inr (ground (arith, long, ap (λ ls. byte_length (first_line ls)) e)),
            ),
            λ e. absurd (cc (e)),
          ))
          (λ _. (
            (refl, omega (arith, fits.0, byte_length-join_lines (kept.lines)), fits.1),
            (
              kept.lines,
              (fits.2).0,
              (fits.2).1,
              refl,
              refl,
              λ m older e. elim ((fits.2).2 m older e) [
                | inl full ↦ inl full
                | inr long ↦ inr (
                    omega (
                      arith,
                      long,
                      line_bytes-append (kept.lines) (m ∷ []),
                      line_bytes-join_lines (kept.lines ++ m ∷ []),
                    ))
              ],
            ),
            λ e. absurd (cc (e)),
          )))
