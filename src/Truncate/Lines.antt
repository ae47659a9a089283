-- ===== src/Truncate/Lines.antt =====
-- Splitting a text into lines and joining them (packages/coding-agent/src/core/tools/truncate.ts).
use mathlib.Core.List.{reverse-cons}
use co_mono.Base.{join_lines, ℕ, suc, ◌+◌, ◌-◌, ◌≤◌, ◌≡◌, refl, List, [], ◌∷◌, ◌++◌, reverse, arith}
use co_mono.Truncate.{byte_length}

byte_length-append : (s t : List ℕ) → byte_length (s ++ t) ≡ byte_length s + byte_length t
unfolding byte_length
byte_length-append [] t = omega arith
byte_length-append (c ∷ cs) t = omega (arith, byte_length-append cs t)

-- The bytes of some lines, each with a line break.
abbrev pub line_bytes : List (List ℕ) → ℕ
line_bytes [] = 0
line_bytes (l ∷ ls) = 1 + byte_length l + line_bytes ls

pub line_bytes-append :
    (ls ms : List (List ℕ)) → line_bytes (ls ++ ms) ≡ line_bytes ls + line_bytes ms
line_bytes-append [] ms = omega arith
line_bytes-append (l ∷ ls) ms = omega (arith, line_bytes-append ls ms)

pub line_bytes-reverse : (ls : List (List ℕ)) → line_bytes (reverse ls) ≡ line_bytes ls
line_bytes-reverse [] = refl
line_bytes-reverse (l ∷ ls) =
    rw (reverse-cons l ls)
      (omega (arith, line_bytes-append (reverse ls) (l ∷ []), line_bytes-reverse ls))

-- Joined, they have one line break less.
pub byte_length-join_lines : (ls : List (List ℕ)) → byte_length (join_lines ls) ≤ line_bytes ls - 1
unfolding byte_length join_lines
byte_length-join_lines [] = omega arith
byte_length-join_lines (l ∷ []) = omega arith
byte_length-join_lines (l ∷ m ∷ ls) =
    omega
      (arith, byte_length-append l (0x0a ∷ join_lines (m ∷ ls)), byte_length-join_lines (m ∷ ls))

pub line_bytes-join_lines : (ls : List (List ℕ)) → line_bytes ls ≤ suc (byte_length (join_lines ls))
unfolding byte_length join_lines
line_bytes-join_lines [] = omega arith
line_bytes-join_lines (l ∷ []) = omega arith
line_bytes-join_lines (l ∷ m ∷ ls) =
    omega (arith, byte_length-append l (0x0a ∷ join_lines (m ∷ ls)), line_bytes-join_lines (m ∷ ls))
