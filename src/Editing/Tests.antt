-- ===== src/Editing/Tests.antt =====
-- A kill ring of three entries (packages/tui/src/kill-ring.ts).
use Prim.Native.Char.{code}
use co_mono.Base.{ℕ, ◌≡◌, refl, String, true, List, [], ◌∷◌, map, to_chars}
use co_mono.Editing.KillRing.{push, rotations, rotations-append}

abbrev text : String → List ℕ
text s = map code (to_chars s)

-- Backward deletions accumulate at the front of the newest entry.
accumulated :
    push (text "ab") (record { prepend = true; accumulate = true }) (text "x" ∷ text "cd" ∷ [])
    ≡ text "x" ∷ text "abcd" ∷ []
unfolding push
accumulated = refl

rotations-append_example :
    rotations 2 (text "a" ∷ text "b" ∷ text "c" ∷ []) ≡ text "b" ∷ text "c" ∷ text "a" ∷ []
rotations-append_example = rotations-append (text "a" ∷ []) (text "b" ∷ text "c" ∷ [])
