-- ===== src/Base/Text.antt =====
-- The methods of JavaScript strings that the program calls.
use Prim.Native.Nat.{ℕ}
use Prim.Native.Char.{Char, code}
use Prim.Native.String.{String}
use mathlib.Core.Bool.{Bool, ◌||◌, ◌&&◌}
use mathlib.Core.List.{List, [], ◌∷◌, reverse}
use co_mono.Base.Tests.{leb, ◌==◌, if◌then◌else◌}

abbrev pub to_chars : String → List Char
to_chars String.[] = []
to_chars (String.◌∷◌ c s) = c ∷ to_chars s

abbrev of_chars : List Char → String
of_chars [] = String.[]
of_chars (c ∷ cs) = String.◌∷◌ c (of_chars cs)

-- White space and line ends of ECMAScript.
abbrev pub is_space : ℕ → Bool
is_space c =
    (leb 9 c && leb c 13)
    || c == 32
    || c == 160
    || c == 0x1680
    || (leb 0x2000 c && leb c 0x200a)
    || c == 0x2028
    || c == 0x2029
    || c == 0x202f
    || c == 0x205f
    || c == 0x3000
    || c == 0xfeff

abbrev trim_left : List Char → List Char
trim_left [] = []
trim_left (c ∷ cs) = let rest = trim_left cs in if is_space (code c) then rest else c ∷ cs

-- `s.trim()`
pub trim : String → String
trim s = of_chars (reverse (trim_left (reverse (trim_left (to_chars s)))))

abbrev trim_units_left : List ℕ → List ℕ
trim_units_left [] = []
trim_units_left (c ∷ cs) = let rest = trim_units_left cs in if is_space c then rest else c ∷ cs

-- The same on the list of a text's units.
unfoldable pub trim_units : List ℕ → List ℕ
trim_units cs = reverse (trim_units_left (reverse (trim_units_left cs)))

-- `s.replace(/[:.]/g, "-")`
unfoldable pub replace_stamp : String → String
replace_stamp String.[] = String.[]
replace_stamp (String.◌∷◌ c s) =
    String.◌∷◌ (if code c == b':' || code c == b'.' then "-" else c) (replace_stamp s)
