-- ===== src/Stdin/Sequence.antt =====
-- When a terminal sequence is complete: `isCompleteSequence` and the functions that it calls
-- (packages/tui/src/stdin-buffer.ts).
use co_mono.Base.{
  ℕ, ◌-◌, Bool, true, false, not, ◌&&◌, ◌||◌, List, [], ◌∷◌, ◌++◌, reverse, leb, ltb, get_or_else,
  ◌==◌, if◌then◌else◌, length, drop, every, last?,
}

abbrev pub esc : ℕ
esc = 0x1b

pub data Status : Type 0 where
  complete incomplete not_escape : Status

-- `data.startsWith(prefix)`
unfoldable pub starts_with : List ℕ → List ℕ → Bool
starts_with xs [] = true
starts_with [] (p ∷ ps) = false
starts_with (x ∷ xs) (p ∷ ps) = x == p && starts_with xs ps

-- `data.endsWith(suffix)`
ends_with : List ℕ → List ℕ → Bool
unfolding starts_with
ends_with xs suffix = starts_with (reverse xs) (reverse suffix)

abbrev is_digit : ℕ → Bool
is_digit c = leb b'0' c && leb c b'9'

-- `/^\d+$/`
abbrev is_number : List ℕ → Bool
is_number [] = false
is_number (c ∷ cs) = every is_digit (c ∷ cs)

-- `s.split(";")`, with the part that has been read so far
split_semicolons : List ℕ → List ℕ → List (List ℕ)
split_semicolons part [] = part ∷ []
split_semicolons part (c ∷ cs) =
    if c == b';' then part ∷ split_semicolons [] cs else split_semicolons (part ++ c ∷ []) cs

abbrev is_final_m : ℕ → Bool
is_final_m c = c == b'M' || c == b'm'

-- The rest of `/^<\d+;\d+;\d+[Mm]$/` behind `<`: the fields to come after this one, and whether the
-- field has a digit already.
match_fields : ℕ → Bool → List ℕ → Bool
match_fields fields seen [] = false
match_fields fields seen (c ∷ cs) =
    let more = match_fields fields true cs in
    let next = match_fields (fields - 1) false cs in
    if is_digit c
    then more
    else if seen && c == b';' && leb 1 fields
    then next
    else seen && is_final_m c && fields == 0 && length cs == 0

match_mouse : List ℕ → Bool
unfolding match_fields
match_mouse [] = false
match_mouse (c ∷ cs) = c == b'<' && match_fields 2 false cs

-- `s.slice(1, -1)`
abbrev inner : List ℕ → List ℕ
inner xs = reverse (drop 1 (reverse (drop 1 xs)))

abbrev three_numbers : List (List ℕ) → Bool
three_numbers parts = length parts == 3 && every is_number parts

-- The payload of a CSI sequence and its last unit.
csi_payload : List ℕ → ℕ → Status
unfolding starts_with match_mouse split_semicolons
csi_payload payload c =
    if leb 0x40 c && leb c 0x7e
    then (if starts_with payload (b'<' ∷ [])
        then (if match_mouse payload
            then complete
            else if is_final_m c && three_numbers (split_semicolons [] (inner payload))
            then complete
            else incomplete)
        else complete)
    else incomplete

-- `isCompleteCsiSequence`
is_complete_csi : List ℕ → Status
unfolding csi_payload
is_complete_csi xs =
    if not (starts_with xs (esc ∷ b'[' ∷ []))
    then complete
    else if ltb (length xs) 3
    then incomplete
    else csi_payload (drop 2 xs) (get_or_else (last? (drop 2 xs)) 0)

-- `isCompleteOscSequence`: ends in ESC \ or BEL.
is_complete_osc : List ℕ → Status
unfolding starts_with ends_with
is_complete_osc xs =
    if not (starts_with xs (esc ∷ b']' ∷ []))
    then complete
    else if ends_with xs (esc ∷ 0x5c ∷ []) || ends_with xs (0x07 ∷ [])
    then complete
    else incomplete

-- `isCompleteDcsSequence`
is_complete_dcs : List ℕ → Status
unfolding starts_with ends_with
is_complete_dcs xs =
    if not (starts_with xs (esc ∷ b'P' ∷ []))
    then complete
    else if ends_with xs (esc ∷ 0x5c ∷ [])
    then complete
    else incomplete

-- `isCompleteApcSequence`
is_complete_apc : List ℕ → Status
unfolding starts_with ends_with
is_complete_apc xs =
    if not (starts_with xs (esc ∷ b'_' ∷ []))
    then complete
    else if ends_with xs (esc ∷ 0x5c ∷ [])
    then complete
    else incomplete

-- `isCompleteSequence`
unfoldable pub is_complete_sequence : List ℕ → Status
unfolding is_complete_csi is_complete_osc is_complete_dcs is_complete_apc
is_complete_sequence xs =
    let after_esc = drop 1 xs in
    if not (starts_with xs (esc ∷ []))
    then not_escape
    else if length xs == 1
    then incomplete
    else if starts_with after_esc (b'[' ∷ [])
    then (if starts_with after_esc (b'[' ∷ b'M' ∷ [])
        then (if leb 6 (length xs) then complete else incomplete)
        else is_complete_csi xs)
    else if starts_with after_esc (b']' ∷ [])
    then is_complete_osc xs
    else if starts_with after_esc (b'P' ∷ [])
    then is_complete_dcs xs
    else if starts_with after_esc (b'_' ∷ [])
    then is_complete_apc xs
    else if starts_with after_esc (b'O' ∷ [])
    then (if leb 2 (length after_esc) then complete else incomplete)
    else complete
