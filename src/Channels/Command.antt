-- ===== src/Channels/Command.antt =====
-- The commands that a sender can type (packages/pi-channels/src/bridge/commands.ts). A text is the list
-- of its units.
use co_mono.Base.{
  ℕ, ◌+◌, Bool, true, false, ◌&&◌, ◌||◌, List, [], ◌∷◌, ◌==◌, leb, if◌then◌else◌, trim_units,
}

abbrev is_letter : ℕ → Bool
is_letter c = (leb b'a' c && leb c b'z') || (leb b'A' c && leb c b'Z')

abbrev slash_letter : List ℕ → Bool
slash_letter (c ∷ d ∷ cs) = c == b'/' && is_letter d
slash_letter _ = false

-- `isCommand`
unfoldable pub is_command : List ℕ → Bool
is_command text = slash_letter (trim_units text)

abbrev lower : ℕ → ℕ
lower c = if leb b'A' c && leb c b'Z' then c + 32 else c

-- The longest start of letters and underscores, in lower case.
abbrev name_run : List ℕ → List ℕ
name_run [] = []
name_run (c ∷ cs) =
    let rest = name_run cs in if is_letter c || c == b'_' then lower c ∷ rest else []

abbrev after_slash : List ℕ → List ℕ
after_slash [] = []
after_slash (c ∷ cs) = if c == b'/' then name_run cs else []

-- The name of `parseCommand`, empty where its pattern does not match.
unfoldable pub command_name : List ℕ → List ℕ
command_name text = after_slash (trim_units text)

-- The commands that are registered.
pub data BotCommand : Type 0 where
  start help abort status new unknown : BotCommand

abbrev same_name : List ℕ → List ℕ → Bool
same_name [] [] = true
same_name (c ∷ cs) (d ∷ ds) = c == d && same_name cs ds
same_name _ _ = false

unfoldable pub find_command : List ℕ → BotCommand
find_command name =
    if same_name name (b's' ∷ b't' ∷ b'a' ∷ b'r' ∷ b't' ∷ [])
    then start
    else if same_name name (b'h' ∷ b'e' ∷ b'l' ∷ b'p' ∷ [])
    then help
    else if same_name name (b'a' ∷ b'b' ∷ b'o' ∷ b'r' ∷ b't' ∷ [])
    then abort
    else if same_name name (b's' ∷ b't' ∷ b'a' ∷ b't' ∷ b'u' ∷ b's' ∷ [])
    then status
    else if same_name name (b'n' ∷ b'e' ∷ b'w' ∷ [])
    then new
    else unknown
