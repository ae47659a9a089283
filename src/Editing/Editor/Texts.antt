-- ===== src/Editing/Editor/Texts.antt =====
-- Replacing the whole text of the editor, and the history of prompts
-- (packages/tui/src/components/editor.ts).
use co_mono.Base.{
  ℕ, zero, suc, ◌-◌, Bool, true, false, ◌&&◌, Option, none, some, List, [], ◌∷◌, ◌==◌, ltb, leb,
  if◌then◌else◌, get_or_else, is_some, length, take, get_elem?, last?, split_lines, trim_units,
}
use co_mono.Editing.Editor.{EditorState, Editor, get_text, normalize, push_undo_snapshot}

unfoldable pub set_text_internal : List ℕ → EditorState
set_text_internal text =
    let lines = split_lines (normalize false text) in
    record {
      lines = lines;
      cursor_line = length lines - 1;
      cursor_col = length (get_or_else (last? lines) []);
    }

-- `a === b` on texts
abbrev pub same_text : List ℕ → List ℕ → Bool
same_text [] [] = true
same_text (c ∷ cs) (d ∷ ds) = c == d && same_text cs ds
same_text _ _ = false

unfoldable pub set_text : List ℕ → Editor → Editor
unfolding push_undo_snapshot set_text_internal
set_text text ed =
    let saved = if same_text (get_text (ed.state)) text then ed else push_undo_snapshot ed in
    record saved { state = set_text_internal text; last_action = none; history_index = none }

abbrev starts_with_text : List ℕ → List (List ℕ) → Bool
starts_with_text text [] = false
starts_with_text text (h ∷ hs) = same_text h text

add_to_history : List ℕ → List (List ℕ) → List (List ℕ)
add_to_history text history =
    let trimmed = trim_units text in
    if length trimmed == 0
    then history
    else if starts_with_text trimmed history
    then history
    else take 100 (trimmed ∷ history)

-- The index after `navigateHistory(-1)`, for up, none where nothing changes.
abbrev pub older_index : List (List ℕ) → Option ℕ → Option ℕ
older_index history none = if ltb 0 (length history) then some 0 else none
older_index history (some i) = if ltb (suc i) (length history) then some (suc i) else none

abbrev pub show_older : Option ℕ → Editor → Editor
show_older none ed = record ed { last_action = none }
show_older (some i) ed =
    let saved = if is_some (ed.history_index) then ed else push_undo_snapshot ed in
    record saved {
      state = set_text_internal (get_or_else (get_elem? (ed.history) i) []);
      last_action = none;
      history_index = some i;
    }

-- `navigateHistory(-1)`
unfoldable pub navigate_up : Editor → Editor
navigate_up ed = show_older (older_index (ed.history) (ed.history_index)) ed

abbrev pub show_newer : Option ℕ → Editor → Editor
show_newer none ed = record ed { last_action = none }
show_newer (some zero) ed = record ed {
  state = set_text_internal [];
  last_action = none;
  history_index = none;
}
show_newer (some (suc i)) ed =
    if leb (length (ed.history)) i then record ed { last_action = none } else record ed {
      state = set_text_internal (get_or_else (get_elem? (ed.history) i) []);
      last_action = none;
      history_index = some i;
    }

-- `navigateHistory(1)`
unfoldable pub navigate_down : Editor → Editor
navigate_down ed =
    if length (ed.history) == 0
    then record ed { last_action = none }
    else show_newer (ed.history_index) ed
