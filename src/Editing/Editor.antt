-- ===== src/Editing/Editor.antt =====
-- Class `Editor`: the text, its cursor and the operations on them
-- (packages/tui/src/components/editor.ts). A text is the list of its UTF-16 units.
pub mod Graphemes
pub mod Words
pub mod Kill
pub mod Yank
pub mod Texts
use co_mono.Base.{
  ℕ, zero, suc, ◌+◌, ◌-◌, Bool, true, false, not, ◌&&◌, ◌||◌, Option, none, some, List, [], ◌∷◌,
  ◌++◌, ◌==◌, ltb, leb, if◌then◌else◌, get_or_else, length, take, drop, get_elem?, any, last?, set,
  splice, is_space, split_lines, join_lines,
}
use co_mono.Editing.UndoStack

-- `lastAction`
pub data Action : Type 0 where
  kill yank type_word : Action

pub record EditorState : Type 0 where
  pub lines : List (List ℕ)
  pub cursor_line : ℕ
  pub cursor_col : ℕ

-- The column to which vertical moves stick, the scrolling and the completion menu are left out.
-- `history_index` is none for -1.
pub record Editor : Type 0 where
  pub state : EditorState
  pub history : List (List ℕ)
  pub history_index : Option ℕ
  pub kill_ring : List (List ℕ)
  pub last_action : Option Action
  pub undo_stack : List EditorState

-- `Intl.Segmenter`: the graphemes of a text.
pub record Segmenter : Type 0 where
  pub segment : List ℕ → List (List ℕ)

-- `this.state.lines[this.state.cursorLine] || ""`
abbrev pub current_line : EditorState → List ℕ
current_line st = get_or_else (get_elem? (st.lines) (st.cursor_line)) []

abbrev pub before_cursor : EditorState → List ℕ
before_cursor st = take (st.cursor_col) (current_line st)

abbrev pub after_cursor : EditorState → List ℕ
after_cursor st = drop (st.cursor_col) (current_line st)

unfoldable pub get_text : EditorState → List ℕ
get_text st = join_lines (st.lines)

unfoldable pub push_undo_snapshot : Editor → Editor
push_undo_snapshot ed = record ed { undo_stack = UndoStack.push (ed.state) (ed.undo_stack) }

-- `text.replace(/\r\n/g, "\n").replace(/\r/g, "\n")`
unfoldable pub normalize : (after_return : Bool) → List ℕ → List ℕ
normalize after_return [] = []
normalize after_return (c ∷ cs) =
    let ended = normalize true cs in
    let plain = normalize false cs in
    if c == 0x0d then 0x0a ∷ ended else if c == 0x0a && after_return then plain else c ∷ plain

-- The inserted lines behind the first, with the text after the cursor at the end of the last.
abbrev pub close_lines : List ℕ → List (List ℕ) → List ℕ → List (List ℕ)
close_lines line [] after = (line ++ after) ∷ []
close_lines line (m ∷ ms) after = line ∷ close_lines m ms after

abbrev pub last_line : List ℕ → List (List ℕ) → List ℕ
last_line line [] = line
last_line line (m ∷ ms) = last_line m ms

-- The lines of `insertTextAtCursorInternal`.
unfoldable pub insert_lines : List (List ℕ) → EditorState → EditorState
insert_lines [] st = st
insert_lines (line ∷ []) st = record st {
  lines = set (st.lines) (st.cursor_line) (before_cursor st ++ (line ++ after_cursor st));
  cursor_col = st.cursor_col + length line;
}
insert_lines (line ∷ m ∷ ms) st = record {
  lines =
      take (st.cursor_line) (st.lines)
      ++ (before_cursor st ++ line)
        ∷ (close_lines m ms (after_cursor st) ++ drop (suc (st.cursor_line)) (st.lines));
  cursor_line = st.cursor_line + length (m ∷ ms);
  cursor_col = length (last_line m ms);
}

unfoldable pub insert_text_internal : List ℕ → EditorState → EditorState
unfolding normalize insert_lines
insert_text_internal text st =
    if length text == 0 then st else insert_lines (split_lines (normalize false text)) st

unfoldable pub insert_text_at_cursor : List ℕ → Editor → Editor
unfolding push_undo_snapshot insert_text_internal
insert_text_at_cursor text ed = if length text == 0 then ed else record (push_undo_snapshot ed) {
  state = insert_text_internal text (ed.state);
  last_action = none;
  history_index = none;
}

abbrev pub is_type_word : Option Action → Bool
is_type_word (some type_word) = true
is_type_word _ = false

-- `isWhitespaceChar`
abbrev pub is_whitespace_char : List ℕ → Bool
is_whitespace_char g = any is_space g

-- `insertCharacter` for a key that was typed.
unfoldable pub insert_character : List ℕ → Editor → Editor
unfolding push_undo_snapshot
insert_character char ed =
    let st = ed.state in
    let saved =
      if is_whitespace_char char || not (is_type_word (ed.last_action))
      then push_undo_snapshot ed
      else ed in
    record saved {
      state = record st {
        lines = set (st.lines) (st.cursor_line) (before_cursor st ++ (char ++ after_cursor st));
        cursor_col = st.cursor_col + length char;
      };
      last_action = some type_word;
      history_index = none;
    }

unfoldable pub add_new_line : Editor → Editor
unfolding push_undo_snapshot
add_new_line ed =
    let st = ed.state in
    record (push_undo_snapshot ed) {
      state = record {
        lines =
            splice (set (st.lines) (st.cursor_line) (before_cursor st)) (suc (st.cursor_line)) 0
              (after_cursor st ∷ []);
        cursor_line = suc (st.cursor_line);
        cursor_col = 0;
      };
      last_action = none;
      history_index = none;
    }

abbrev pub undo_to : Option EditorState × List EditorState → Editor → Editor
undo_to (none, stack) ed = record ed { history_index = none; undo_stack = stack }
undo_to (some snapshot, stack) ed = record ed {
  state = snapshot;
  history_index = none;
  last_action = none;
  undo_stack = stack;
}

unfoldable pub undo : Editor → Editor
undo ed = undo_to (UndoStack.pop (ed.undo_stack)) ed
