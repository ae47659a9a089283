-- ===== src/Editing/Reference.antt =====
-- A reference for the editor of packages/tui/src/components/editor.ts: one text, cut where the cursor
-- is, without lines and columns.
use co_mono.Base.{
  ℕ, zero, suc, ◌-◌, leb, Bool, true, false, not, ◌||◌, Option, none, some, List, [], ◌∷◌, ◌++◌,
  ◌==◌, if◌then◌else◌, get_or_else, is_some, length, take, drop, get_elem?, last?, reverse,
}
use co_mono.Editing.KillRing.{PushOptions}
use co_mono.Editing.KillRing
use co_mono.Editing.UndoStack
use co_mono.Editing.Editor.{
  Action, kill, yank, type_word, Segmenter, normalize, is_type_word, is_whitespace_char,
}
use co_mono.Editing.Editor.Graphemes.{grapheme_length, first?}
use co_mono.Editing.Editor.Words.{word_start, word_end}
use co_mono.Editing.Editor.Kill.{is_kill}
use co_mono.Editing.Editor.Texts.{same_text, older_index}
use co_mono.Editing.Command.{
  Command, insert_text, type_char, set_whole, new_line, backspace, forward_delete, left, right,
  line_start, line_end, word_left, word_right, kill_line_start, kill_line_end, kill_word_left,
  kill_word_right, yank_last, older_prompt, newer_prompt, undo_last,
}

pub record Text : Type 0 where
  pub before : List ℕ
  pub after : List ℕ

pub record Reference : Type 0 where
  pub text : Text
  pub history : List (List ℕ)
  pub history_index : Option ℕ
  pub kill_ring : List (List ℕ)
  pub last_action : Option Action
  pub undo_stack : List Text

-- What is in front of the first line end, and what is behind the last one.
abbrev pub row : List ℕ → List ℕ
row [] = []
row (c ∷ cs) = let rest = row cs in if c == 0x0a then [] else c ∷ rest

abbrev pub column : List ℕ → List ℕ
column cs = reverse (row (reverse cs))

-- How much of the text a command reaches: `size` of it on the line, and the line end alone where the
-- line has nothing more.
abbrev pub reach : (List ℕ → ℕ) → List ℕ → ℕ
reach size line = if length line == 0 then 1 else size line

abbrev pub keep_back : ℕ → Text → List ℕ
keep_back n t = take (length (t.before) - n) (t.before)

abbrev pub cut_back : ℕ → Text → Text
cut_back n t = record t { before = keep_back n t }

abbrev pub cut_forward : ℕ → Text → Text
cut_forward n t = record t { after = drop n (t.after) }

abbrev pub shift_back : ℕ → Text → Text
shift_back n t = record {
  before = keep_back n t;
  after = drop (length (t.before) - n) (t.before) ++ t.after;
}

abbrev pub shift_forward : ℕ → Text → Text
shift_forward n t = record { before = t.before ++ take n (t.after); after = drop n (t.after) }

abbrev pub put : List ℕ → Text → Text
put cs t = record t { before = t.before ++ cs }

abbrev pub save : Reference → Reference
save r = record r { undo_stack = UndoStack.push (r.text) (r.undo_stack) }

-- An edit that saves the text first.
abbrev pub edit : Text → Reference → Reference
edit t r = record (save r) { text = t; last_action = none; history_index = none }

abbrev pub move : Text → Reference → Reference
move t r = record r { text = t; last_action = none }

abbrev pub cut : List ℕ → Bool → Text → Reference → Reference
cut cs prepend t r = record (save r) {
  text = t;
  kill_ring =
      KillRing.push cs (record { prepend = prepend; accumulate = is_kill (r.last_action) })
        (r.kill_ring);
  last_action = some kill;
  history_index = none;
}

abbrev pub leave_history : Reference → Reference
leave_history r = record r { history_index = none }

abbrev pub nothing : Reference → Reference
nothing r = record r { last_action = none; history_index = none }

abbrev pub rest : Reference → Reference
rest r = record r { last_action = none }

abbrev pub delete_back : (List ℕ → ℕ) → Reference → Reference
delete_back size r =
    let n = reach size (column (r.text.before)) in
    if length (r.text.before) == 0 then nothing r else edit (cut_back n (r.text)) r

abbrev pub delete_forward : (List ℕ → ℕ) → Reference → Reference
delete_forward size r =
    let n = reach size (row (r.text.after)) in
    if length (r.text.after) == 0 then nothing r else edit (cut_forward n (r.text)) r

abbrev pub move_back : (List ℕ → ℕ) → Reference → Reference
move_back size r =
    let n = reach size (column (r.text.before)) in
    if length (r.text.before) == 0 then rest r else move (shift_back n (r.text)) r

abbrev pub move_forward : (List ℕ → ℕ) → Reference → Reference
move_forward size r =
    let n = reach size (row (r.text.after)) in
    if length (r.text.after) == 0 then rest r else move (shift_forward n (r.text)) r

abbrev pub kill_back : (List ℕ → ℕ) → Reference → Reference
kill_back size r =
    let n = reach size (column (r.text.before)) in
    if length (r.text.before) == 0
    then leave_history r
    else cut (drop (length (r.text.before) - n) (r.text.before)) true (cut_back n (r.text)) r

abbrev pub kill_forward : (List ℕ → ℕ) → Reference → Reference
kill_forward size r =
    let n = reach size (row (r.text.after)) in
    if length (r.text.after) == 0
    then leave_history r
    else cut (take n (r.text.after)) false (cut_forward n (r.text)) r

-- A text that replaces the other has the cursor at its end.
abbrev pub whole : List ℕ → Text
whole cs = record { before = normalize false cs; after = [] }

abbrev pub contents : Text → List ℕ
contents t = t.before ++ t.after

abbrev pub paste : List ℕ → Reference → Reference
paste cs r = if length cs == 0 then r else edit (put (normalize false cs) (r.text)) r

abbrev pub type_text : List ℕ → Reference → Reference
type_text cs r =
    let saved = if is_whitespace_char cs || not (is_type_word (r.last_action)) then save r else r in
    record saved { text = put cs (r.text); last_action = some type_word; history_index = none }

abbrev pub replace : List ℕ → Reference → Reference
replace cs r =
    let saved = if same_text (contents (r.text)) cs then r else save r in
    record saved { text = whole cs; last_action = none; history_index = none }

abbrev pub yank_put : Option (List ℕ) → Reference → Reference
yank_put none r = r
yank_put (some cs) r = record (save r) {
  text = put cs (r.text);
  last_action = some yank;
  history_index = none;
}

abbrev pub show : Option ℕ → List ℕ → Reference → Reference
show index cs r = record r { text = whole cs; last_action = none; history_index = index }

abbrev pub entry : ℕ → Reference → List ℕ
entry i r = get_or_else (get_elem? (r.history) i) []

abbrev pub older : Option ℕ → Reference → Reference
older none r = rest r
older (some i) r = show (some i) (entry i r) (if is_some (r.history_index) then r else save r)

abbrev pub newer : Option ℕ → Reference → Reference
newer none r = rest r
newer (some zero) r = show none [] r
newer (some (suc i)) r = if leb (length (r.history)) i then rest r else show (some i) (entry i r) r

abbrev pub restore : Option Text × List Text → Reference → Reference
restore (none, stack) r = record r { history_index = none; undo_stack = stack }
restore (some t, stack) r = record r {
  text = t;
  last_action = none;
  history_index = none;
  undo_stack = stack;
}

module _ (segmenter : Segmenter) where
  abbrev pub last_size : List ℕ → ℕ
  last_size line = grapheme_length (last? (segmenter.segment line))

  abbrev pub first_size : List ℕ → ℕ
  first_size line = grapheme_length (first? (segmenter.segment line))

  abbrev pub word_left_size : List ℕ → ℕ
  word_left_size line = length line - word_start segmenter (length line) line

  abbrev pub word_right_size : List ℕ → ℕ
  word_right_size line = word_end segmenter 0 line

  unfoldable pub respond : Command → Reference → Reference
  unfolding normalize KillRing.push UndoStack.push UndoStack.pop
  respond (insert_text cs) r = paste cs r
  respond (type_char cs) r = type_text cs r
  respond (set_whole cs) r = replace cs r
  respond new_line r = edit (put (0x0a ∷ []) (r.text)) r
  respond backspace r = delete_back last_size r
  respond forward_delete r = delete_forward first_size r
  respond left r = move_back last_size r
  respond right r = move_forward first_size r
  respond line_start r = move (shift_back (length (column (r.text.before))) (r.text)) r
  respond line_end r = move (shift_forward (length (row (r.text.after))) (r.text)) r
  respond word_left r = move_back word_left_size r
  respond word_right r = move_forward word_right_size r
  respond kill_line_start r = kill_back length r
  respond kill_line_end r = kill_forward length r
  respond kill_word_left r = kill_back word_left_size r
  respond kill_word_right r = kill_forward word_right_size r
  respond yank_last r = yank_put (KillRing.peek (r.kill_ring)) r
  respond older_prompt r = older (older_index (r.history) (r.history_index)) r
  respond newer_prompt r = if length (r.history) == 0 then rest r else newer (r.history_index) r
  respond undo_last r = restore (UndoStack.pop (r.undo_stack)) r

  abbrev pub respond_all : List Command → Reference → Reference
  respond_all [] r = r
  respond_all (command ∷ commands) r = respond_all commands (respond command r)
