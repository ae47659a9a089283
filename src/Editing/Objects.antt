-- ===== src/Editing/Objects.antt =====
-- The undo stack over mutable objects: class `UndoStack` (packages/tui/src/undo-stack.ts) with the state
-- object of class `Editor` (packages/tui/src/components/editor.ts), which the editor changes in place.
pub mod Detached
pub mod Accesses
mod Tests
use co_mono.Base.{
  ℕ, suc, Bool, Option, none, some, List, [], ◌∷◌, ◌==◌, if◌then◌else◌, map, reverse,
}
use co_mono.Editing.UndoStack
use co_mono.Editing.Editor.{EditorState}

-- `EditorState` as an object: its array of lines is an object of its own, here its address.
pub record StateObject : Type 0 where
  pub lines : ℕ
  pub cursor_line : ℕ
  pub cursor_col : ℕ

-- The objects and the arrays by their addresses, and the first addresses that are free.
pub record Heap : Type 0 where
  pub objects : ℕ → StateObject
  pub arrays : ℕ → List (List ℕ)
  pub next_object : ℕ
  pub next_array : ℕ

abbrev pub update {ℓ} : {A : Type ℓ} → (ℕ → A) → ℕ → A → ℕ → A
update f p v q = if q == p then v else f q

-- An object with a new array.
abbrev pub new_object : List (List ℕ) → (cursor_line cursor_col : ℕ) → Heap → ℕ × Heap
new_object ls line col h = (
  h.next_object,
  record {
    objects =
        update (h.objects) (h.next_object)
          (record { lines = h.next_array; cursor_line = line; cursor_col = col });
    arrays = update (h.arrays) (h.next_array) ls;
    next_object = suc (h.next_object);
    next_array = suc (h.next_array);
  },
)

-- `structuredClone`: the object and its array are copied.
pub structured_clone : ℕ → Heap → ℕ × Heap
structured_clone p h =
    let o = h.objects p in new_object (h.arrays (o.lines)) (o.cursor_line) (o.cursor_col) h

-- `this.state` and the stack's array, read from its end.
pub record Objects : Type 0 where
  pub heap : Heap
  pub live : ℕ
  pub stack : List ℕ

-- `this.undoStack.push(this.state)`
pub push_object : Objects → Objects
unfolding structured_clone
push_object m =
    let (p, h) = structured_clone (m.live) (m.heap) in
    record { heap = h; live = m.live; stack = p ∷ m.stack }

-- `Object.assign(this.state, snapshot)`
abbrev pub assign : (target source : ℕ) → Heap → Heap
assign target source h = record h { objects = update (h.objects) target (h.objects source) }

-- `this.undoStack.pop()` and what `undo` does with the snapshot.
pub pop_object : Objects → Objects
pop_object m = elim (m.stack) [
  | [] ↦ m
  | p ∷ older ↦ record { heap = assign (m.live) p (m.heap); live = m.live; stack = older }
]

-- What the editor does to its state. `write` is an assignment to a line or a `splice`: it changes the
-- array in place. `replace` assigns a new array. `renew` is `submitValue`, which makes a new state and
-- clears the stack.
pub data Access : Type 0 where
  save undo renew : Access
  write : (List (List ℕ) → List (List ℕ)) → Access
  replace : List (List ℕ) → Access
  move : (cursor_line cursor_col : ℕ) → Access

abbrev pub write_lines : (List (List ℕ) → List (List ℕ)) → ℕ → Heap → Heap
write_lines f p h =
    let a = (h.objects p).lines in record h { arrays = update (h.arrays) a (f (h.arrays a)) }

abbrev pub replace_lines : List (List ℕ) → ℕ → Heap → Heap
replace_lines ls p h = record {
  objects = update (h.objects) p (record (h.objects p) { lines = h.next_array });
  arrays = update (h.arrays) (h.next_array) ls;
  next_object = h.next_object;
  next_array = suc (h.next_array);
}

abbrev pub move_cursor : (line col p : ℕ) → Heap → Heap
move_cursor line col p h = record h {
  objects = update (h.objects) p (record (h.objects p) { cursor_line = line; cursor_col = col });
}

pub access : Access → Objects → Objects
unfolding push_object pop_object
access save m = push_object m
access undo m = pop_object m
access renew m =
    let (p, h) = new_object ([] ∷ []) 0 0 (m.heap) in record { heap = h; live = p; stack = [] }
access (write f) m = record m { heap = write_lines f (m.live) (m.heap) }
access (replace ls) m = record m { heap = replace_lines ls (m.live) (m.heap) }
access (move line col) m = record m { heap = move_cursor line col (m.live) (m.heap) }

pub access_all : List Access → Objects → Objects
unfolding access
access_all [] m = m
access_all (a ∷ rest) m = access_all rest (access a m)

-- The same on values, which nothing shares: the state, and the stack of class `UndoStack`.
pub record Values : Type 0 where
  pub state : EditorState
  pub stack : List EditorState

abbrev pub restored : Option EditorState × List EditorState → Values → Values
restored (none, stack) v = record { state = v.state; stack = stack }
restored (some s, stack) v = record { state = s; stack = stack }

pub value_access : Access → Values → Values
value_access save v = record v { stack = UndoStack.push (v.state) (v.stack) }
value_access undo v = restored (UndoStack.pop (v.stack)) v
value_access renew v = record {
  state = record { lines = [] ∷ []; cursor_line = 0; cursor_col = 0 };
  stack = UndoStack.clear (v.stack);
}
value_access (write f) v = record v { state = record (v.state) { lines = f ((v.state).lines) } }
value_access (replace ls) v = record v { state = record (v.state) { lines = ls } }
value_access (move line col) v = record v {
  state = record (v.state) { cursor_line = line; cursor_col = col };
}

pub value_access_all : List Access → Values → Values
unfolding value_access
value_access_all [] v = v
value_access_all (a ∷ rest) v = value_access_all rest (value_access a v)

-- What an object holds.
abbrev pub value : Heap → ℕ → EditorState
value h p =
    let o = h.objects p in
    record { lines = h.arrays (o.lines); cursor_line = o.cursor_line; cursor_col = o.cursor_col }

abbrev pub values : Objects → Values
values m = record {
  state = value (m.heap) (m.live);
  stack = reverse (map (value (m.heap)) (m.stack));
}
