-- ===== src/Editing/Objects/Tests.antt =====
-- A state that is saved, changed in place and restored (packages/tui/src/undo-stack.ts).
use co_mono.Base.{◌≡◌, refl, List, [], ◌∷◌, arith}
use co_mono.Editing.Objects.{
  Objects, Access, save, undo, write, access_all, value_access_all, values,
}
use co_mono.Editing.Objects.Accesses.{AreSeparate, access_all-values}

-- One line, no snapshot.
abbrev fresh : Objects
fresh = record {
  heap = record {
    objects = λ p. record { lines = 0; cursor_line = 0; cursor_col = 0 };
    arrays = λ a. (7 ∷ []) ∷ [];
    next_object = 1;
    next_array = 1;
  };
  live = 0;
  stack = [];
}

fresh-AreSeparate : AreSeparate fresh
fresh-AreSeparate = record {
  live_known = omega arith;
  array_known = omega arith;
  detached = tt;
  apart = tt;
}

abbrev edits : List Access
edits = save ∷ write (λ ls. (8 ∷ []) ∷ ls) ∷ undo ∷ []

access_all-values_example :
    AreSeparate (access_all edits fresh)
    × (values (access_all edits fresh) ≡ value_access_all edits (values fresh))
access_all-values_example = access_all-values edits fresh fresh-AreSeparate

edits_undone : (values (access_all edits fresh)).state.lines ≡ (7 ∷ []) ∷ []
unfolding access_all
edits_undone = refl
