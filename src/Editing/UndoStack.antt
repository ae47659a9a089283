-- ===== src/Editing/UndoStack.antt =====
-- Class `UndoStack` (packages/tui/src/undo-stack.ts) over values, which nothing can change in place. The
-- stack is its array, the latest snapshot last. Editing/Objects has the stack over mutable objects, with
-- the deep clone that `push` makes.
use mathlib.Core.List.{reverse-append, reverse-reverse}
use co_mono.Base.{◌≡◌, ◌∙◌, ap, Option, none, some, List, [], ◌∷◌, ◌++◌, reverse, reverse}

module _ {ℓ} {S : Type ℓ} where
  unfoldable pub push : S → List S → List S
  push s stack = stack ++ s ∷ []

  abbrev pop_first : List S → Option S × List S
  pop_first [] = (none, [])
  pop_first (s ∷ older) = (some s, reverse older)

  unfoldable pub pop : List S → Option S × List S
  pop stack = pop_first (reverse stack)

  abbrev pub clear : List S → List S
  clear stack = []

  pub pop-push : (s : S) (stack : List S) → pop (stack ++ s ∷ []) ≡ (some s, stack)
  unfolding pop
  pop-push s stack =
      ap pop_first (reverse-append stack (s ∷ [])) ∙ ap (λ xs. (some s, xs)) (reverse-reverse stack)
