-- ===== src/Editing.antt =====
-- The editor of packages/tui (packages/tui/src/components/editor.ts) and what it keeps beside its text
-- (packages/tui/src/kill-ring.ts, packages/tui/src/undo-stack.ts).
pub mod KillRing
pub mod UndoStack
pub mod Editor
pub mod Objects
pub mod Command
pub mod Reference
pub mod Refinement
mod Tests
mod EditorTests
