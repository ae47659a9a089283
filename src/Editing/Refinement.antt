-- ===== src/Editing/Refinement.antt =====
-- The editor of packages/tui/src/components/editor.ts implements the reference on one text.
pub mod Zipper
pub mod Text
pub mod Branches
pub mod States
pub mod View
pub mod Lands
pub mod Beside
pub mod Graphemes
pub mod Back
pub mod Forward
pub mod Insert
pub mod Inserted
pub mod Whole
pub mod Undo
pub mod Commands
pub mod Restore
pub mod KillYank
