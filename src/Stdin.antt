-- ===== src/Stdin.antt =====
-- packages/tui/src/stdin-buffer.ts: terminal input, cut into complete key sequences. A text is the
-- list of its UTF-16 code units.
pub mod Sequence
pub mod Extract
pub mod Buffer
mod Tests
