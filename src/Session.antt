-- ===== src/Session.antt =====
-- packages/coding-agent/src/core/session-manager.ts: sessions as append-only trees in JSONL files.
pub mod Entry
pub mod Manager
pub mod Tree
pub mod Append
pub mod Walk
pub mod Context
pub mod Load
pub mod Persist
pub mod Reach
mod Tests
pub mod Recovery
