-- ===== src/Compaction.antt =====
-- Compaction of a long session and the summary of a branch: compaction.ts, utils.ts and
-- branch-summarization.ts of packages/coding-agent/src/core/compaction.
pub mod Tokens
pub mod CutPoint
pub mod Files
pub mod Prepare
pub mod Branch
mod Tests
