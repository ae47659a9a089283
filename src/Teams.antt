-- ===== src/Teams.antt =====
-- The mailboxes of packages/pi-teams (packages/pi-teams/src/utils).
pub mod Lock
mod Tests
