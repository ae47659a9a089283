-- ===== src/Channels.antt =====
-- The chat bridge of packages/pi-channels (packages/pi-channels/src/bridge).
pub mod Command
pub mod Bridge
mod Tests
