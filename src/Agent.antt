-- ===== src/Agent.antt =====
-- packages/agent/src: the agent loop and the class `Agent` around it.
pub mod Event
pub mod Response
pub mod Tools
pub mod Loop
pub mod Class
mod Tests
