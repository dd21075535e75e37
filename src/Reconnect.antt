-- ===== src/Reconnect.antt =====
-- The life of a session's connection: why it ended (Reason), how long to wait (Policy), the timers
-- and attempts (Runtime), and the change to another connection (Lifecycle).
pub mod Reason
pub mod Policy
pub mod Connections
pub mod Runtime
pub mod Retries
pub mod Lifecycle
mod Tests
