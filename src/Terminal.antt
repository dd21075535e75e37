-- ===== src/Terminal.antt =====
-- The gate of terminal creation, src/features/terminal/core/runtimeLifecycle.ts.
pub mod Gate
pub mod Creations
pub mod Cancelled
pub mod Pending
mod Tests
