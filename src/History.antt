-- ===== src/History.antt =====
-- The history of commands, src/hooks/useCommandHistoryState.ts with inputTracker.ts of
-- src/features/command-history/core/.
pub mod Buckets
pub mod Bounds
pub mod Removal
pub mod Input
pub mod Typing
mod Tests
