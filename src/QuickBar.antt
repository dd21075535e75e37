-- ===== src/QuickBar.antt =====
-- The quick command bar, src/main/hooks/useQuickBarState.ts: its data (Model), the check of a stored
-- configuration (Config) and the operations (Actions). The other modules hold proofs.
pub mod Model
pub mod Config
pub mod Actions
mod Ids
pub mod Loading
mod Places
pub mod Reordering
pub mod Invariant
pub mod Placing
pub mod Steps
pub mod Views
mod Tests
