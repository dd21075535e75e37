-- ===== src/Workspace.antt =====
-- The session workspace, src/features/session/core/workspaceReducer.ts: the tree of panes (Tree),
-- the session groups (Groups) and the reducer over both (Reducer). The other modules hold proofs.
pub mod Tree
pub mod Reshape
pub mod Groups
pub mod Reducer
pub mod Counts
pub mod Grouping
pub mod Actives
pub mod Finding
pub mod Soundness
pub mod Invariant
pub mod Effects
pub mod Detached
pub mod Ratio
pub mod Order
pub mod Colors
mod Tests
