-- ===== src/Sessions.antt =====
-- The session hook: src/hooks/useSessionStateCore.ts, with the commands of
-- src/features/session/core/commands.ts and the calls of src/hooks/useSessionWorkspace.ts.
pub mod Model
pub mod Events
pub mod Commands
pub mod Handlers
pub mod Statuses
pub mod Openings
pub mod HostKeys
pub mod Questions
pub mod Agreement
pub mod Consistency
pub mod Preservation
pub mod Additions
pub mod Closing
pub mod Rows
pub mod Delays
pub mod Endings
pub mod Messages
pub mod Cancellation
pub mod Races
pub mod Desk
pub mod DeskEffects
pub mod Refinement
pub mod Inputs
pub mod Queueing
pub mod InputOrder
pub mod Sending
mod InputTests
mod Tests
mod QuestionTests
