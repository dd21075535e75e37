-- ===== src/Layout.antt =====
-- The widget layout, src/layout/model.ts: the slots and the changes of one slot (Slots), and the
-- check of a stored layout (Structure, Stored). The other modules hold proofs.
pub mod Slots
pub mod Structure
pub mod Stored
pub mod Moves
pub mod Dedupe
pub mod Keys
pub mod Tidy
pub mod Hook
mod SlotKeys
mod Shifting
pub mod Splits
pub mod Loops
mod Tests
