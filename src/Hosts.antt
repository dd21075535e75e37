-- ===== src/Hosts.antt =====
-- The list of hosts, src/widgets/profiles/components/hostWidgetModel.ts.
pub mod Groups
pub mod Shown
mod Tests
