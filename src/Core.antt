-- ===== src/Core.antt =====
-- crates/core: the platform primitives.
pub mod EntryPatch
pub mod Gate
pub mod Error
pub mod MethodSlot
pub mod Original
pub mod Hook
pub mod Bridge
pub mod Debug
pub mod Mailbox
pub mod Route
pub mod Event
