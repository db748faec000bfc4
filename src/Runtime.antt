-- ===== src/Runtime.antt =====
-- crates/runtime: the App, the scheduler and the bootstrap.
pub mod Handoff
pub mod Scheduler
pub mod Host
pub mod Topics
pub mod Manager
pub mod App
pub mod Config
pub mod Bootstrap
pub mod Process
