-- ===== src/Plugins.antt =====
-- The plugins of the runtime (crates/translation_dump, crates/unlock_fps, crates/debug, crates/recon).
pub mod Debug
pub mod Dump
pub mod Fps
pub mod Recon
