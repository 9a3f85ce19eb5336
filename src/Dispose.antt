-- ===== src/Dispose.antt =====
-- crates/pangs-dispose/src/lib.rs: the disposition policy over the facts of a manifest.
pub mod Config
pub mod Guards
pub mod Cascade
pub mod Overrides
pub mod Groups
pub mod Policy
pub mod Demotion
pub mod Samples
mod Tests
