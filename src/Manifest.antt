-- ===== src/Manifest.antt =====
-- crates/pangs-manifest/src/lib.rs: the disposition manifest and its checks.
pub mod Strategy
pub mod Key
pub mod Facts
pub mod Records
pub mod Document
pub mod Canonical
mod Tests
