-- ===== src/Solve/Cfl.antt =====
-- crates/pangs-solve/src/cfl.rs: the callee queries over the program assignment graph.
pub mod Search
pub mod Graph
pub mod Bindings
pub mod Query
pub mod Report
pub mod Fallback
