-- ===== src/Solve.antt =====
-- crates/pangs-solve and crates/pangs-pir: the parts of the solver that are modelled.
pub mod Lane
pub mod Field
pub mod Cfl
pub mod Pag
