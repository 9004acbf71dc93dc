-- ===== src/Examples.antt =====
-- Concrete hosts, contracts and contexts, and the theorems applied to them.
pub mod Sample
mod Witnesses
mod Effects
