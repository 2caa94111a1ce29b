-- ===== src/Identity.antt =====
-- The Identity component (packages/helios_core/identity).
pub mod Scope
pub mod Resolution
pub mod Lineage
pub mod Observe
pub mod Change
mod Examples
mod ObserveExamples
mod ChangeExamples
