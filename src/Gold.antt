-- ===== src/Gold.antt =====
-- The Gold component (packages/helios_core/gold): the price index's areas.
pub mod Boundary
pub mod BoundaryText
pub mod Grid
mod Examples
