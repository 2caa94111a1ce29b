-- ===== src/Discovery.antt =====
-- The discovery app's lifecycle of venues (apps/discovery).
pub mod Closure
mod Examples
