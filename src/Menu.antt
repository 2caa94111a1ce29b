-- ===== src/Menu.antt =====
-- The Menu component's read side: packages/helios_core/domains/menu/selection.py.
pub mod Model
pub mod Context
pub mod Heads
pub mod Graph
pub mod Paths
pub mod Rank
pub mod Session
pub mod Content
pub mod Price
pub mod Organization
pub mod Select
pub mod History
mod Samples
mod Examples
mod HistoryExamples
