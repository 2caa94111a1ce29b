-- ===== src/Api.antt =====
-- The API's opaque tokens (apps/api): pagination cursors and menu item ids.
pub mod Json
pub mod Codec
pub mod ItemId
pub mod Cursor
mod Samples
mod Examples
