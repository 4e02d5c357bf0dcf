-- ===== src/Shared.antt =====
-- What the modes share (frontend/src/shared).
pub mod Geo
pub mod Sort
pub mod Style
pub mod Ids
pub mod Markers
pub mod Sheet
