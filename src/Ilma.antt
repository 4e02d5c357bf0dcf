-- ===== src/Ilma.antt =====
-- Ilma, the air mode (frontend/src/modes/ilma).
pub mod Aircraft
pub mod Layers
pub mod App
pub mod Map
pub mod Flight
