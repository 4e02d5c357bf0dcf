-- ===== src/Raide.antt =====
-- Raide, the rail mode (frontend/src/modes/raide).
pub mod Trains
pub mod Selection
pub mod Layers
pub mod Fleet
pub mod Map
