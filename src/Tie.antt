-- ===== src/Tie.antt =====
-- Tie, the road mode (frontend/src/modes/tie).
pub mod Traffic
pub mod Weather
pub mod Parking
pub mod Charging
pub mod Layers
pub mod Map
pub mod Search
pub mod Maintenance
