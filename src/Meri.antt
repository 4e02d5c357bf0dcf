-- ===== src/Meri.antt =====
-- Meri, the marine mode (frontend/src/modes/meri).
pub mod Replay
pub mod Stream
pub mod Hub
pub mod Socket
pub mod Trail
pub mod Ship
pub mod Sea
pub mod VesselLink
pub mod App
pub mod Display
pub mod Live
pub mod Map
