-- ===== src/Meri/Replay.antt =====
-- Playback of recorded tracks: hooks/useFleetReplay.ts, hooks/useTrackReplay.ts and the replay part
-- of components/Map.tsx.
pub mod Pose
pub mod Fleet
pub mod Clock
pub mod Track
pub mod Ghost
