-- ===== src/Meri/Display.antt =====
-- Which vessel the detail panel shows: `liveVessel`, `replayVessel`, `trackVessel` and
-- `displayedVessel` of MeriApp.tsx.
pub mod Panel
use fintraffic.Base.{
  ℕ, Bool, true, false, not, ◌&&◌, Option, none, some, ◌==◌, if◌then◌else◌, String,
}
use fintraffic.Base.Dict.{Dict, lookup}
use fintraffic.Meri.Stream.{Vessel}
use fintraffic.Meri.Replay.Fleet.{SelectedPose}

-- The name falls back on that of `replayMeta`, which is empty where the fleet has none.
abbrev pub meta_name : Option String → String
meta_name none = ""
meta_name (some name) = name

module _ {A : Type 0} where
  unfoldable pub live_vessel : Option ℕ → Dict (Vessel A) → Option (Vessel A)
  unfolding lookup
  live_vessel none vessels = none
  live_vessel (some mmsi) vessels = lookup mmsi vessels

  -- A known vessel with the pose of a replay in place of its own.
  abbrev pub posed : Vessel A → SelectedPose A → Vessel A
  posed known pose = record known {
    lat = pose.lat;
    lng = pose.lng;
    cog = pose.cog;
    hdg = some pose.cog;
    sog = pose.sog;
    ts = pose.ts;
  }

  -- What is known of a vessel that only the replay has: its number and an undefined status.
  abbrev pub unknown_vessel : ℕ → SelectedPose A → Vessel A
  unknown_vessel mmsi pose = record {
    mmsi = mmsi;
    lat = pose.lat;
    lng = pose.lng;
    sog = pose.sog;
    cog = pose.cog;
    hdg = some pose.cog;
    nav_stat = 15;
    rot = none;
    ts = pose.ts;
    source = none;
    name = none;
    call_sign = none;
    dest = none;
    ship_type = none;
    imo = none;
    draught = none;
    eta = none;
  }

  abbrev pub replayed : ℕ → SelectedPose A → Option (Vessel A) → Vessel A
  replayed mmsi pose none = unknown_vessel mmsi pose
  replayed mmsi pose (some known) = record (posed known pose) {
    mmsi = mmsi;
    name = some (meta_name known.name);
  }

  unfoldable pub replay_vessel :
      Option ℕ → Option (SelectedPose A) → Dict (Vessel A) → Option (Vessel A)
  unfolding lookup
  replay_vessel none pose vessels = none
  replay_vessel (some mmsi) none vessels = none
  replay_vessel (some mmsi) (some pose) vessels =
      if not (pose.mmsi == mmsi) then none else some (replayed mmsi pose (lookup mmsi vessels))

  abbrev pub tracked : SelectedPose A → Option (Vessel A) → Option (Vessel A)
  tracked pose none = none
  tracked pose (some known) = some (posed known pose)

  unfoldable pub track_vessel :
      Option ℕ → Option (SelectedPose A) → Dict (Vessel A) → Option (Vessel A)
  unfolding lookup
  track_vessel none pose vessels = none
  track_vessel (some mmsi) none vessels = none
  track_vessel (some mmsi) (some pose) vessels =
      if not (pose.mmsi == mmsi) then none else tracked pose (lookup mmsi vessels)

  -- `a ?? b`.
  abbrev pub or_else : Option (Vessel A) → Option (Vessel A) → Option (Vessel A)
  or_else none b = b
  or_else (some a) b = some a

  unfoldable pub displayed_vessel :
      Bool
      → Option ℕ
      → Option (SelectedPose A)
      → Option (SelectedPose A)
      → Dict (Vessel A)
      → Option (Vessel A)
  unfolding replay_vessel track_vessel live_vessel
  displayed_vessel active selected replay_pose track_pose vessels =
      if active
      then replay_vessel selected replay_pose vessels
      else or_else (track_vessel selected track_pose vessels) (live_vessel selected vessels)
