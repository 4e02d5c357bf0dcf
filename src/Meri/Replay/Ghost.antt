-- ===== src/Meri/Replay/Ghost.antt =====
-- The track replay on the map: the effect of components/Map.tsx that mirrors its control, the track
-- branch of the animation frame, and `drawTrackReplay` and `drawFleetAt`. A frame returns the
-- callbacks and the paintings that it makes.
pub mod Resting
mod Tests
use fintraffic.Base.{
  ℕ, Bool, true, false, not, ◌&&◌, List, [], ◌∷◌, ◌++◌, Option, none, some, String, ◌==◌,
  if◌then◌else◌, leb, length,
}
use fintraffic.Base.Dict.{Dict, lookup}
use fintraffic.Base.Number.{Number}
use fintraffic.Meri.Replay.Pose.{Fix, ReplayPose, pose_at, replay_max_gap_sec}
use fintraffic.Meri.Replay.Fleet.{SelectedPose}
use fintraffic.Meri.Replay.Track.{TrackReplayControl}
use fintraffic.Meri.Replay.Clock.{same_nonce, report_pose, replay_progress_interval_ms}

-- `trackClockRef` and the refs beside it, and `lastSetDataRef`.
pub record Ghost (A : Type 0) : Type 0 where
  pub time : A
  pub prev : A
  pub ended : Bool
  pub seek_nonce : Option ℕ
  pub last_progress : A
  pub pose_dirty : Bool
  pub draw_dirty : Bool
  pub last_set_data : A

-- `replayMeta`: the icon and the name of a vessel.
abbrev pub Meta : Type 0
Meta = Dict (String × String)

pub record ReplayFeature (A : Type 0) : Type 0 where
  pub lng : A
  pub lat : A
  pub mmsi : ℕ
  pub hdg : A
  pub icon : String
  pub name : String
  pub selected : Bool

-- What is put into the three sources of the track replay.
pub record Painting (A : Type 0) : Type 0 where
  pub covered : List (A × A)
  pub marker : Option (ReplayPose A)
  pub icon : String
  pub fleet : List (ReplayFeature A)

pub data Output (A : Type 0) : Type 0 where
  on_progress : A → Output A
  on_ended : Output A
  on_pose : Option (SelectedPose A) → Output A
  paints : Painting A → Output A
  clears : Output A

abbrev pub icon_of : Option (String × String) → String
icon_of none = "vessel-replay"
icon_of (some m) = m.0

abbrev pub name_of : Option (String × String) → String
name_of none = ""
name_of (some m) = m.1

abbrev pub is_selected : Option ℕ → ℕ → Bool
is_selected none id = false
is_selected (some selected) id = id == selected

module _ {A : Type 0} where
  abbrev pub restarted : A → TrackReplayControl A → Ghost A → Ghost A
  restarted time c g = record g {
    time = time;
    ended = false;
    seek_nonce = some c.seek_nonce;
    pose_dirty = true;
    draw_dirty = true;
  }

  -- The effect on a new control; `repolled` is whether its points are another list than before.
  unfoldable pub sync :
      Option (TrackReplayControl A)
      → Option (TrackReplayControl A)
      → Bool
      → Ghost A
      → Ghost A × List (Output A)
  sync prev none repolled g = (g, clears ∷ [])
  sync none (some c) repolled g = (restarted c.from c g, [])
  sync (some p) (some c) repolled g = (
    if not (same_nonce g.seek_nonce c.seek_nonce)
        then restarted c.seek_ts c g
        else if repolled
        then record g { draw_dirty = true }
        else g,
    [],
  )

module _ {A : Type 0} (n : Number A) where
  open n use {of_ℕ, add, sub, mul, div, le, lt}

  -- `SET_DATA_INTERVAL_MS`.
  abbrev pub set_data_interval_ms : A
  set_data_interval_ms = of_ℕ 33

  -- The fixes up to the first that is later than the playhead.
  unfoldable pub passed : List (Fix A) → A → List (A × A)
  passed [] t = []
  passed (p ∷ points) t =
      let rest = passed points t in if lt t p.ts then [] else (p.lng, p.lat) ∷ rest

  abbrev pub head_of : Option (ReplayPose A) → List (A × A)
  head_of none = []
  head_of (some pose) = (pose.lng, pose.lat) ∷ []

  -- A line needs two points.
  unfoldable pub covered_line : List (Fix A) → A → Option (ReplayPose A) → List (A × A)
  unfolding passed
  covered_line points t pose =
      let covered = passed points t ++ head_of pose in
      if leb 2 (length covered) then covered else []

  abbrev pub feature_at :
      ℕ → Option (String × String) → Option ℕ → Option (ReplayPose A) → List (ReplayFeature A)
  feature_at id meta selected none = []
  feature_at id meta selected (some pose) =
      record {
        lng = pose.lng;
        lat = pose.lat;
        mmsi = id;
        hdg = pose.hdg;
        icon = icon_of meta;
        name = name_of meta;
        selected = is_selected selected id;
      }
      ∷ []

  -- `drawFleetAt`.
  unfoldable pub fleet_at : Dict (List (Fix A)) → A → Meta → Option ℕ → List (ReplayFeature A)
  unfolding pose_at lookup
  fleet_at [] t meta selected = []
  fleet_at ((id, points) ∷ tracks) t meta selected =
      feature_at id (lookup id meta) selected (pose_at n points t (some (replay_max_gap_sec n)))
      ++ fleet_at tracks t meta selected

  abbrev pub moves : Ghost A → Bool
  moves g = not (le g.time g.prev && le g.prev g.time)

  unfoldable pub advance : TrackReplayControl A → A → Ghost A → Ghost A × List (Output A)
  advance c dt g =
      let time = add g.time (mul (div dt (of_ℕ 1000)) c.rate) in
      if c.playing && not g.ended
      then (if le c.to time
          then (record g { time = c.to; ended = true }, on_progress c.to ∷ on_ended ∷ [])
          else (record g { time = time }, []))
      else (g, [])

  -- A clock that has moved since the last frame is to be reported and drawn.
  unfoldable pub notice : Ghost A → Ghost A
  notice g = if moves g then record g { prev = g.time; pose_dirty = true; draw_dirty = true } else g

  abbrev pub ghost_pose : TrackReplayControl A → Ghost A → Option (ReplayPose A)
  ghost_pose c g = pose_at n c.points g.time none

  unfoldable pub report : TrackReplayControl A → A → Ghost A → Ghost A × List (Output A)
  report c now g =
      if g.pose_dirty && le (replay_progress_interval_ms n) (sub now g.last_progress)
      then (
        record g { last_progress = now; pose_dirty = false },
        (if c.playing then on_progress g.time ∷ [] else [])
            ++ (on_pose (report_pose n c.mmsi g.time (ghost_pose c g)) ∷ []),
      )
      else (g, [])

  unfoldable pub draw : TrackReplayControl A → A → Meta → Ghost A → Ghost A × List (Output A)
  unfolding covered_line fleet_at lookup
  draw c now meta g =
      if lt (sub now g.last_set_data) set_data_interval_ms
      then (g, [])
      else if g.draw_dirty
      then (
        record g { last_set_data = now; draw_dirty = false },
        paints (record {
          covered = covered_line c.points g.time (ghost_pose c g);
          marker = ghost_pose c g;
          icon = icon_of (lookup c.mmsi meta);
          fleet = fleet_at c.fleet g.time meta none;
        })
            ∷ [],
      )
      else (record g { last_set_data = now }, [])

  -- One animation frame of the track replay.
  unfoldable pub frame : TrackReplayControl A → Meta → A → A → Ghost A → Ghost A × List (Output A)
  frame c meta now dt g =
      let moved = advance c dt g in
      let reported = report c now (notice moved.0) in
      let drawn = draw c now meta reported.0 in (drawn.0, moved.1 ++ (reported.1 ++ drawn.1))

  -- Frames under one control, each with its time and the time since the one before.
  unfoldable pub frames :
      TrackReplayControl A → Meta → List (A × A) → Ghost A → Ghost A × List (Output A)
  frames c meta [] g = (g, [])
  frames c meta ((now, dt) ∷ fs) g =
      let first = frame c meta now dt g in
      let later = frames c meta fs first.0 in (later.0, first.1 ++ later.1)
