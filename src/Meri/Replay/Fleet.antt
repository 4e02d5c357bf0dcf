-- ===== src/Meri/Replay/Fleet.antt =====
-- hooks/useFleetReplay.ts: the state of the fleet replay and what each callback does to it. A state
-- setter acts at once. `Date.now()` is an argument of the calls that read it.
pub mod Requests
pub mod Closing
pub mod Newest
mod Tests
use fintraffic.Base.{
  ℕ, suc, ◌+◌, ◌*◌, Bool, true, false, not, ◌&&◌, ◌||◌, List, [], Option, none, some, String, ◌==◌,
  if◌then◌else◌, length, is_some,
}
use fintraffic.Base.Dict.{Dict}
use fintraffic.Base.Number.{Number}
use fintraffic.Meri.Replay.Pose.{Fix}

-- `ReplaySelectedPose` of components/Map.tsx and `TrackReplayPose` of hooks/useTrackReplay.ts.
pub record SelectedPose (A : Type 0) : Type 0 where
  pub mmsi : ℕ
  pub lat : A
  pub lng : A
  pub cog : A
  pub sog : A
  pub ts : A

-- `FleetReplayResponse`.
pub record FleetReplayResponse (A : Type 0) : Type 0 where
  pub from : A
  pub to : A
  pub truncated : Bool
  pub vessels : Dict (List (Fix A))

-- Bumping the nonce forces the playhead of the map to `ts`.
pub record Seek (A : Type 0) : Type 0 where
  pub nonce : ℕ
  pub ts : A

-- The `useState` cells of the hook, and `loadIdRef`.
pub record FleetReplay (A : Type 0) : Type 0 where
  pub active : Bool
  pub loading : Bool
  pub error : Option String
  pub truncated : Bool
  pub vessels : Dict (List (Fix A))
  pub from : A
  pub to : A
  pub playhead : A
  pub playing : Bool
  pub speed : A
  pub window_sec : A
  pub seek : Seek A
  pub selected_pose : Option (SelectedPose A)
  pub load_id : ℕ

-- `ReplayControl`, less its callbacks.
pub record ReplayControl (A : Type 0) : Type 0 where
  pub vessels : Dict (List (Fix A))
  pub from : A
  pub to : A
  pub playing : Bool
  pub speed : A
  pub seek_nonce : ℕ
  pub seek_ts : A

abbrev load_error : String
load_error = "Could not load replay history."

module _ {A : Type 0} (n : Number A) where
  open n use {of_ℕ, le}

  unfoldable pub initial : FleetReplay A
  initial = record {
    active = false;
    loading = false;
    error = none;
    truncated = false;
    vessels = [];
    from = of_ℕ 0;
    to = of_ℕ 0;
    playhead = of_ℕ 0;
    playing = false;
    speed = of_ℕ 60;
    window_sec = of_ℕ (3 * 3600);
    seek = record { nonce = 0; ts = of_ℕ 0 };
    selected_pose = none;
    load_id = 0;
  }

  -- Paused at or past the end, play starts over.
  unfoldable pub toggle_play : ℕ → FleetReplay A → FleetReplay A
  toggle_play now s =
      if not s.playing && le s.to s.playhead
      then record s {
        playing = true;
        seek = record { nonce = now; ts = s.from };
        playhead = s.from;
      }
      else record s { playing = not s.playing }

module _ {A : Type 0} where
  -- The synchronous part of `load`; the request it sends carries the new `load_id`.
  unfoldable pub load : FleetReplay A → FleetReplay A
  load s = record s { load_id = s.load_id + 1; loading = true; error = none }

  -- `enter` and `setWindow`, which are alike.
  unfoldable pub enter : A → FleetReplay A → FleetReplay A
  unfolding load
  enter win s = load (record s { window_sec = win })

  -- The `then` of `load`, for the request `id`.
  unfoldable pub loaded : ℕ → FleetReplayResponse A → ℕ → FleetReplay A → FleetReplay A
  loaded id res now s = if not (id == s.load_id) then s else record s {
    vessels = res.vessels;
    from = res.from;
    to = res.to;
    truncated = res.truncated;
    playhead = res.from;
    seek = record { nonce = now; ts = res.from };
    playing = true;
    active = true;
    loading = false;
    selected_pose = none;
  }

  -- The `catch` of `load`, for the request `id`.
  unfoldable pub failed : ℕ → FleetReplay A → FleetReplay A
  failed id s =
      if not (id == s.load_id) then s else record s { error = some load_error; loading = false }

  unfoldable pub exit : FleetReplay A → FleetReplay A
  exit s = record s {
    load_id = s.load_id + 1;
    active = false;
    playing = false;
    vessels = [];
    error = none;
    truncated = false;
    selected_pose = none;
  }

  unfoldable pub set_speed : A → FleetReplay A → FleetReplay A
  set_speed speed s = record s { speed = speed }

  unfoldable pub do_seek : A → ℕ → FleetReplay A → FleetReplay A
  do_seek ts now s = record s { playhead = ts; seek = record { nonce = now; ts = ts } }

  unfoldable pub on_progress : A → FleetReplay A → FleetReplay A
  on_progress ts s = record s { playhead = ts }

  unfoldable pub on_ended : FleetReplay A → FleetReplay A
  on_ended s = record s { playing = false }

  unfoldable pub on_selected_pose : Option (SelectedPose A) → FleetReplay A → FleetReplay A
  on_selected_pose pose s = record s { selected_pose = pose }

  unfoldable pub control : FleetReplay A → Option (ReplayControl A)
  control s =
      if s.active
      then some (record {
        vessels = s.vessels;
        from = s.from;
        to = s.to;
        playing = s.playing;
        speed = s.speed;
        seek_nonce = s.seek.nonce;
        seek_ts = s.seek.ts;
      })
      else none

  unfoldable pub visible : FleetReplay A → Bool
  visible s = s.active || s.loading || is_some s.error

  unfoldable pub vessel_count : FleetReplay A → ℕ
  vessel_count s = length s.vessels
