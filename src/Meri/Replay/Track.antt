-- ===== src/Meri/Replay/Track.antt =====
-- hooks/useTrackReplay.ts: playback of the selected vessel's track. The props are those of the last
-- render; a request in flight keeps what its closure captured.
pub mod Playing
pub mod Consistency
pub mod Stale
mod Tests
use fintraffic.Base.{
  ℕ, zero, suc, ◌+◌, ◌*◌, Bool, true, false, not, ◌&&◌, ◌||◌, List, [], ◌∷◌, Option, none, some,
  ◌==◌, leb, if◌then◌else◌, length, get_or, get_elem?, remove_at, is_some,
}
use fintraffic.Base.Dict.{Dict, remove}
use fintraffic.Base.Number.{Number, maximum, decimal}
use fintraffic.Meri.Replay.Pose.{Fix}
use fintraffic.Meri.Replay.Fleet.{SelectedPose, Seek, FleetReplayResponse}

pub record Props (A : Type 0) : Type 0 where
  pub mmsi : Option ℕ
  pub points : List (Fix A)
  pub window_sec : ℕ
  pub enabled : Bool

-- `${mmsi}|${windowSec}|${enabled}`.
pub record Key : Type 0 where
  pub mmsi : Option ℕ
  pub window_sec : ℕ
  pub enabled : Bool

abbrev pub key_of : {A : Type 0} → Props A → Key
key_of p = record { mmsi = p.mmsi; window_sec = p.window_sec; enabled = p.enabled }

abbrev pub same_mmsi : Option ℕ → Option ℕ → Bool
same_mmsi none none = true
same_mmsi (some a) (some b) = a == b
same_mmsi _ _ = false

abbrev pub same_bool : Bool → Bool → Bool
same_bool true b = b
same_bool false b = not b

abbrev pub same_key : Key → Key → Bool
same_key a b =
    same_mmsi a.mmsi b.mmsi && (a.window_sec == b.window_sec && same_bool a.enabled b.enabled)

pub record Session (A : Type 0) : Type 0 where
  pub from : A
  pub to : A
  pub fleet : Dict (List (Fix A))
  pub fleet_from : A

-- The `useState` cells of the hook, `loadIdRef` and `keyRef`.
pub record TrackReplay (A : Type 0) : Type 0 where
  pub session : Option (Session A)
  pub loading : Bool
  pub playing : Bool
  pub speed : A
  pub playhead : A
  pub pose : Option (SelectedPose A)
  pub seek : Seek A
  pub last_key : Key
  pub load_id : ℕ
  pub key_ref : Key

-- A request of `enter`: its own number, key, vessel and window.
pub record Request (A : Type 0) : Type 0 where
  pub id : ℕ
  pub for_key : Key
  pub mmsi : ℕ
  pub from : A
  pub to : A
  pub fleet_from : A

pub record World (A : Type 0) : Type 0 where
  pub replay : TrackReplay A
  pub pending : List (Request A)

-- `TrackReplayControl`, less its callbacks.
pub record TrackReplayControl (A : Type 0) : Type 0 where
  pub mmsi : ℕ
  pub points : List (Fix A)
  pub from : A
  pub to : A
  pub playing : Bool
  pub rate : A
  pub seek_nonce : ℕ
  pub seek_ts : A
  pub fleet : Dict (List (Fix A))

module _ {A : Type 0} where
  unfoldable pub available : Props A → Bool
  available p = p.enabled && (is_some p.mmsi && leb 2 (length p.points))

  unfoldable pub active : TrackReplay A → Bool
  active s = is_some s.session

  -- The state is adjusted while rendering, and the effect then refreshes `keyRef`.
  unfoldable pub render : Props A → TrackReplay A → TrackReplay A
  render p s =
      if same_key s.last_key (key_of p) then record s { key_ref = key_of p } else record s {
        last_key = key_of p;
        session = none;
        loading = false;
        playing = false;
        pose = none;
        key_ref = key_of p;
      }

  -- `open`, for the request `r`.
  unfoldable pub open_session :
      Request A → Dict (List (Fix A)) → A → ℕ → TrackReplay A → TrackReplay A
  open_session r fleet covered_from now s =
      if not (r.id == s.load_id) || not (same_key s.key_ref r.for_key) then s else record s {
        session =
            some (record { from = r.from; to = r.to; fleet = fleet; fleet_from = covered_from });
        loading = false;
        playing = true;
        playhead = r.from;
        pose = none;
        seek = record { nonce = now; ts = r.from };
      }

  -- The followed vessel is dropped from the traffic around it.
  unfoldable pub fetched : Request A → FleetReplayResponse A → ℕ → TrackReplay A → TrackReplay A
  unfolding open_session
  fetched r res now s = open_session r (remove r.mmsi res.vessels) res.from now s

  unfoldable pub exit : TrackReplay A → TrackReplay A
  exit s = record s {
    load_id = s.load_id + 1;
    session = none;
    loading = false;
    playing = false;
    pose = none;
  }

  unfoldable pub set_speed : A → TrackReplay A → TrackReplay A
  set_speed speed s = record s { speed = speed }

  unfoldable pub do_seek : A → ℕ → TrackReplay A → TrackReplay A
  do_seek ts now s = record s { playhead = ts; seek = record { nonce = now; ts = ts } }

  unfoldable pub on_progress : A → TrackReplay A → TrackReplay A
  on_progress ts s = record s { playhead = ts }

  unfoldable pub on_ended : TrackReplay A → TrackReplay A
  on_ended s = record s { playing = false }

  unfoldable pub on_pose : Option (SelectedPose A) → TrackReplay A → TrackReplay A
  on_pose pose s = record s { pose = pose }

  -- The pose that the hook returns.
  unfoldable pub shown_pose : TrackReplay A → Option (SelectedPose A)
  unfolding active
  shown_pose s = if active s then s.pose else none

module _ {A : Type 0} (n : Number A) where
  open n use {of_ℕ, sub, mul, div, le}

  -- `FLEET_CONTEXT_MAX_SEC` and `TRACK_PLAYBACK_SECONDS`.
  abbrev pub fleet_context_max_sec : A
  fleet_context_max_sec = of_ℕ (6 * 3600)

  abbrev pub track_playback_seconds : A
  track_playback_seconds = of_ℕ 30

  unfoldable pub initial : Props A → TrackReplay A
  initial p = record {
    session = none;
    loading = false;
    playing = false;
    speed = of_ℕ 1;
    playhead = of_ℕ 0;
    pose = none;
    seek = record { nonce = 0; ts = of_ℕ 0 };
    last_key = key_of p;
    load_id = 0;
    key_ref = key_of p;
  }

  -- The `catch` of `enter`: the track is played without the traffic.
  unfoldable pub not_fetched : Request A → ℕ → TrackReplay A → TrackReplay A
  unfolding open_session
  not_fetched r now s = open_session r [] (of_ℕ 0) now s

  -- `enter` for a vessel with the points `first ∷ rest`.
  unfoldable pub enter_with : Props A → Option ℕ → List (Fix A) → World A → World A
  enter_with p none pts w = w
  enter_with p (some mmsi) [] w = w
  enter_with p (some mmsi) (first ∷ []) w = w
  enter_with p (some mmsi) (first ∷ second ∷ rest) w =
      let to = (get_or (second ∷ rest) (length rest) second).ts in
      let r : Request A = record {
        id = w.replay.load_id + 1;
        for_key = key_of p;
        mmsi = mmsi;
        from = first.ts;
        to = to;
        fleet_from = maximum n first.ts (sub to fleet_context_max_sec);
      } in
      record {
        replay = record w.replay { load_id = w.replay.load_id + 1; loading = true };
        pending = r ∷ w.pending;
      }

  unfoldable pub enter : Props A → World A → World A
  unfolding enter_with
  enter p w = enter_with p p.mmsi p.points w

  unfoldable pub toggle : Props A → World A → World A
  unfolding enter active available exit
  toggle p w =
      if active w.replay || w.replay.loading
      then record w { replay = exit w.replay }
      else if available p
      then enter p w
      else w

  -- What `restart` and `togglePlay` do where there is no session.
  unfoldable pub start_playing : Props A → World A → World A
  unfolding enter available
  start_playing p w = if available p && not w.replay.loading then enter p w else w

  unfoldable pub restart_at : Option (Session A) → Props A → ℕ → World A → World A
  restart_at none p now w = start_playing p w
  restart_at (some session) p now w = record w {
    replay = record w.replay {
      playing = true;
      playhead = session.from;
      pose = none;
      seek = record { nonce = now; ts = session.from };
    };
  }

  unfoldable pub restart : Props A → ℕ → World A → World A
  unfolding restart_at start_playing
  restart p now w = restart_at w.replay.session p now w

  unfoldable pub flip_playing : Session A → ℕ → TrackReplay A → TrackReplay A
  flip_playing session now s =
      if not s.playing && le session.to s.playhead
      then record s {
        playing = true;
        playhead = session.from;
        seek = record { nonce = now; ts = session.from };
      }
      else record s { playing = not s.playing }

  unfoldable pub toggle_play_at : Option (Session A) → Props A → ℕ → World A → World A
  toggle_play_at none p now w = start_playing p w
  toggle_play_at (some session) p now w = record w { replay = flip_playing session now w.replay }

  unfoldable pub toggle_play : Props A → ℕ → World A → World A
  unfolding toggle_play_at start_playing flip_playing
  toggle_play p now w = toggle_play_at w.replay.session p now w

  -- Virtual seconds for each real second: the whole span in thirty seconds at speed one.
  unfoldable pub rate : A → A → A → A
  rate from to speed = mul (div (maximum n (sub to from) (of_ℕ 1)) track_playback_seconds) speed

  unfoldable pub control : Props A → TrackReplay A → Option (TrackReplayControl A)
  unfolding rate
  control p s = elim s.session [
    | none ↦ none
    | some session ↦ elim p.mmsi [
      | none ↦ none
      | some mmsi ↦ some (record {
        mmsi = mmsi;
        points = p.points;
        from = session.from;
        to = session.to;
        playing = s.playing;
        rate = rate session.from session.to s.speed;
        seek_nonce = s.seek.nonce;
        seek_ts = s.seek.ts;
        fleet = session.fleet;
      })
    ]
  ]
