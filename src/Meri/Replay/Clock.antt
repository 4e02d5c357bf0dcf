-- ===== src/Meri/Replay/Clock.antt =====
-- The virtual clock of the fleet replay in components/Map.tsx: the effect that mirrors the control,
-- and the replay branch of the animation frame. A frame returns the callbacks that it makes.
pub mod Bounds
pub mod Ending
mod Tests
use fintraffic.Base.{
  ℕ, zero, suc, ◌+◌, ◌*◌, Bool, true, false, not, ◌&&◌, List, [], ◌∷◌, ◌++◌, Option, none, some,
  ◌==◌, if◌then◌else◌,
}
use fintraffic.Base.Dict.{Dict, lookup}
use fintraffic.Base.Number.{Number}
use fintraffic.Meri.Replay.Pose.{Fix, ReplayPose, pose_at, replay_max_gap_sec}
use fintraffic.Meri.Replay.Fleet.{ReplayControl, SelectedPose}

-- `replayClockRef`, `replayEndedRef`, `replaySeekNonceRef` (`none` is -1) and
-- `replayLastProgressRef`.
pub record Clock (A : Type 0) : Type 0 where
  pub time : A
  pub ended : Bool
  pub seek_nonce : Option ℕ
  pub last_progress : A

pub data Callback (A : Type 0) : Type 0 where
  on_progress : A → Callback A
  on_ended : Callback A
  on_selected_pose : Option (SelectedPose A) → Callback A

abbrev pub same_nonce : Option ℕ → ℕ → Bool
same_nonce none b = false
same_nonce (some a) b = a == b

module _ {A : Type 0} where
  -- Playing starts at the beginning of the window; a bumped nonce moves the clock to `seekTs`.
  unfoldable pub sync : Option (ReplayControl A) → Option (ReplayControl A) → Clock A → Clock A
  sync prev none k = k
  sync none (some c) k = record k { time = c.from; ended = false; seek_nonce = some c.seek_nonce }
  sync (some p) (some c) k =
      if same_nonce k.seek_nonce c.seek_nonce
      then k
      else record k { time = c.seek_ts; ended = false; seek_nonce = some c.seek_nonce }

module _ {A : Type 0} (n : Number A) where
  open n use {of_ℕ, add, sub, mul, div, le}

  -- `REPLAY_PROGRESS_INTERVAL_MS`.
  abbrev pub replay_progress_interval_ms : A
  replay_progress_interval_ms = of_ℕ 150

  -- The clock goes on by `(dtMs / 1000) * speed` and stops at the end of the window.
  unfoldable pub advance : ReplayControl A → A → Clock A → Clock A × List (Callback A)
  advance c dt k =
      let time = add k.time (mul (div dt (of_ℕ 1000)) c.speed) in
      if c.playing && not k.ended
      then (if le c.to time
          then (record k { time = c.to; ended = true }, on_progress c.to ∷ on_ended ∷ [])
          else (record k { time = time }, []))
      else (k, [])

  abbrev pub report_pose : ℕ → A → Option (ReplayPose A) → Option (SelectedPose A)
  report_pose mmsi t none = none
  report_pose mmsi t (some p) =
      some (record { mmsi = mmsi; lat = p.lat; lng = p.lng; cog = p.hdg; sog = p.sog; ts = t })

  -- The pose of the selected vessel at the playhead.
  unfoldable pub selected_pose : Dict (List (Fix A)) → Option ℕ → A → Option (SelectedPose A)
  selected_pose vessels none t = none
  selected_pose vessels (some mmsi) t = elim (lookup mmsi vessels) [
    | none ↦ none
    | some pts ↦ report_pose mmsi t (pose_at n pts t (some (replay_max_gap_sec n)))
  ]

  -- At most one report to React in each interval.
  unfoldable pub report : ReplayControl A → Option ℕ → A → Clock A → Clock A × List (Callback A)
  unfolding selected_pose
  report c selected now k =
      if le replay_progress_interval_ms (sub now k.last_progress)
      then (
        record k { last_progress = now },
        (if c.playing then on_progress k.time ∷ [] else [])
            ++ on_selected_pose (selected_pose c.vessels selected k.time) ∷ [],
      )
      else (k, [])

  -- One animation frame of the fleet replay, up to the drawing.
  unfoldable pub frame : ReplayControl A → Option ℕ → A → A → Clock A → Clock A × List (Callback A)
  frame c selected now dt k =
      let moved = advance c dt k in
      let reported = report c selected now moved.0 in (reported.0, moved.1 ++ reported.1)

  -- Frames under one control; each has its time, the time since the one before and the selection.
  pub record Frame : Type 0 where
    pub selected : Option ℕ
    pub now : A
    pub dt : A

  unfoldable pub frames : ReplayControl A → List Frame → Clock A → Clock A × List (Callback A)
  frames c [] k = (k, [])
  frames c (f ∷ fs) k =
      let first = frame c f.selected f.now f.dt k in
      let later = frames c fs first.0 in (later.0, first.1 ++ later.1)
