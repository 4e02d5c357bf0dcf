-- ===== src/Meri/Replay/Track/Playing.antt =====
-- The hook as a system: renders with new props, the callbacks, and answers in any order.
use fintraffic.Base.{ℕ, List, [], ◌∷◌, Option, none, some, get_elem?, remove_at}
use fintraffic.Base.Number.{Number}
use fintraffic.Meri.Replay.Fleet.{SelectedPose, FleetReplayResponse}
use fintraffic.Meri.Replay.Track.{
  Props, TrackReplay, Request, World, render, fetched, not_fetched, exit, set_speed, do_seek,
  on_progress, on_ended, on_pose, initial, toggle, restart, toggle_play,
}

pub record System (A : Type 0) : Type 0 where
  pub props : Props A
  pub world : World A

pub data Event (A : Type 0) : Type 0 where
  renders : Props A → Event A
  toggles : Event A
  exits : Event A
  restarts : ℕ → Event A
  plays : ℕ → Event A
  -- The answer to the request at a place of the list of those in flight, or its failure.
  fetches : ℕ → FleetReplayResponse A → ℕ → Event A
  fails : ℕ → ℕ → Event A
  speeds : A → Event A
  seeks : A → ℕ → Event A
  progresses : A → Event A
  ends : Event A
  poses : Option (SelectedPose A) → Event A

abbrev pub answer {ℓ κ} : {R : Type ℓ} {S : Type κ} → (R → S → S) → Option R → S → S
answer f none s = s
answer f (some r) s = f r s

module _ {A : Type 0} where
  abbrev pub answered : (Request A → TrackReplay A → TrackReplay A) → ℕ → World A → World A
  answered f i w = record {
    replay = answer f (get_elem? w.pending i) w.replay;
    pending = remove_at i w.pending;
  }

  abbrev pub on_replay : (TrackReplay A → TrackReplay A) → World A → World A
  on_replay f w = record w { replay = f w.replay }

module _ {A : Type 0} (n : Number A) where
  unfoldable pub step : System A → Event A → System A
  step s (renders p) = record { props = p; world = on_replay (render p) s.world }
  step s toggles = record s { world = toggle n s.props s.world }
  step s exits = record s { world = on_replay exit s.world }
  step s (restarts now) = record s { world = restart n s.props now s.world }
  step s (plays now) = record s { world = toggle_play n s.props now s.world }
  step s (fetches i res now) = record s { world = answered (λ r. fetched r res now) i s.world }
  step s (fails i now) = record s { world = answered (λ r. not_fetched n r now) i s.world }
  step s (speeds speed) = record s { world = on_replay (set_speed speed) s.world }
  step s (seeks ts now) = record s { world = on_replay (do_seek ts now) s.world }
  step s (progresses ts) = record s { world = on_replay (on_progress ts) s.world }
  step s ends = record s { world = on_replay on_ended s.world }
  step s (poses pose) = record s { world = on_replay (on_pose pose) s.world }

  unfoldable pub run : System A → List (Event A) → System A
  run s [] = s
  run s (e ∷ es) = run (step s e) es

  abbrev pub start : Props A → System A
  start p = record { props = p; world = record { replay = initial n p; pending = [] } }
