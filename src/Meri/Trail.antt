-- ===== src/Meri/Trail.antt =====
-- The recorded track of the selected vessel: hooks/useVesselTrail.ts. Every run of the effect has a
-- number, so that a run is cancelled when it is not the newest; requests are answered in any order.
pub mod Shown
mod Tests
use fintraffic.Base.{
  ℕ, ◌*◌, String, suc, Bool, true, false, not, ◌&&◌, List, [], ◌∷◌, Option, none, some,
  if◌then◌else◌, ◌==◌,
}
use fintraffic.Base.Number.{Number}
use fintraffic.Meri.Replay.Pose.{Fix}

pub record Props (A : Type 0) : Type 0 where
  pub mmsi : Option ℕ
  pub enabled : Bool
  pub window_sec : A

pub record TrailState (A : Type 0) : Type 0 where
  pub mmsi : Option ℕ
  pub points : List (Fix A)

-- A call of `load` by the effect of number `run`.
pub record Request (A : Type 0) : Type 0 where
  pub run : ℕ
  pub mmsi : ℕ
  pub from : A

pub record Trail (A : Type 0) : Type 0 where
  pub props : Props A
  pub state : TrailState A
  pub run : ℕ
  pub requests : List (Request A)

-- A render whose dependencies changed, the interval, and the two ends of a request. Times are in
-- milliseconds.
pub data Event (A : Type 0) : Type 0 where
  renders : Props A → A → Event A
  polls : A → Event A
  answers : Request A → List (Fix A) → Event A
  fails : Request A → Event A

-- `TRAIL_WINDOWS` of lib/trailWindows.ts: label and seconds.
abbrev pub trail_windows : List (String × ℕ)
trail_windows =
    ("1h", 3600) ∷ ("24h", 24 * 3600) ∷ ("7d", 7 * 24 * 3600) ∷ ("60d", 60 * 24 * 3600) ∷ []

abbrev pub same : Option ℕ → Option ℕ → Bool
same none none = true
same (some a) (some b) = a == b
same _ _ = false

module _ {A : Type 0} (n : Number A) where
  open n use {of_ℕ, sub, div}

  abbrev pub load_at : Option ℕ → A → Trail A → Trail A
  load_at none now t = t
  load_at (some mmsi) now t = record t {
    requests =
        record { run = t.run; mmsi = mmsi; from = sub (div now (of_ℕ 1000)) t.props.window_sec }
        ∷ t.requests;
  }

  -- `load`, in a run of the effect that did not return early.
  unfoldable pub load : A → Trail A → Trail A
  load now t = if not t.props.enabled then t else load_at t.props.mmsi now t

  -- The effect on changed dependencies: the run before is cancelled, the new one loads at once.
  unfoldable pub effect : Props A → A → Trail A → Trail A
  unfolding load
  effect props now t = load now (record t { props = props; run = suc t.run })

  unfoldable pub settle : Request A → List (Fix A) → Trail A → Trail A
  settle r points t =
      if r.run == t.run
      then record t { state = record { mmsi = some r.mmsi; points = points } }
      else t

  unfoldable pub step : Trail A → Event A → Trail A
  unfolding load effect settle
  step t (renders props now) = effect props now t
  step t (polls now) = load now t
  step t (answers r points) = settle r points t
  step t (fails r) = settle r [] t

  unfoldable pub steps : Trail A → List (Event A) → Trail A
  unfolding step
  steps t [] = t
  steps t (e ∷ es) = steps (step t e) es

  -- The first render, without a selection.
  unfoldable pub initial : A → Trail A
  initial window_sec = record {
    props = record { mmsi = none; enabled = false; window_sec = window_sec };
    state = record { mmsi = none; points = [] };
    run = 0;
    requests = [];
  }

-- What the hook returns.
unfoldable pub shown : {A : Type 0} → Trail A → List (Fix A)
shown t = if t.props.enabled && same t.state.mmsi t.props.mmsi then t.state.points else []
