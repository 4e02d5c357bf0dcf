-- ===== src/Meri/Live.antt =====
-- The live fleet on the map: components/Map.tsx, the effect that takes in new positions and the part
-- of the animation frame that draws them. A frame returns the features that it puts on the map.
pub mod Drawn
pub mod Received
mod Tests
use fintraffic.Base.{
  ℕ, Bool, true, false, not, ◌&&◌, List, [], ◌∷◌, Option, none, some, String, ◌==◌, if◌then◌else◌,
  is_some,
}
use fintraffic.Base.Dict.{Dict, lookup, insert, keep_entries}
use fintraffic.Base.Number.{Number, minimum, decimal}
use fintraffic.Shared.Geo.{Trig, LatLng, dead_reckon}
use fintraffic.Meri.Ship.{ShipCategory, categorize, category_color, is_stationary}
use fintraffic.Meri.Stream.{Vessel}
use fintraffic.Meri.Replay.Pose.{lerp_angle}

pub record RenderPos (A : Type 0) : Type 0 where
  pub lat : A
  pub lng : A
  pub hdg : A

-- `icon` is the category of `vessel-<category>`.
pub record TargetPos (A : Type 0) : Type 0 where
  pub lat : A
  pub lng : A
  pub sog : A
  pub cog : A
  pub hdg : Option A
  pub stationary : Bool
  pub color : String
  pub icon : ShipCategory
  pub name : String
  pub ts : A
  pub received_at : A

-- `targetsRef` and `renderRef`.
pub record Live (A : Type 0) : Type 0 where
  pub targets : Dict (TargetPos A)
  pub render : Dict (RenderPos A)

pub record Feature (A : Type 0) : Type 0 where
  pub lng : A
  pub lat : A
  pub mmsi : ℕ
  pub color : String
  pub icon : ShipCategory
  pub hdg : A
  pub stationary : Bool
  pub name : String
  pub selected : Bool

abbrev pub named : Option String → String
named none = ""
named (some name) = name

abbrev pub or_cog {ℓ} : {A : Type ℓ} → Option A → A → A
or_cog none cog = cog
or_cog (some hdg) cog = hdg

-- `selected !== null && Number(id) === selected`.
abbrev pub is_selected : Option ℕ → ℕ → Bool
is_selected none id = false
is_selected (some k) id = id == k

module _ {A : Type 0} (n : Number A) where
  open n use {of_ℕ, add, sub, mul, div, le, lt}

  -- `MAX_PROJECT_SECONDS`, `SMOOTHING_TAU_MS` and `SET_DATA_INTERVAL_MS`.
  abbrev pub max_project_seconds : A
  max_project_seconds = of_ℕ 180

  abbrev pub smoothing_tau_ms : A
  smoothing_tau_ms = of_ℕ 600

  -- `a === b` on numbers.
  abbrev pub equals : A → A → Bool
  equals a b = le a b && le b a

  -- The fix is as old as the first update that brought it.
  abbrev pub received : Option (TargetPos A) → A → A → A
  received none ts now = now
  received (some prev) ts now = if equals prev.ts ts then prev.received_at else now

  abbrev pub target_of : Option (TargetPos A) → A → Vessel A → TargetPos A
  target_of prev now v = record {
    lat = v.lat;
    lng = v.lng;
    sog = v.sog;
    cog = v.cog;
    hdg = v.hdg;
    stationary = is_stationary n v.sog v.nav_stat;
    color = category_color (categorize v.ship_type);
    icon = categorize v.ship_type;
    name = named v.name;
    ts = v.ts;
    received_at = received prev v.ts now;
  }

  unfoldable pub next_targets : A → Dict (TargetPos A) → Dict (Vessel A) → Dict (TargetPos A)
  unfolding lookup is_stationary categorize
  next_targets now targets [] = []
  next_targets now targets ((id, v) ∷ vessels) =
      (id, target_of (lookup id targets) now v) ∷ next_targets now targets vessels

  -- The effect on a new fleet: new targets, and no render state of what is gone.
  unfoldable pub ingest : A → Dict (Vessel A) → Live A → Live A
  unfolding next_targets keep_entries
  ingest now vessels s =
      let next = next_targets now s.targets vessels in
      record { targets = next; render = keep_entries (λ id r. is_some (lookup id next)) s.render }

module _ {A : Type 0} (n : Number A) (trig : Trig A) (exp : A → A) where
  open n use {of_ℕ, add, sub, mul, div}

  -- Where a target is by now.
  unfoldable pub predicted : A → TargetPos A → LatLng A
  unfolding dead_reckon
  predicted now t =
      if not t.stationary
      then dead_reckon n trig t.lat t.lng t.sog t.cog
          (minimum n (div (sub now t.received_at) (of_ℕ 1000)) (max_project_seconds n))
      else record { lat = t.lat; lng = t.lng }

  -- A vessel appears where it is reported, and then eases towards where it is predicted to be.
  abbrev pub eased : A → A → TargetPos A → Option (RenderPos A) → RenderPos A
  eased k now t none = record { lat = t.lat; lng = t.lng; hdg = or_cog t.hdg t.cog }
  eased k now t (some r) = record {
    lat = add r.lat (mul (sub (predicted now t).lat r.lat) k);
    lng = add r.lng (mul (sub (predicted now t).lng r.lng) k);
    hdg = lerp_angle n r.hdg (or_cog t.hdg t.cog) k;
  }

  abbrev pub feature_of : Option ℕ → ℕ → TargetPos A → RenderPos A → Feature A
  feature_of selected id t r = record {
    lng = r.lng;
    lat = r.lat;
    mmsi = id;
    color = t.color;
    icon = t.icon;
    hdg = r.hdg;
    stationary = t.stationary;
    name = t.name;
    selected = is_selected selected id;
  }

  -- The loop over the targets; it returns the render state and the features.
  unfoldable pub draw_targets :
      A
      → A
      → Option ℕ
      → Dict (TargetPos A)
      → Dict (RenderPos A)
      → Dict (RenderPos A) × List (Feature A)
  unfolding predicted lookup insert lerp_angle
  draw_targets k now selected [] render = (render, [])
  draw_targets k now selected ((id, t) ∷ targets) render =
      let r = eased k now t (lookup id render) in
      let later = draw_targets k now selected targets (insert id r render) in
      (later.0, feature_of selected id t r ∷ later.1)

  -- The live part of a frame, `dt` milliseconds after the one before.
  unfoldable pub draw_live : A → A → Option ℕ → Live A → Live A × List (Feature A)
  unfolding draw_targets
  draw_live now dt selected s =
      let k = sub (of_ℕ 1) (exp (div (sub (of_ℕ 0) dt) (smoothing_tau_ms n))) in
      let drawn = draw_targets k now selected s.targets s.render in
      (record s { render = drawn.0 }, drawn.1)

-- Updates of the fleet and frames that draw it.
pub data Event (A : Type 0) : Type 0 where
  updates : A → Dict (Vessel A) → Event A
  draws : A → A → Option ℕ → Event A

module _ {A : Type 0} (n : Number A) (trig : Trig A) (exp : A → A) where
  unfoldable pub step : Live A → Event A → Live A
  unfolding ingest draw_live
  step s (updates now vessels) = ingest n now vessels s
  step s (draws now dt selected) = (draw_live n trig exp now dt selected s).0

  unfoldable pub run : Live A → List (Event A) → Live A
  unfolding step
  run s [] = s
  run s (e ∷ es) = run (step s e) es
