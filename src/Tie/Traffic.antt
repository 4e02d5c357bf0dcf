-- ===== src/Tie/Traffic.antt =====
-- Congestion at the road stations: lib/traffic.ts.
pub mod Directions
mod Tests
use fintraffic.Base.{
  ℕ, Bool, true, false, not, ◌&&◌, List, [], ◌∷◌, Option, none, some, String, ◌==◌, if◌then◌else◌,
  find,
}
use fintraffic.Base.Number.{Number, decimal}

-- `Theme` of shared/lib/theme.ts.
pub data Theme : Type 0 where
  dark light : Theme

pub record SensorValue (A : Type 0) : Type 0 where
  pub id : ℕ
  pub value : A
  pub short_name : String
  pub sensor_value_description : Option String
  pub unit : Option String

-- A `null` and an absent number are one.
pub record Station (A : Type 0) : Type 0 where
  pub id : ℕ
  pub name : String
  pub longitude : A
  pub latitude : A
  pub data_of : List (SensorValue A)
  pub bearing : Option A
  pub free_flow1 : Option A
  pub free_flow2 : Option A

abbrev pub speed_sensor_dir1 : ℕ
speed_sensor_dir1 = 5122

abbrev pub speed_sensor_dir2 : ℕ
speed_sensor_dir2 = 5125

abbrev pub volume_sensors : List ℕ
volume_sensors = 5116 ∷ 5119 ∷ []

pub data CongestionLevel : Type 0 where
  free moderate heavy unknown : CongestionLevel

pub record DirectionalStatus (A : Type 0) : Type 0 where
  pub speed : Option A
  pub free_flow : Option A
  pub relative_speed : Option A
  pub level : CongestionLevel

module _ {A : Type 0} where
  abbrev pub value_of : Option (SensorValue A) → Option A
  value_of none = none
  value_of (some s) = some s.value

  unfoldable pub sensor_value : List (SensorValue A) → ℕ → Option A
  sensor_value readings id = value_of (find (λ d. d.id == id) readings)

module _ {A : Type 0} (n : Number A) where
  open n use {of_ℕ, add, div, le}

  abbrev pub banded : A → A → A → CongestionLevel
  banded high low value = if le high value then free else if le low value then moderate else heavy

  unfoldable pub congestion_level : Option A → Option A → CongestionLevel
  congestion_level (some relative) absolute = banded (decimal n 85 100) (decimal n 60 100) relative
  congestion_level none none = unknown
  congestion_level none (some absolute) = banded (of_ℕ 80) (of_ℕ 50) absolute

  -- `freeFlow ? speed / freeFlow : null`: zero is no free-flow speed.
  unfoldable pub relative_speed_of : A → Option A → Option A
  relative_speed_of speed none = none
  relative_speed_of speed (some flow) =
      if le flow (of_ℕ 0) && le (of_ℕ 0) flow then none else some (div speed flow)

  unfoldable pub direction_status : Option A → Option A → DirectionalStatus A
  unfolding relative_speed_of congestion_level
  direction_status none free_flow = record {
    speed = none;
    free_flow = free_flow;
    relative_speed = none;
    level = unknown;
  }
  direction_status (some speed) free_flow = record {
    speed = some speed;
    free_flow = free_flow;
    relative_speed = relative_speed_of speed free_flow;
    level = congestion_level (relative_speed_of speed free_flow) (some speed);
  }

  -- `v !== null && v >= 0 ? v : null`.
  unfoldable pub measured : Option A → Option A
  measured none = none
  measured (some value) = if le (of_ℕ 0) value then some value else none

  unfoldable pub directional_statuses : Station A → DirectionalStatus A × DirectionalStatus A
  unfolding sensor_value measured direction_status
  directional_statuses station = (
    direction_status (measured (sensor_value station.data_of speed_sensor_dir1)) station.free_flow1,
    direction_status (measured (sensor_value station.data_of speed_sensor_dir2)) station.free_flow2,
  )

  abbrev pub plus_measured : A → Option A → A
  plus_measured sum none = sum
  plus_measured sum (some value) = add sum value

  abbrev pub sum_of : List (SensorValue A) → A → List ℕ → A
  sum_of readings sum [] = sum
  sum_of readings sum (id ∷ ids) =
      sum_of readings (plus_measured sum (measured (sensor_value readings id))) ids

  unfoldable pub station_volume : Station A → A
  unfolding sensor_value measured
  station_volume station = sum_of station.data_of (of_ℕ 0) volume_sensors

abbrev pub congestion_color_dark : CongestionLevel → String
congestion_color_dark free = "#2ecc71"
congestion_color_dark moderate = "#f1c40f"
congestion_color_dark heavy = "#e74c3c"
congestion_color_dark unknown = "#7f8c8d"

abbrev pub congestion_color_light : CongestionLevel → String
congestion_color_light moderate = "#b7860b"
congestion_color_light unknown = "#5b6b7a"
congestion_color_light level = congestion_color_dark level

unfoldable pub congestion_colors : Theme → CongestionLevel → String
congestion_colors light = congestion_color_light
congestion_colors dark = congestion_color_dark
