-- ===== src/Tie/Weather.antt =====
-- Road weather stations: lib/roadWeather.ts, and the readings of lib/weathercam.ts.
pub mod Worst
mod Tests
use fintraffic.Base.{
  ℕ, Bool, true, false, not, ◌&&◌, ◌||◌, List, [], ◌∷◌, Option, none, some, String, ◌==◌, ltb,
  if◌then◌else◌, find,
}
use fintraffic.Base.Number.{Number, decimal}
use fintraffic.Tie.Traffic.{Theme, dark, light}

pub record WeatherReading (A : Type 0) : Type 0 where
  pub sensor_id : ℕ
  pub label : String
  pub value : A
  pub unit : Option String
  pub description : Option String

pub record RoadWeatherStation (A : Type 0) : Type 0 where
  pub id : ℕ
  pub name : String
  pub longitude : A
  pub latitude : A
  pub measured_time : Option String
  pub readings : List (WeatherReading A)

-- The fields of `WEATHER_SENSOR`.
abbrev pub road_temp_sensor : ℕ
road_temp_sensor = 3

abbrev pub air_temp_sensor : ℕ
air_temp_sensor = 1

abbrev pub condition_sensor : ℕ
condition_sensor = 27

abbrev pub warning_sensor : ℕ
warning_sensor = 29

abbrev pub friction_sensor : ℕ
friction_sensor = 176

pub data RoadWeatherLevel : Type 0 where
  ok caution hazard unknown : RoadWeatherLevel

abbrev pub rank : RoadWeatherLevel → ℕ
rank unknown = 0
rank ok = 1
rank caution = 2
rank hazard = 3

unfoldable pub worse : RoadWeatherLevel → RoadWeatherLevel → RoadWeatherLevel
worse a b = if ltb (rank a) (rank b) then b else a

module _ {A : Type 0} where
  unfoldable pub reading : RoadWeatherStation A → ℕ → Option (WeatherReading A)
  reading station sensor_id = find (λ r. r.sensor_id == sensor_id) station.readings

  -- `reading(...)?.value`.
  abbrev pub value_of : Option (WeatherReading A) → Option A
  value_of none = none
  value_of (some r) = some r.value

module _ {A : Type 0} (n : Number A) where
  open n use {of_ℕ, le, lt}

  -- `===` on numbers.
  abbrev pub equals : A → A → Bool
  equals a b = le a b && le b a

  abbrev pub warning_grade : A → RoadWeatherLevel
  warning_grade warning =
      if equals warning (of_ℕ 2) then hazard else if equals warning (of_ℕ 0) then ok else caution

  abbrev pub condition_grade : A → RoadWeatherLevel
  condition_grade condition =
      if equals condition (of_ℕ 7)
      then hazard
      else if equals condition (of_ℕ 5) || (equals condition (of_ℕ 6) || equals condition (of_ℕ 9))
      then caution
      else ok

  abbrev pub friction_grade : A → RoadWeatherLevel
  friction_grade friction =
      if lt friction (decimal n 3 10)
      then hazard
      else if lt friction (decimal n 5 10)
      then caution
      else ok

  -- The three `if`s of `roadWeatherLevel`, on the level so far.
  unfoldable pub with_warning : Option A → RoadWeatherLevel → RoadWeatherLevel
  with_warning none level = level
  with_warning (some warning) level = worse level (warning_grade warning)

  unfoldable pub with_condition : Option A → RoadWeatherLevel → RoadWeatherLevel
  with_condition none level = level
  with_condition (some condition) level =
      if not (equals condition (of_ℕ 0)) then worse level (condition_grade condition) else level

  unfoldable pub with_friction : Option A → RoadWeatherLevel → RoadWeatherLevel
  with_friction none level = level
  with_friction (some friction) level =
      if lt (of_ℕ 0) friction then worse level (friction_grade friction) else level

  unfoldable pub road_weather_level : RoadWeatherStation A → RoadWeatherLevel
  unfolding reading with_warning with_condition with_friction
  road_weather_level station = with_friction (value_of (reading station friction_sensor)) (
      with_condition (value_of (reading station condition_sensor))
        (with_warning (value_of (reading station warning_sensor)) unknown))

abbrev pub road_weather_level_label : RoadWeatherLevel → String
road_weather_level_label ok = "Normal"
road_weather_level_label caution = "Caution"
road_weather_level_label hazard = "Slippery"
road_weather_level_label unknown = "No condition data"

abbrev pub road_weather_color_dark : RoadWeatherLevel → String
road_weather_color_dark ok = "#2ecc71"
road_weather_color_dark caution = "#f1c40f"
road_weather_color_dark hazard = "#e74c3c"
road_weather_color_dark unknown = "#7f8c8d"

abbrev pub road_weather_color_light : RoadWeatherLevel → String
road_weather_color_light caution = "#b7860b"
road_weather_color_light unknown = "#5b6b7a"
road_weather_color_light level = road_weather_color_dark level

unfoldable pub road_weather_colors : Theme → RoadWeatherLevel → String
road_weather_colors light = road_weather_color_light
road_weather_colors dark = road_weather_color_dark
