-- ===== src/Tie/Charging.antt =====
-- Charging stations: lib/charging.ts.
pub mod Levels
mod Tests
use fintraffic.Base.{ℕ, Bool, true, false, List, [], ◌∷◌, Option, none, some, String, if◌then◌else◌}
use fintraffic.Base.Number.{Number, decimal}
use fintraffic.Tie.Traffic.{Theme, dark, light}

pub record ChargingConnector (A : Type 0) : Type 0 where
  pub standard : String
  pub power_type : String
  pub max_power_kw : A
  pub count : A
  pub price_per_kwh : Option A
  pub currency : Option String

pub record ChargingStation (A : Type 0) : Type 0 where
  pub id : String
  pub name : String
  pub longitude : A
  pub latitude : A
  pub operator : Option String
  pub address : Option String
  pub city : Option String
  pub website : Option String
  pub connectors : List (ChargingConnector A)
  pub max_power_kw : A
  pub total : A
  pub available_points : Option A

pub data ChargingLevel : Type 0 where
  available limited full unknown : ChargingLevel

module _ {A : Type 0} (n : Number A) where
  open n use {of_ℕ, div, le, lt}

  abbrev pub charging_level_of : Option A → A → ChargingLevel
  charging_level_of none total = unknown
  charging_level_of (some points) total =
      if le total (of_ℕ 0)
      then unknown
      else if le points (of_ℕ 0)
      then full
      else if lt (decimal n 3 10) (div points total)
      then available
      else limited

  unfoldable pub charging_level : ChargingStation A → ChargingLevel
  charging_level station = charging_level_of station.available_points station.total

abbrev pub charging_color_dark : ChargingLevel → String
charging_color_dark available = "#27ae60"
charging_color_dark limited = "#e67e22"
charging_color_dark full = "#c0392b"
charging_color_dark unknown = "#8e6db0"

abbrev pub charging_color_light : ChargingLevel → String
charging_color_light limited = "#c2620f"
charging_color_light unknown = "#6f4f95"
charging_color_light level = charging_color_dark level

unfoldable pub charging_colors : Theme → ChargingLevel → String
charging_colors light = charging_color_light
charging_colors dark = charging_color_dark
