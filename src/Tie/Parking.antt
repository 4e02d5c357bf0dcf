-- ===== src/Tie/Parking.antt =====
-- Parking facilities: lib/parking.ts.
pub mod Levels
mod Tests
use fintraffic.Base.{ℕ, Bool, true, false, List, [], ◌∷◌, Option, none, some, String, if◌then◌else◌}
use fintraffic.Base.Number.{Number, decimal}
use fintraffic.Tie.Traffic.{Theme, dark, light}

pub record ParkingFacility (A : Type 0) : Type 0 where
  pub id : ℕ
  pub name : String
  pub longitude : A
  pub latitude : A
  pub type : String
  pub status : String
  pub capacity : A
  pub built_capacity : Option (List (String × A))
  pub pricing_method : Option String
  pub usages : Option (List String)
  pub services : Option (List String)
  pub authentication_methods : Option (List String)
  pub payment_methods : Option (List String)
  pub payment_info : Option String
  pub opening_hours : Option (List (String × String))
  pub spaces_available : Option A
  pub open_now : Option Bool
  pub updated_at : Option String

pub data ParkingLevel : Type 0 where
  plenty limited full unknown : ParkingLevel

module _ {A : Type 0} (n : Number A) where
  open n use {of_ℕ, div, le, lt}

  abbrev pub ratio_of : Option A → A → Option A
  ratio_of none capacity = none
  ratio_of (some spaces) capacity =
      if le capacity (of_ℕ 0) then none else some (div spaces capacity)

  unfoldable pub occupancy_ratio : ParkingFacility A → Option A
  occupancy_ratio facility = ratio_of facility.spaces_available facility.capacity

  abbrev pub level_of_ratio : Option A → ParkingLevel
  level_of_ratio none = unknown
  level_of_ratio (some ratio) =
      if lt (decimal n 2 10) ratio then plenty else if lt (of_ℕ 0) ratio then limited else full

  abbrev pub level_of : Option Bool → Option A → ParkingLevel
  level_of (some false) ratio = full
  level_of (some true) ratio = level_of_ratio ratio
  level_of none ratio = level_of_ratio ratio

  unfoldable pub parking_level : ParkingFacility A → ParkingLevel
  unfolding occupancy_ratio
  parking_level facility = level_of facility.open_now (occupancy_ratio facility)

abbrev pub parking_color_dark : ParkingLevel → String
parking_color_dark plenty = "#2ecc71"
parking_color_dark limited = "#f1c40f"
parking_color_dark full = "#e74c3c"
parking_color_dark unknown = "#7f8c8d"

abbrev pub parking_color_light : ParkingLevel → String
parking_color_light limited = "#b7860b"
parking_color_light unknown = "#5b6b7a"
parking_color_light level = parking_color_dark level

unfoldable pub parking_colors : Theme → ParkingLevel → String
parking_colors light = parking_color_light
parking_colors dark = parking_color_dark
