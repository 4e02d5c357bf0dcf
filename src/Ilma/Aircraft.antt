-- ===== src/Ilma/Aircraft.antt =====
-- Aircraft: lib/aircraft.ts.
pub mod Around
mod Tests
use fintraffic.Base.{
  ℕ, Bool, true, false, ◌&&◌, ◌||◌, List, [], ◌∷◌, Option, none, some, String, if◌then◌else◌, keep,
  map,
}
use fintraffic.Base.Number.{Number, decimal}
use fintraffic.Tie.Traffic.{Theme, dark, light}
use fintraffic.Shared.Sort.{sort}
use fintraffic.Shared.Geo.{Trig, LatLng, distance_km}

pub data AircraftGroup : Type 0 where
  airline general rotorcraft military : AircraftGroup

pub data Source : Type 0 where
  adsb mlat tisb other : Source

pub record Aircraft (A : Type 0) : Type 0 where
  pub hex : String
  pub callsign : String
  pub registration : Option String
  pub type_code : Option String
  pub type_name : Option String
  pub airline_name : Option String
  pub category : Option String
  pub group : AircraftGroup
  pub latitude : A
  pub longitude : A
  pub altitude_ft : Option A
  pub on_ground : Bool
  pub ground_speed_kt : Option A
  pub track : Option A
  pub vertical_rate_fpm : Option A
  pub squawk : Option String
  pub emergency : Option String
  pub source : Source
  pub timestamp : A

pub record Airport (A : Type 0) : Type 0 where
  pub icao : String
  pub iata : Option String
  pub name : String
  pub latitude : A
  pub longitude : A
  pub elevation_ft : A
  pub scheduled : Bool

abbrev pub group_order : List AircraftGroup
group_order = airline ∷ general ∷ rotorcraft ∷ military ∷ []

abbrev pub group_label : AircraftGroup → String
group_label airline = "Airline flights"
group_label general = "General aviation"
group_label rotorcraft = "Helicopters"
group_label military = "Military & state"

abbrev pub group_color_dark : AircraftGroup → String
group_color_dark airline = "#facc15"
group_color_dark general = "#38bdf8"
group_color_dark rotorcraft = "#f472b6"
group_color_dark military = "#a3e635"

abbrev pub group_color_light : AircraftGroup → String
group_color_light airline = "#a16207"
group_color_light general = "#0369a1"
group_color_light rotorcraft = "#be185d"
group_color_light military = "#4d7c0f"

unfoldable pub group_colors : Theme → AircraftGroup → String
group_colors light = group_color_light
group_colors dark = group_color_dark

abbrev pub airport_color : Theme → String
airport_color dark = "#cbd5e1"
airport_color light = "#334155"

-- The halo and the ring of the selected aircraft, of lib/theme.ts.
abbrev pub marker_halo : Theme → String
marker_halo dark = "#05080d"
marker_halo light = "#ffffff"

abbrev pub selection_color : Theme → String
selection_color dark = "#fb923c"
selection_color light = "#c2410c"

-- Feet and the colour from there on.
abbrev pub altitude_stops : List (ℕ × String)
altitude_stops =
    (0, "#f97316")
    ∷ (2000, "#facc15")
    ∷ (10_000, "#4ade80")
    ∷ (20_000, "#22d3ee")
    ∷ (30_000, "#818cf8")
    ∷ (40_000, "#e879f9")
    ∷ []

abbrev pub source_label : Source → String
source_label adsb = "ADS-B"
source_label mlat = "MLAT (multilateration)"
source_label tisb = "TIS-B"
source_label other = "Other"

pub data VerticalTrend : Type 0 where
  climb descend level : VerticalTrend

module _ {A : Type 0} (n : Number A) where
  open n use {of_ℕ, sub, le, lt}

  -- `Math.abs`.
  abbrev pub abs : A → A
  abs a = if lt a (of_ℕ 0) then sub (of_ℕ 0) a else a

  unfoldable pub vertical_trend : Option A → VerticalTrend
  vertical_trend none = level
  vertical_trend (some rate) =
      if lt (abs rate) (of_ℕ 300) then level else if lt (of_ℕ 0) rate then climb else descend

  abbrev pub airport_radius_km : A
  airport_radius_km = of_ℕ 25

  abbrev pub airport_ceiling_ft : A
  airport_ceiling_ft = of_ℕ 6000

  abbrev pub below_ceiling : Option A → A → Bool
  below_ceiling none elevation = false
  below_ceiling (some altitude) elevation = lt (sub altitude elevation) airport_ceiling_ft

  -- The first filter of `aircraftAround`.
  unfoldable pub low_over : Airport A → Aircraft A → Bool
  low_over airport a = a.on_ground || below_ceiling a.altitude_ft airport.elevation_ft

module _ {A : Type 0} (n : Number A) (trig : Trig A) where
  open n use {le}

  unfoldable pub km_from : Airport A → Aircraft A → A
  unfolding distance_km
  km_from airport a =
      distance_km n trig (record { lat = airport.latitude; lng = airport.longitude })
        (record { lat = a.latitude; lng = a.longitude })

  unfoldable pub aircraft_around : Airport A → List (Aircraft A) → List (Aircraft A × A)
  unfolding low_over km_from sort
  aircraft_around airport aircraft =
      sort (λ x y. le x.1 y.1)
        (keep (λ x. le x.1 (airport_radius_km n))
          (map (λ a. (a, km_from airport a)) (keep (low_over n airport) aircraft)))
