-- ===== src/Tie/Map/Markers.antt =====
-- The registers of the feeds on the road map, and what a click on a marker selects: the fetches and
-- the click handlers of components/Map.tsx.
mod Clicked
mod Tests
use fintraffic.Base.{ℕ, ◌==◌, List, [], Option, none, String, str_eq}
use fintraffic.Base.Number.{Number}
use fintraffic.Shared.Markers.{Markers, Event, fresh, step, run, get, click}
use fintraffic.Tie.Traffic.{Station}
use fintraffic.Tie.Parking.{ParkingFacility, ParkingLevel}
use fintraffic.Tie.Charging.{ChargingStation, ChargingLevel}
use fintraffic.Tie.Weather.{RoadWeatherStation}
use fintraffic.Tie.Search.{WeathercamStation}
use fintraffic.Tie.Map.Features.{
  Feature, Marked, StationMarker, to_parking, to_charging, to_road_weather, to_stations,
  to_weathercams, with_spaces,
}

-- The feeds, with what their fetches keep of an answer and their builders.
module _ {A : Type 0} (n : Number A) where
  unfoldable pub parking_markers :
      List (Event (ParkingFacility A))
      → Markers (ParkingFacility A) (Feature (A × A) (Marked ℕ ParkingLevel))
  unfolding run step with_spaces to_parking
  parking_markers events = run with_spaces (to_parking n) events fresh

  unfoldable pub charging_markers :
      List (Event (ChargingStation A))
      → Markers (ChargingStation A) (Feature (A × A) (Marked String ChargingLevel))
  unfolding run step to_charging
  charging_markers events = run (λ xs. xs) (to_charging n) events fresh

  unfoldable pub weather_markers :
      List (Event (RoadWeatherStation A))
      → Markers (RoadWeatherStation A) (Feature (A × A) (Marked ℕ String))
  unfolding run step to_road_weather
  weather_markers events = run (λ xs. xs) (to_road_weather n) events fresh

  unfoldable pub station_markers :
      List (Event (Station A)) → Markers (Station A) (Feature (A × A) (StationMarker A))
  unfolding run step to_stations
  station_markers events = run (λ xs. xs) (to_stations n) events fresh

unfoldable pub camera_markers :
    {A : Type 0}
    → List (Event (WeathercamStation A))
    → Markers (WeathercamStation A) (Feature (A × A) String)
unfolding run step to_weathercams
camera_markers events = run (λ xs. xs) to_weathercams events fresh

-- The click handlers of the layers.
module _ {A : Type 0} where
  unfoldable pub click_parking :
      Feature (A × A) (Marked ℕ ParkingLevel)
      → Markers (ParkingFacility A) (Feature (A × A) (Marked ℕ ParkingLevel))
      → Option (ParkingFacility A)
  unfolding click get
  click_parking f m = click (λ a b. a == b) (λ x. x.id) (λ g. g.properties.id) f m

  unfoldable pub click_charging :
      Feature (A × A) (Marked String ChargingLevel)
      → Markers (ChargingStation A) (Feature (A × A) (Marked String ChargingLevel))
      → Option (ChargingStation A)
  unfolding click get
  click_charging f m = click (λ a b. str_eq a b) (λ x. x.id) (λ g. g.properties.id) f m

  unfoldable pub click_weather :
      Feature (A × A) (Marked ℕ String)
      → Markers (RoadWeatherStation A) (Feature (A × A) (Marked ℕ String))
      → Option (RoadWeatherStation A)
  unfolding click get
  click_weather f m = click (λ a b. a == b) (λ x. x.id) (λ g. g.properties.id) f m

  unfoldable pub click_station :
      Feature (A × A) (StationMarker A)
      → Markers (Station A) (Feature (A × A) (StationMarker A))
      → Option (Station A)
  unfolding click get
  click_station f m = click (λ a b. a == b) (λ x. x.id) (λ g. g.properties.id) f m

  unfoldable pub click_camera :
      Feature (A × A) String
      → Markers (WeathercamStation A) (Feature (A × A) String)
      → Option (WeathercamStation A)
  unfolding click get
  click_camera f m = click (λ a b. str_eq a b) (λ x. x.id) (λ g. g.properties) f m
