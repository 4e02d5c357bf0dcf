-- ===== src/Tie/Map/Markers/Clicked.antt =====
-- A click on any marker of the road map selects something.
use text.Mathlib.TextPositions.{eq_refl}
use fintraffic.Base.{
  ℕ, ◌≡◌, Bool, true, ◌==◌, List, some, is_some, arith, get_elem?, String, str_eq,
}
use fintraffic.Base.Number.{Number}
use fintraffic.Shared.Markers.{Event, fresh}
use fintraffic.Shared.Markers.Clicks.{
  map-IsCarried, click-finds, all-keep, fresh-IsCurrent, plain-selects,
}
use fintraffic.Tie.Traffic.{Station}
use fintraffic.Tie.Parking.{ParkingFacility, ParkingLevel}
use fintraffic.Tie.Charging.{ChargingStation, ChargingLevel}
use fintraffic.Tie.Weather.{RoadWeatherStation}
use fintraffic.Tie.Map.Features.{
  Feature, Marked, StationMarker, parking_feature, charging_feature, weather_feature,
  station_feature, to_parking, to_charging, to_road_weather, to_stations, with_spaces,
}
use fintraffic.Tie.Map.Markers.{
  parking_markers, charging_markers, weather_markers, station_markers, click_parking,
  click_charging, click_weather, click_station,
}

same_self : (a : ℕ) → (a == a) ≡ true
same_self a = ground arith

module _ {A : Type 0} (n : Number A) where
  -- Whatever answers and swaps of the style came, a click on any parking marker that is on the map
  -- selects a facility of the marker's id, and it is one with a known number of free spaces.
  pub click_parking-selects :
      (events : List (Event (ParkingFacility A)))
      (fs : List (Feature (A × A) (Marked ℕ ParkingLevel))) (i : ℕ)
      (f : Feature (A × A) (Marked ℕ ParkingLevel))
      → (parking_markers n events).drawn ≡ some fs
      → get_elem? fs i ≡ some f
      → (x : ParkingFacility A) × (click_parking f (parking_markers n events) ≡ some x)
        × ((x.id == f.properties.id) ≡ true)
        × (is_some x.spaces_available ≡ true)
  unfolding parking_markers click_parking with_spaces to_parking
  click_parking-selects events fs i f e at =
      let key : ParkingFacility A → ℕ = λ x. x.id in
      let key_of : Feature (A × A) (Marked ℕ ParkingLevel) → ℕ = λ g. g.properties.id in
      let spaced : ParkingFacility A → Bool = λ x. is_some x.spaces_available in
      click-finds (λ a b. a == b) key key_of with_spaces (to_parking n) spaced events fresh fs i f
        (all-keep spaced)
        (map-IsCarried (λ a b. a == b) key key_of (parking_feature n) (λ x. same_self x.id))
        (fresh-IsCurrent (λ a b. a == b) key key_of with_spaces (to_parking n) spaced) e at

  -- The same of the charging stations.
  click_charging-selects :
      (events : List (Event (ChargingStation A)))
      (fs : List (Feature (A × A) (Marked String ChargingLevel))) (i : ℕ)
      (f : Feature (A × A) (Marked String ChargingLevel))
      → (charging_markers n events).drawn ≡ some fs
      → get_elem? fs i ≡ some f
      → (x : ChargingStation A) × (click_charging f (charging_markers n events) ≡ some x)
        × (str_eq x.id f.properties.id ≡ true)
  unfolding charging_markers click_charging to_charging
  click_charging-selects events fs i f e at =
      plain-selects (λ a b. str_eq a b) (λ x. x.id) (λ g. g.properties.id) (charging_feature n)
        events fs i f (λ x. eq_refl x.id) e at

  -- The same of the road weather stations.
  click_weather-selects :
      (events : List (Event (RoadWeatherStation A))) (fs : List (Feature (A × A) (Marked ℕ String)))
      (i : ℕ) (f : Feature (A × A) (Marked ℕ String))
      → (weather_markers n events).drawn ≡ some fs
      → get_elem? fs i ≡ some f
      → (x : RoadWeatherStation A) × (click_weather f (weather_markers n events) ≡ some x)
        × ((x.id == f.properties.id) ≡ true)
  unfolding weather_markers click_weather to_road_weather
  click_weather-selects events fs i f e at =
      plain-selects (λ a b. a == b) (λ x. x.id) (λ g. g.properties.id) (weather_feature n) events fs
        i f (λ x. same_self x.id) e at

  -- The same of the traffic stations.
  click_station-selects :
      (events : List (Event (Station A))) (fs : List (Feature (A × A) (StationMarker A))) (i : ℕ)
      (f : Feature (A × A) (StationMarker A))
      → (station_markers n events).drawn ≡ some fs
      → get_elem? fs i ≡ some f
      → (x : Station A) × (click_station f (station_markers n events) ≡ some x)
        × ((x.id == f.properties.id) ≡ true)
  unfolding station_markers click_station to_stations
  click_station-selects events fs i f e at =
      plain-selects (λ a b. a == b) (λ x. x.id) (λ g. g.properties.id) (station_feature n) events fs
        i f (λ x. same_self x.id) e at
