-- ===== src/Tie/Map/Features.antt =====
-- The features of the feeds on the road map: the GeoJSON builders of components/Map.tsx, the icon names
-- of lib/markerIcons.ts and `minutesAgo`. `time_of` stands for `new Date(time).getTime()`.
use Prim.Native.String.{String}
use fintraffic.Base.{ℕ, Bool, true, false, List, Option, none, some, map, keep, is_some}
use fintraffic.Base.Int.{ℤ, pos, negsuc}
use fintraffic.Base.Number.{Number}
use fintraffic.Tie.Traffic.{Station, CongestionLevel, directional_statuses, station_volume}
use fintraffic.Tie.Parking.{ParkingFacility, ParkingLevel, parking_level}
use fintraffic.Tie.Charging.{ChargingStation, ChargingLevel, charging_level}
use fintraffic.Tie.Weather.{
  RoadWeatherStation, RoadWeatherLevel, ok, caution, hazard, unknown, road_weather_level,
}
use fintraffic.Tie.Maintenance.{
  MaintenanceVehicle, MaintenanceCategory, plough, grit, other, maintenance_category,
}
use fintraffic.Tie.Search.{WeathercamStation}

pub record Feature (G P : Type 0) : Type 0 where
  pub coordinates : G
  pub properties : P

-- The level or the icon, beside the id.
pub record Marked (K P : Type 0) : Type 0 where
  pub id : K
  pub mark : P

pub record VehicleMarker (A : Type 0) : Type 0 where
  pub id : ℕ
  pub icon : String
  pub direction : A
  pub age : ℤ

pub record TrailMarker : Type 0 where
  pub category : MaintenanceCategory
  pub age : ℤ

pub record StationMarker (A : Type 0) : Type 0 where
  pub id : ℕ
  pub level1 : CongestionLevel
  pub level2 : CongestionLevel
  pub volume : A
  pub bearing : A

pub record MaintenanceRoute (G : Type 0) : Type 0 where
  pub geometry : G
  pub tasks : List String
  pub end_time : String

unfoldable pub road_weather_icon_id : RoadWeatherLevel → String
road_weather_icon_id ok = "road-weather-ok-icon"
road_weather_icon_id caution = "road-weather-caution-icon"
road_weather_icon_id hazard = "road-weather-hazard-icon"
road_weather_icon_id unknown = "road-weather-unknown-icon"

unfoldable pub vehicle_icon_id : MaintenanceCategory → Bool → String
vehicle_icon_id plough true = "vehicle-plough-arrow-icon"
vehicle_icon_id plough false = "vehicle-plough-dot-icon"
vehicle_icon_id grit true = "vehicle-grit-arrow-icon"
vehicle_icon_id grit false = "vehicle-grit-dot-icon"
vehicle_icon_id other true = "vehicle-other-arrow-icon"
vehicle_icon_id other false = "vehicle-other-dot-icon"

-- `Math.max(0, ...)`.
abbrev pub not_negative : ℤ → ℤ
not_negative (pos a) = pos a
not_negative (negsuc a) = pos 0

-- `... ?? 0`.
abbrev pub or_default : {A : Type 0} → A → Option A → A
or_default zero none = zero
or_default zero (some a) = a

module _ {A : Type 0} (n : Number A) where
  open n use {of_ℕ, sub, div, round}

  abbrev pub parking_feature : ParkingFacility A → Feature (A × A) (Marked ℕ ParkingLevel)
  parking_feature facility = record {
    coordinates = (facility.longitude, facility.latitude);
    properties = record { id = facility.id; mark = parking_level n facility };
  }

  unfoldable pub to_parking :
      List (ParkingFacility A) → List (Feature (A × A) (Marked ℕ ParkingLevel))
  to_parking facilities = map parking_feature facilities

  abbrev pub charging_feature : ChargingStation A → Feature (A × A) (Marked String ChargingLevel)
  charging_feature station = record {
    coordinates = (station.longitude, station.latitude);
    properties = record { id = station.id; mark = charging_level n station };
  }

  unfoldable pub to_charging :
      List (ChargingStation A) → List (Feature (A × A) (Marked String ChargingLevel))
  to_charging stations = map charging_feature stations

  abbrev pub weather_feature : RoadWeatherStation A → Feature (A × A) (Marked ℕ String)
  weather_feature station = record {
    coordinates = (station.longitude, station.latitude);
    properties = record {
      id = station.id;
      mark = road_weather_icon_id (road_weather_level n station);
    };
  }

  unfoldable pub to_road_weather :
      List (RoadWeatherStation A) → List (Feature (A × A) (Marked ℕ String))
  to_road_weather stations = map weather_feature stations

  unfoldable pub minutes_ago : (String → A) → String → A → ℤ
  minutes_ago time_of time now = not_negative (round (div (sub now (time_of time)) (of_ℕ 60_000)))

  abbrev pub vehicle_feature :
      (String → A) → A → MaintenanceVehicle A → Feature (A × A) (VehicleMarker A)
  vehicle_feature time_of now vehicle = record {
    coordinates = (vehicle.longitude, vehicle.latitude);
    properties = record {
      id = vehicle.id;
      icon = vehicle_icon_id (maintenance_category vehicle.tasks) (is_some vehicle.direction);
      direction = or_default (of_ℕ 0) vehicle.direction;
      age = minutes_ago time_of vehicle.time now;
    };
  }

  unfoldable pub to_vehicles :
      (String → A) → List (MaintenanceVehicle A) → A → List (Feature (A × A) (VehicleMarker A))
  to_vehicles time_of vehicles now = map (vehicle_feature time_of now) vehicles

  unfoldable pub to_trails :
      {G : Type 0} → (String → A) → List (MaintenanceRoute G) → A → List (Feature G TrailMarker)
  to_trails time_of routes now =
      map
        (λ route. record {
          coordinates = route.geometry;
          properties = record {
            category = maintenance_category route.tasks;
            age = minutes_ago time_of route.end_time now;
          };
        })
        routes

  abbrev pub station_feature : Station A → Feature (A × A) (StationMarker A)
  station_feature station = record {
    coordinates = (station.longitude, station.latitude);
    properties = record {
      id = station.id;
      level1 = (directional_statuses n station).0.level;
      level2 = (directional_statuses n station).1.level;
      volume = station_volume n station;
      bearing = or_default (of_ℕ 0) station.bearing;
    };
  }

  unfoldable pub to_stations : List (Station A) → List (Feature (A × A) (StationMarker A))
  to_stations stations = map station_feature stations

module _ {A : Type 0} where
  abbrev pub camera_feature : WeathercamStation A → Feature (A × A) String
  camera_feature station = record {
    coordinates = (station.longitude, station.latitude);
    properties = station.id;
  }

  unfoldable pub to_weathercams : List (WeathercamStation A) → List (Feature (A × A) String)
  to_weathercams stations = map camera_feature stations

  -- Facilities with no utilization row yet are hidden.
  unfoldable pub with_spaces : List (ParkingFacility A) → List (ParkingFacility A)
  with_spaces facilities = keep (λ f. is_some f.spaces_available) facilities
