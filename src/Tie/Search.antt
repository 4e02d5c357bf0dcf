-- ===== src/Tie/Search.antt =====
-- The selection of the road mode and its search: TieApp.tsx. `digits` stands for `String(id)` on a
-- number and `lower` for `toLowerCase`, the language's own.
pub mod Picks
mod Tests
use Prim.Native.String.{String}
use fintraffic.Base.{
  ℕ, Bool, true, false, List, [], ◌∷◌, ◌++◌, Option, none, some, map, find, ◌==◌, if◌then◌else◌,
}
use fintraffic.Base.Number.{Number}
use fintraffic.Shared.Ids.{Text, chars, text_eq, make_id, parse_id}
use fintraffic.Tie.Traffic.{Theme, dark, light, Station, directional_statuses, congestion_colors}
use fintraffic.Tie.Parking.{ParkingFacility, parking_level, parking_colors}
use fintraffic.Tie.Charging.{ChargingStation, charging_level, charging_colors}
use fintraffic.Tie.Weather.{
  WeatherReading, RoadWeatherStation, road_weather_level, road_weather_colors,
}

pub record WeathercamPreset : Type 0 where
  pub id : String
  pub image_url : String

pub record WeatherObservation (A : Type 0) : Type 0 where
  pub station_id : ℕ
  pub station_name : String
  pub distance_km : A
  pub measured_time : Option String
  pub readings : List (WeatherReading A)

pub record WeathercamStation (A : Type 0) : Type 0 where
  pub id : String
  pub name : String
  pub longitude : A
  pub latitude : A
  pub presets : List WeathercamPreset
  pub weather : Option (WeatherObservation A)

abbrev pub weathercam_color : Theme → String
weathercam_color light = "#0097a7"
weathercam_color dark = "#00bcd4"

pub data Selection (A : Type 0) : Type 0 where
  station : Station A → Selection A
  parking : ParkingFacility A → Selection A
  camera : WeathercamStation A → Selection A
  charger : ChargingStation A → Selection A
  weather : RoadWeatherStation A → Selection A

pub record TieData (A : Type 0) : Type 0 where
  pub stations : List (Station A)
  pub facilities : List (ParkingFacility A)
  pub cameras : List (WeathercamStation A)
  pub chargers : List (ChargingStation A)
  pub weathers : List (RoadWeatherStation A)

pub record SearchItem : Type 0 where
  pub id : Text
  pub label : Text
  pub meta : String
  pub accent : String
  pub haystack : Text

pub record Tie (A : Type 0) : Type 0 where
  pub selection : Option (Selection A)
  pub feeds : TieData A
  pub is_filter_collapsed : Bool
  pub is_detail_collapsed : Bool

-- `name.replace(/_/g, ' ')`.
abbrev pub weather_station_name : String → Text
weather_station_name name = map (λ c. if c == b'_' then b' ' else c) (chars name)

module _ {A : Type 0} where
  -- `select`, on a phone or not.
  unfoldable pub select : Bool → Selection A → Tie A → Tie A
  select mobile next s =
      if mobile
      then record s {
        selection = some next;
        is_detail_collapsed = false;
        is_filter_collapsed = true;
      }
      else record s { selection = some next; is_detail_collapsed = false }

  unfoldable pub clear_selection : Tie A → Tie A
  clear_selection s = record s { selection = none }

  abbrev pub selection_name : Selection A → Text
  selection_name (station s) = chars s.name
  selection_name (parking f) = chars f.name
  selection_name (camera c) = chars c.name
  selection_name (charger c) = chars c.name
  selection_name (weather w) = weather_station_name w.name

module _ {A : Type 0} (digits : ℕ → Text) where
  unfoldable pub selection_id : Selection A → Text
  selection_id (station s) = make_id (chars "station") (digits s.id)
  selection_id (parking f) = make_id (chars "parking") (digits f.id)
  selection_id (camera c) = make_id (chars "camera") (chars c.id)
  selection_id (charger c) = make_id (chars "charger") (chars c.id)
  selection_id (weather w) = make_id (chars "weather") (digits w.id)

  abbrev pub selected : {B : Type 0} → (B → Selection A) → Option B → Option (Selection A)
  selected as_selection none = none
  selected as_selection (some b) = some (as_selection b)

  -- What `pickSearchResult` selects, from the parts of the id.
  abbrev pub picked : TieData A → Text × Text → Option (Selection A)
  picked feeds (kind, key) =
      if text_eq kind (chars "station")
      then selected station (find (λ (s : Station A). text_eq (digits s.id) key) feeds.stations)
      else if text_eq kind (chars "parking")
      then selected parking
          (find (λ (f : ParkingFacility A). text_eq (digits f.id) key) feeds.facilities)
      else if text_eq kind (chars "camera")
      then selected camera
          (find (λ (c : WeathercamStation A). text_eq (chars c.id) key) feeds.cameras)
      else if text_eq kind (chars "charger")
      then selected charger
          (find (λ (c : ChargingStation A). text_eq (chars c.id) key) feeds.chargers)
      else if text_eq kind (chars "weather")
      then selected weather
          (find (λ (w : RoadWeatherStation A). text_eq (digits w.id) key) feeds.weathers)
      else none

  abbrev pub select_found : Bool → Option (Selection A) → Tie A → Tie A
  select_found mobile none s = s
  select_found mobile (some next) s = select mobile next s

  unfoldable pub pick_search_result : Bool → Text → Tie A → Tie A
  unfolding parse_id text_eq select
  pick_search_result mobile id s = select_found mobile (picked s.feeds (parse_id id)) s

module _ {A : Type 0} (n : Number A) (digits : ℕ → Text) (lower : Text → Text) where
  abbrev pub spaced : Text → Text → Text
  spaced a b = a ++ (b' ' ∷ b)

  abbrev pub given : Option String → Text
  given none = []
  given (some s) = chars s

  abbrev pub station_item : Theme → Station A → SearchItem
  station_item theme s = record {
    id = make_id (chars "station") (digits s.id);
    label = chars s.name;
    meta = "TMS";
    accent = congestion_colors theme (directional_statuses n s).0.level;
    haystack = lower (spaced (chars s.name) (digits s.id));
  }

  abbrev pub facility_item : Theme → ParkingFacility A → SearchItem
  facility_item theme f = record {
    id = make_id (chars "parking") (digits f.id);
    label = chars f.name;
    meta = "Parking";
    accent = parking_colors theme (parking_level n f);
    haystack = lower (chars f.name);
  }

  abbrev pub camera_item : Theme → WeathercamStation A → SearchItem
  camera_item theme c = record {
    id = make_id (chars "camera") (chars c.id);
    label = chars c.name;
    meta = "Camera";
    accent = weathercam_color theme;
    haystack = lower (spaced (chars c.name) (chars c.id));
  }

  abbrev pub charger_item : Theme → ChargingStation A → SearchItem
  charger_item theme c = record {
    id = make_id (chars "charger") (chars c.id);
    label = chars c.name;
    meta = "Charging";
    accent = charging_colors theme (charging_level n c);
    haystack = lower (spaced (spaced (chars c.name) (given c.operator)) (given c.city));
  }

  abbrev pub weather_item : Theme → RoadWeatherStation A → SearchItem
  weather_item theme w = record {
    id = make_id (chars "weather") (digits w.id);
    label = weather_station_name w.name;
    meta = "Weather";
    accent = road_weather_colors theme (road_weather_level n w);
    haystack = lower (spaced (weather_station_name w.name) (digits w.id));
  }

  unfoldable pub search_items : Theme → TieData A → List SearchItem
  search_items theme feeds =
      map (station_item theme) feeds.stations
      ++ (map (facility_item theme) feeds.facilities
          ++ (map (camera_item theme) feeds.cameras
              ++ (map (charger_item theme) feeds.chargers
                  ++ map (weather_item theme) feeds.weathers)))
