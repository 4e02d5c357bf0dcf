-- ===== src/Tie/Map/Content.antt =====
-- The sources and layers of the road map: components/Map.tsx of Tie. The numbers of the layers are in
-- thousandths.
use fintraffic.Base.{[], ◌∷◌, none, some, String, true}
use fintraffic.Base.Int.{pos}
use fintraffic.Shared.Style.{Layer, num, text, flag, arr}
use fintraffic.Tie.Traffic.{Theme}
use fintraffic.Tie.Layers.{PoiKey}
use fintraffic.Tie.Maintenance.{plough, grit, other, maintenance_colors}

abbrev pub stations_source : String
stations_source = "tms-stations"

abbrev pub parking_source : String
parking_source = "parking-facilities"

abbrev pub weathercam_source : String
weathercam_source = "weathercams"

abbrev pub charging_source : String
charging_source = "charging-stations"

abbrev pub speedlimit_source : String
speedlimit_source = "speed-limits"

abbrev pub weather_source : String
weather_source = "road-weather"

abbrev pub vehicles_source : String
vehicles_source = "maintenance-vehicles"

abbrev pub trails_source : String
trails_source = "maintenance-trails"

abbrev pub stations_layer : String
stations_layer = "tms-stations-circles"

abbrev pub parking_layer : String
parking_layer = "parking-facilities-circles"

abbrev pub weathercam_layer : String
weathercam_layer = "weathercams-circles"

abbrev pub charging_layer : String
charging_layer = "charging-stations-circles"

abbrev pub speedlimit_layer : String
speedlimit_layer = "speed-limits-signs"

abbrev pub weather_layer : String
weather_layer = "road-weather-icons"

abbrev pub vehicles_layer : String
vehicles_layer = "maintenance-vehicles-icons"

abbrev pub trails_layer : String
trails_layer = "maintenance-trails-line"

-- `${sourceId}-line` and `${sourceId}-point`, of the two sources that there are.
abbrev pub poi_line_id : PoiKey → String
poi_line_id PoiKey.roadworks = "roadworks-line"
poi_line_id PoiKey.incidents = "incidents-line"

abbrev pub poi_point_id : PoiKey → String
poi_point_id PoiKey.roadworks = "roadworks-point"
poi_point_id PoiKey.incidents = "incidents-point"

abbrev pub poi_source : PoiKey → String
poi_source PoiKey.roadworks = "roadworks"
poi_source PoiKey.incidents = "incidents"

-- `MARKER_ICONS`.
abbrev pub poi_icon : PoiKey → String
poi_icon PoiKey.roadworks = "roadworks-icon"
poi_icon PoiKey.incidents = "incidents-icon"

abbrev pub poi_line : PoiKey → String → Layer
poi_line source_id line_color = record {
  id = poi_line_id source_id;
  type = "line";
  source = poi_source source_id;
  minzoom = none;
  filter = none;
  layout = ("line-cap", text "round") ∷ [];
  paint =
      ("line-color", text line_color)
      ∷ ("line-width", num (pos 4000))
      ∷ ("line-opacity", num (pos 850))
      ∷ [];
}

abbrev pub poi_point : PoiKey → String → Layer
poi_point source_id icon_image = record {
  id = poi_point_id source_id;
  type = "symbol";
  source = poi_source source_id;
  minzoom = none;
  filter = some (arr ((text "==") ∷ (arr ((text "geometry-type") ∷ [])) ∷ (text "Point") ∷ []));
  layout =
      ("icon-image", text icon_image)
      ∷ ("icon-size", num (pos 800))
      ∷ ("icon-allow-overlap", flag true)
      ∷ ("icon-ignore-placement", flag true)
      ∷ [];
  paint = [];
}

abbrev pub stations_disc : Layer
stations_disc = record {
  id = stations_layer;
  type = "symbol";
  source = stations_source;
  minzoom = none;
  filter = none;
  layout =
      (
        "icon-image",
        arr (
            (text "concat")
            ∷ (text "station-")
            ∷ (arr ((text "get") ∷ (text "level1") ∷ []))
            ∷ (text "-")
            ∷ (arr ((text "get") ∷ (text "level2") ∷ []))
            ∷ (text "-icon")
            ∷ []),
      )
      ∷ (
        "icon-size",
        arr (
            (text "interpolate")
            ∷ (arr ((text "linear") ∷ []))
            ∷ (arr ((text "get") ∷ (text "volume") ∷ []))
            ∷ (num (pos 0))
            ∷ (num (pos 500))
            ∷ (num (pos 100_000))
            ∷ (num (pos 875))
            ∷ (num (pos 500_000))
            ∷ (num (pos 1500))
            ∷ (num (pos 1_500_000))
            ∷ (num (pos 2250))
            ∷ []),
      )
      ∷ ("icon-rotate", arr ((text "get") ∷ (text "bearing") ∷ []))
      ∷ ("icon-rotation-alignment", text "map")
      ∷ ("icon-allow-overlap", flag true)
      ∷ ("icon-ignore-placement", flag true)
      ∷ [];
  paint = [];
}

abbrev pub speed_signs : Layer
speed_signs = record {
  id = speedlimit_layer;
  type = "symbol";
  source = speedlimit_source;
  minzoom = none;
  filter = none;
  layout =
      (
        "icon-image",
        arr (
            (text "concat")
            ∷ (text "speedlimit-")
            ∷ (arr ((text "to-string") ∷ (arr ((text "get") ∷ (text "speedLimit") ∷ [])) ∷ []))
            ∷ (text "-icon")
            ∷ []),
      )
      ∷ ("icon-size", num (pos 800))
      ∷ ("icon-allow-overlap", flag true)
      ∷ ("icon-ignore-placement", flag true)
      ∷ [];
  paint = [];
}

abbrev pub parking_marks : Layer
parking_marks = record {
  id = parking_layer;
  type = "symbol";
  source = parking_source;
  minzoom = none;
  filter = none;
  layout =
      (
        "icon-image",
        arr (
            (text "match")
            ∷ (arr ((text "get") ∷ (text "level") ∷ []))
            ∷ (text "plenty")
            ∷ (text "parking-plenty-icon")
            ∷ (text "limited")
            ∷ (text "parking-limited-icon")
            ∷ (text "full")
            ∷ (text "parking-full-icon")
            ∷ (text "parking-unknown-icon")
            ∷ []),
      )
      ∷ ("icon-size", num (pos 800))
      ∷ ("icon-allow-overlap", flag true)
      ∷ ("icon-ignore-placement", flag true)
      ∷ [];
  paint = [];
}

abbrev pub weathercam_marks : Layer
weathercam_marks = record {
  id = weathercam_layer;
  type = "symbol";
  source = weathercam_source;
  minzoom = none;
  filter = none;
  layout =
      ("icon-image", text "weathercam-icon")
      ∷ ("icon-size", num (pos 800))
      ∷ ("icon-allow-overlap", flag true)
      ∷ ("icon-ignore-placement", flag true)
      ∷ [];
  paint = [];
}

abbrev pub charging_marks : Layer
charging_marks = record {
  id = charging_layer;
  type = "symbol";
  source = charging_source;
  minzoom = none;
  filter = none;
  layout =
      (
        "icon-image",
        arr (
            (text "match")
            ∷ (arr ((text "get") ∷ (text "level") ∷ []))
            ∷ (text "available")
            ∷ (text "charging-available-icon")
            ∷ (text "limited")
            ∷ (text "charging-limited-icon")
            ∷ (text "full")
            ∷ (text "charging-full-icon")
            ∷ (text "charging-unknown-icon")
            ∷ []),
      )
      ∷ ("icon-size", num (pos 800))
      ∷ ("icon-allow-overlap", flag true)
      ∷ ("icon-ignore-placement", flag true)
      ∷ [];
  paint = [];
}

abbrev pub weather_icons : Layer
weather_icons = record {
  id = weather_layer;
  type = "symbol";
  source = weather_source;
  minzoom = none;
  filter = none;
  layout =
      ("icon-image", arr ((text "get") ∷ (text "icon") ∷ []))
      ∷ ("icon-size", num (pos 700))
      ∷ ("icon-allow-overlap", flag true)
      ∷ ("icon-ignore-placement", flag true)
      ∷ [];
  paint = [];
}

abbrev pub trails_line : Theme → Layer
trails_line theme = record {
  id = trails_layer;
  type = "line";
  source = trails_source;
  minzoom = none;
  filter = none;
  layout = ("line-cap", text "round") ∷ ("line-join", text "round") ∷ [];
  paint =
      (
        "line-color",
        arr (
            (text "match")
            ∷ (arr ((text "get") ∷ (text "category") ∷ []))
            ∷ (text "plough")
            ∷ (text (maintenance_colors theme plough))
            ∷ (text "grit")
            ∷ (text (maintenance_colors theme grit))
            ∷ (text (maintenance_colors theme other))
            ∷ []),
      )
      ∷ (
        "line-width",
        arr (
            (text "interpolate")
            ∷ (arr ((text "linear") ∷ []))
            ∷ (arr ((text "zoom") ∷ []))
            ∷ (num (pos 6000))
            ∷ (num (pos 1500))
            ∷ (num (pos 12_000))
            ∷ (num (pos 4000))
            ∷ []),
      )
      ∷ (
        "line-opacity",
        arr (
            (text "interpolate")
            ∷ (arr ((text "linear") ∷ []))
            ∷ (arr ((text "get") ∷ (text "age") ∷ []))
            ∷ (num (pos 0))
            ∷ (num (pos 800))
            ∷ (num (pos 60_000))
            ∷ (num (pos 200))
            ∷ []),
      )
      ∷ [];
}

abbrev pub vehicle_icons : Layer
vehicle_icons = record {
  id = vehicles_layer;
  type = "symbol";
  source = vehicles_source;
  minzoom = none;
  filter = none;
  layout =
      ("icon-image", arr ((text "get") ∷ (text "icon") ∷ []))
      ∷ ("icon-size", num (pos 700))
      ∷ ("icon-rotate", arr ((text "get") ∷ (text "direction") ∷ []))
      ∷ ("icon-rotation-alignment", text "map")
      ∷ ("icon-allow-overlap", flag true)
      ∷ ("icon-ignore-placement", flag true)
      ∷ [];
  paint =
      (
        "icon-opacity",
        arr (
            (text "interpolate")
            ∷ (arr ((text "linear") ∷ []))
            ∷ (arr ((text "get") ∷ (text "age") ∷ []))
            ∷ (num (pos 15_000))
            ∷ (num (pos 1000))
            ∷ (num (pos 60_000))
            ∷ (num (pos 450))
            ∷ []),
      )
      ∷ [];
}
