-- ===== src/Tie/Map.antt =====
-- The road map: components/Map.tsx of Tie.
pub mod Content
pub mod Features
mod Markers
pub mod Safe
mod Tests
use fintraffic.Base.{Bool, true, false, List, [], ◌∷◌, String}
use fintraffic.Shared.Style.{Item, source, layer}
use fintraffic.Shared.Style.Feeds.{Feed}
use fintraffic.Tie.Traffic.{Theme, dark, light}
use fintraffic.Tie.Layers.{LayerKey, PoiKey, layer_order, poi_colors}
use fintraffic.Tie.Map.Content.{
  stations_source, stations_layer, stations_disc, poi_source, poi_line_id, poi_point_id, poi_line,
  poi_point, poi_icon, speedlimit_source, speedlimit_layer, speed_signs, parking_source,
  parking_layer, parking_marks, weathercam_source, weathercam_layer, weathercam_marks,
  charging_source, charging_layer, charging_marks, weather_source, weather_layer, weather_icons,
  vehicles_source, vehicles_layer, vehicle_icons, trails_source, trails_layer, trails_line,
}

-- `LAYER_IDS`.
abbrev pub layer_ids : LayerKey → List String
layer_ids LayerKey.stations = stations_layer ∷ []
layer_ids LayerKey.roadworks = "roadworks-line" ∷ "roadworks-point" ∷ []
layer_ids LayerKey.incidents = "incidents-line" ∷ "incidents-point" ∷ []
layer_ids LayerKey.speedlimits = speedlimit_layer ∷ []
layer_ids LayerKey.weather = weather_layer ∷ []
layer_ids LayerKey.maintenance = trails_layer ∷ vehicles_layer ∷ []
layer_ids LayerKey.parking = parking_layer ∷ []
layer_ids LayerKey.weathercams = weathercam_layer ∷ []
layer_ids LayerKey.charging = charging_layer ∷ []

-- `fetchPoiLayer`, called for the road works and for the incidents with the theme's colours.
abbrev pub poi_feed : LayerKey → PoiKey → Theme → Feed LayerKey
poi_feed key source_id theme = record {
  guards = source (poi_source source_id) ∷ [];
  items =
      source (poi_source source_id)
      ∷ layer (poi_line source_id (poi_colors theme source_id))
      ∷ layer (poi_point source_id (poi_icon source_id))
      ∷ [];
  keys = key ∷ [];
  bound = poi_line_id source_id ∷ poi_point_id source_id ∷ [];
}

abbrev pub stations_feed : Feed LayerKey
stations_feed = record {
  guards = source stations_source ∷ [];
  items = source stations_source ∷ layer stations_disc ∷ [];
  keys = LayerKey.stations ∷ [];
  bound = stations_layer ∷ [];
}

-- `fetchSpeedLimits`, without the images of the signs.
abbrev pub speedlimits_feed : Feed LayerKey
speedlimits_feed = record {
  guards = source speedlimit_source ∷ [];
  items = source speedlimit_source ∷ layer speed_signs ∷ [];
  keys = LayerKey.speedlimits ∷ [];
  bound = speedlimit_layer ∷ [];
}

abbrev pub weather_feed : Feed LayerKey
weather_feed = record {
  guards = source weather_source ∷ [];
  items = source weather_source ∷ layer weather_icons ∷ [];
  keys = LayerKey.weather ∷ [];
  bound = weather_layer ∷ [];
}

abbrev pub maintenance_feed : Theme → Feed LayerKey
maintenance_feed theme = record {
  guards = source vehicles_source ∷ source trails_source ∷ [];
  items =
      source trails_source
      ∷ source vehicles_source
      ∷ layer (trails_line theme)
      ∷ layer vehicle_icons
      ∷ [];
  keys = LayerKey.maintenance ∷ [];
  bound = vehicles_layer ∷ [];
}

abbrev pub parking_feed : Feed LayerKey
parking_feed = record {
  guards = source parking_source ∷ [];
  items = source parking_source ∷ layer parking_marks ∷ [];
  keys = LayerKey.parking ∷ [];
  bound = parking_layer ∷ [];
}

abbrev pub weathercams_feed : Feed LayerKey
weathercams_feed = record {
  guards = source weathercam_source ∷ [];
  items = source weathercam_source ∷ layer weathercam_marks ∷ [];
  keys = LayerKey.weathercams ∷ [];
  bound = weathercam_layer ∷ [];
}

abbrev pub charging_feed : Feed LayerKey
charging_feed = record {
  guards = source charging_source ∷ [];
  items = source charging_source ∷ layer charging_marks ∷ [];
  keys = LayerKey.charging ∷ [];
  bound = charging_layer ∷ [];
}

-- What `installLayers` fetches: the road works and the incidents take their colours of the theme when
-- they are asked for, the maintenance of that when it answers.
abbrev pub feed : Theme × Theme → LayerKey → Feed LayerKey
feed θ LayerKey.stations = stations_feed
feed θ LayerKey.roadworks = poi_feed LayerKey.roadworks PoiKey.roadworks θ.0
feed θ LayerKey.incidents = poi_feed LayerKey.incidents PoiKey.incidents θ.0
feed θ LayerKey.speedlimits = speedlimits_feed
feed θ LayerKey.weather = weather_feed
feed θ LayerKey.maintenance = maintenance_feed θ.1
feed θ LayerKey.parking = parking_feed
feed θ LayerKey.weathercams = weathercams_feed
feed θ LayerKey.charging = charging_feed

-- `a === b` on themes.
abbrev pub same_theme : Theme → Theme → Bool
same_theme dark dark = true
same_theme light light = true
same_theme _ _ = false

-- `BASEMAP_STYLES`.
abbrev pub basemap_style : Theme → String
basemap_style dark = "https://basemaps.cartocdn.com/gl/dark-matter-gl-style/style.json"
basemap_style light = "https://basemaps.cartocdn.com/gl/positron-gl-style/style.json"
