-- ===== src/Tie/Layers.antt =====
-- The layers of the road map and their switches: lib/layers.ts, and `toggleLayer` of TieApp.tsx.
pub mod Switches
mod Tests
use fintraffic.Base.{ℕ, Bool, true, not, List, [], ◌∷◌, String, ◌==◌, if◌then◌else◌}
use fintraffic.Tie.Traffic.{Theme, dark, light}

pub data LayerKey : Type 0 where
  stations roadworks incidents speedlimits weather maintenance parking weathercams charging :
      LayerKey

abbrev pub layer_order : List LayerKey
layer_order =
    stations ∷ roadworks ∷ incidents ∷ speedlimits ∷ weather ∷ maintenance ∷ parking ∷ weathercams
    ∷ charging ∷ []

abbrev pub layer_label : LayerKey → String
layer_label stations = "Stations"
layer_label roadworks = "Road works"
layer_label incidents = "Incidents"
layer_label speedlimits = "Variable speed limits"
layer_label weather = "Road weather"
layer_label maintenance = "Maintenance vehicles"
layer_label parking = "Parking"
layer_label weathercams = "Weather cameras"
layer_label charging = "EV charging"

-- The keys of `POI_COLORS`.
pub data PoiKey : Type 0 where
  roadworks incidents : PoiKey

abbrev pub poi_color_dark : PoiKey → String
poi_color_dark roadworks = "#f39c12"
poi_color_dark incidents = "#9b59b6"

abbrev pub poi_color_light : PoiKey → String
poi_color_light roadworks = "#c87f0a"
poi_color_light incidents = "#7d4a9c"

unfoldable pub poi_colors : Theme → PoiKey → String
poi_colors light = poi_color_light
poi_colors dark = poi_color_dark

abbrev pub LayerVisibility : Type 0
LayerVisibility = LayerKey → Bool

abbrev pub default_layer_visibility : LayerVisibility
default_layer_visibility key = true

abbrev pub place : LayerKey → ℕ
place stations = 0
place roadworks = 1
place incidents = 2
place speedlimits = 3
place weather = 4
place maintenance = 5
place parking = 6
place weathercams = 7
place charging = 8

-- `{ ...prev, [key]: !prev[key] }`.
unfoldable pub toggle_layer : LayerKey → LayerVisibility → LayerVisibility
toggle_layer key prev other = if place other == place key then not (prev key) else prev other

unfoldable pub toggle_layers : List LayerKey → LayerVisibility → LayerVisibility
unfolding toggle_layer
toggle_layers [] prev = prev
toggle_layers (key ∷ keys) prev = toggle_layers keys (toggle_layer key prev)
