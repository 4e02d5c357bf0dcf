-- ===== src/Meri/Map.antt =====
-- What the sea map puts into its style: `setupMapContent` of components/Map.tsx.
pub mod Sea
pub mod Fleet
pub mod Swap
pub mod Overlays
mod Tests
use fintraffic.Base.{Bool, List, [], ◌∷◌, ◌++◌, Option, String, map}
use fintraffic.Shared.Style.{Item, image, source, layer, MapApi, install}
use fintraffic.Meri.Ship.{ShipCategory, all_categories}
use fintraffic.Meri.Map.Sea.{
  wind_arrow_images, ports_layer, ports_labels, buoys_layer, sea_level_layer, sea_wave_layer,
  sea_wind_layer, sea_conditions_labels, aton_layer, cameras_layer,
}
use fintraffic.Meri.Map.Fleet.{
  trail_line, track_progress_line, track_ghost_halo, track_ghost, vessel_selection,
  vessels_stationary, vessels_moving, replay_selection, replay_vessels, replay_labels,
  vessel_labels,
}

-- `vessel-<category>`.
abbrev pub vessel_image : ShipCategory → String
vessel_image ShipCategory.passenger = "vessel-passenger"
vessel_image ShipCategory.cargo = "vessel-cargo"
vessel_image ShipCategory.tanker = "vessel-tanker"
vessel_image ShipCategory.highspeed = "vessel-highspeed"
vessel_image ShipCategory.special = "vessel-special"
vessel_image ShipCategory.sailing = "vessel-sailing"
vessel_image ShipCategory.military = "vessel-military"
vessel_image ShipCategory.other = "vessel-other"

-- Each under a test of its own.
abbrev pub singly : List Item → List (List Item)
singly [] = []
singly (i ∷ is) = (i ∷ []) ∷ singly is

abbrev pub content_images : List Item
content_images =
    map (λ cat. image (vessel_image cat)) all_categories
    ++ (image "aton-warning" ∷ image "vessel-replay" ∷ image "camera-icon" ∷ [])
    ++ map image wind_arrow_images

abbrev pub content_sources : List Item
content_sources =
    source "vessels"
    ∷ source "ports"
    ∷ source "buoys"
    ∷ source "sea-conditions"
    ∷ source "aton"
    ∷ source "cameras"
    ∷ source "trail"
    ∷ source "track-progress"
    ∷ source "track-marker"
    ∷ source "replay"
    ∷ []

-- The ports and their names stand under one test.
abbrev pub content_layers : Bool → List (List Item)
content_layers dark =
    (layer ports_layer ∷ layer (ports_labels dark) ∷ [])
    ∷ singly (
        layer buoys_layer
        ∷ layer sea_level_layer
        ∷ layer sea_wave_layer
        ∷ layer sea_wind_layer
        ∷ layer (sea_conditions_labels dark)
        ∷ layer aton_layer
        ∷ layer cameras_layer
        ∷ layer trail_line
        ∷ layer track_progress_line
        ∷ layer track_ghost_halo
        ∷ layer track_ghost
        ∷ layer vessel_selection
        ∷ layer vessels_stationary
        ∷ layer vessels_moving
        ∷ layer replay_selection
        ∷ layer replay_vessels
        ∷ layer (replay_labels dark)
        ∷ layer (vessel_labels dark)
        ∷ [])

-- What the set-up adds, under the tests it makes, in order. `dark` is whether the document's theme
-- is other than light.
abbrev pub content : Bool → List (List Item)
content dark = singly content_images ++ singly content_sources ++ content_layers dark

unfoldable pub setup_map_content : {S : Type 0} → MapApi S → Bool → S → Option S
unfolding install
setup_map_content api dark s = install api (content dark) s
