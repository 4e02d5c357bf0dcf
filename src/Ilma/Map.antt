-- ===== src/Ilma/Map.antt =====
-- The air map: components/Map.tsx of Ilma. What `installLayers` adds once the icons are loaded, and
-- what of it the switches show.
pub mod Features
pub mod Content
pub mod Shown
mod Tests
use fintraffic.Base.{Bool, ◌&&◌, List, [], ◌∷◌, ◌++◌, Option, some, String}
use fintraffic.Shared.Style.{Item, source, layer, MapApi, and_then, install, switch_all}
use fintraffic.Tie.Traffic.{Theme}
use fintraffic.Ilma.Aircraft.{AircraftGroup, group_order}
use fintraffic.Ilma.Layers.{LayerKey}
use fintraffic.Ilma.Map.Content.{
  airports_source, airports_layer, airports_label_layer, trail_source, selected_source,
  aircraft_source, alert_id, icon_id, label_id, airports_icon, airports_label, trail_line,
  selected_ring, aircraft_alert, aircraft_icon, aircraft_label,
}

-- `installAirports`.
abbrev pub airports_items : Theme → List Item
airports_items theme =
    source airports_source ∷ layer (airports_icon theme) ∷ layer (airports_label theme) ∷ []

-- `installSelection`.
abbrev pub selection_items : Theme → List Item
selection_items theme =
    source trail_source
    ∷ layer trail_line
    ∷ source selected_source
    ∷ layer (selected_ring theme)
    ∷ []

abbrev pub group_items : Theme → AircraftGroup → List Item
group_items theme group =
    layer (aircraft_alert group)
    ∷ layer (aircraft_icon theme group)
    ∷ layer (aircraft_label theme group)
    ∷ []

abbrev pub all_groups_items : Theme → List AircraftGroup → List Item
all_groups_items theme [] = []
all_groups_items theme (group ∷ groups) = group_items theme group ++ all_groups_items theme groups

-- `installAircraft`.
abbrev pub aircraft_items : Theme → List Item
aircraft_items theme = source aircraft_source ∷ all_groups_items theme group_order

abbrev pub content : Theme → List (List Item)
content theme = airports_items theme ∷ selection_items theme ∷ aircraft_items theme ∷ []

-- The switch of a group.
abbrev pub group_key : AircraftGroup → LayerKey
group_key AircraftGroup.airline = LayerKey.airline
group_key AircraftGroup.general = LayerKey.general
group_key AircraftGroup.rotorcraft = LayerKey.rotorcraft
group_key AircraftGroup.military = LayerKey.military

abbrev pub group_switches : (LayerKey → Bool) → List AircraftGroup → List (List String × Bool)
group_switches v [] = []
group_switches v (group ∷ groups) =
    (alert_id group ∷ icon_id group ∷ [], v (group_key group))
    ∷ (label_id group ∷ [], v (group_key group) && v LayerKey.labels)
    ∷ group_switches v groups

abbrev pub visibility_switches : (LayerKey → Bool) → List (List String × Bool)
visibility_switches v =
    group_switches v group_order
    ++ ((airports_layer ∷ airports_label_layer ∷ [], v LayerKey.airports) ∷ [])

-- `applyVisibility`.
unfoldable pub apply_visibility : {S : Type 0} → MapApi S → (LayerKey → Bool) → S → S
unfolding switch_all
apply_visibility api v s = switch_all api (visibility_switches v) s

-- What `installLayers` does to a style that is ready, without the data of the sources.
unfoldable pub install_layers : {S : Type 0} → MapApi S → Theme → (LayerKey → Bool) → S → Option S
unfolding install apply_visibility
install_layers api theme v s =
    and_then (install api (content theme) s) (λ s'. some (apply_visibility api v s'))
