-- ===== src/Raide/Layers.antt =====
-- The layers of the rail map: lib/layers.ts.
use fintraffic.Base.{Bool, true, List, [], ◌∷◌, String}

pub data LayerKey : Type 0 where
  long_distance commuter cargo other stations tracks : LayerKey

abbrev pub layer_order : List LayerKey
layer_order = long_distance ∷ commuter ∷ cargo ∷ other ∷ stations ∷ tracks ∷ []

abbrev pub layer_label : LayerKey → String
layer_label long_distance = "Long-distance trains"
layer_label commuter = "Commuter trains"
layer_label cargo = "Cargo trains"
layer_label other = "Other trains"
layer_label stations = "Stations"
layer_label tracks = "Railway tracks"

abbrev pub default_layer_visibility : LayerKey → Bool
default_layer_visibility key = true
