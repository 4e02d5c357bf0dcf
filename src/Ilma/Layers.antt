-- ===== src/Ilma/Layers.antt =====
-- The layers of the air map: lib/layers.ts.
use fintraffic.Base.{Bool, true, List, [], ◌∷◌}

pub data LayerKey : Type 0 where
  airline general rotorcraft military airports labels : LayerKey

abbrev pub layer_order : List LayerKey
layer_order = airline ∷ general ∷ rotorcraft ∷ military ∷ airports ∷ labels ∷ []

abbrev pub default_layer_visibility : LayerKey → Bool
default_layer_visibility key = true
