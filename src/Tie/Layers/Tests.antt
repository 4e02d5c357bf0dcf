-- ===== src/Tie/Layers/Tests.antt =====
-- Three toggles.
use fintraffic.Base.{◌≡◌, refl, false, List, [], ◌∷◌}
use fintraffic.Tie.Layers.{
  LayerKey, parking, weather, toggle_layer, toggle_layers, default_layer_visibility,
}

abbrev clicks : List LayerKey
clicks = weather ∷ parking ∷ parking ∷ []

hidden : toggle_layers clicks default_layer_visibility weather ≡ false
unfolding toggle_layers toggle_layer
hidden = refl
