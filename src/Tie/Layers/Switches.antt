-- ===== src/Tie/Layers/Switches.antt =====
-- What a series of toggles leaves.
use fintraffic.Base.{
  ℕ, suc, zero, ◌≡◌, refl, Bool, true, false, not, List, [], ◌∷◌, count, ◌==◌, if◌then◌else◌, ap,
  ◌∙◌, sym, get_or, ==_iff,
}
use fintraffic.Tie.Layers.{
  LayerKey, LayerVisibility, place, toggle_layer, toggle_layers, stations, roadworks, incidents,
  speedlimits, weather, maintenance, parking, weathercams, charging, layer_order,
}

-- A switch that is turned so many times.
abbrev pub turned : ℕ → Bool → Bool
turned zero b = b
turned (suc k) b = turned k (not b)

-- The layers stand in the display order by their places.
abbrev key_at : ℕ → LayerKey
key_at i = get_or layer_order i stations

key_at-place : (key : LayerKey) → key_at (place key) ≡ key
key_at-place stations = refl
key_at-place roadworks = refl
key_at-place incidents = refl
key_at-place speedlimits = refl
key_at-place weather = refl
key_at-place maintenance = refl
key_at-place parking = refl
key_at-place weathercams = refl
key_at-place charging = refl

place_injective : (a b : LayerKey) → place a ≡ place b → a ≡ b
place_injective a b e = sym (key_at-place a) ∙ (ap key_at e ∙ key_at-place b)

-- Whether a toggle is of the layer.
abbrev pub concerns : LayerKey → LayerKey → Bool
concerns other key = place other == place key

-- After any toggles, a layer is as it was, turned once for each toggle of it.
pub toggle_layers-turned :
    (keys : List LayerKey) (prev : LayerVisibility) (layer : LayerKey)
    → toggle_layers keys prev layer ≡ turned (count (concerns layer) keys) (prev layer)
unfolding toggle_layers toggle_layer
toggle_layers-turned [] prev layer = refl
toggle_layers-turned (key ∷ keys) prev layer =
    toggle_layers-turned keys (toggle_layer key prev) layer ∙ on (concerns layer key) refl
  where
    on :
        (b : Bool)
        → concerns layer key ≡ b
        → turned (count (concerns layer) keys) (if b then not (prev key) else prev layer)
          ≡ turned
              (if b then suc (count (concerns layer) keys) else count (concerns layer) keys)
              (prev layer)
    on true e =
        let same : layer ≡ key =
          place_injective layer key ((==_iff (place layer) (place key)).0 e) in
        ap (λ k. turned (count (concerns layer) keys) (not (prev k))) (sym same)
    on false e = refl
