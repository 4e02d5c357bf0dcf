-- ===== src/Ilma/Map/Tests.antt =====
-- The air map in a style that is a list, with helicopters and labels switched off.
use fintraffic.Base.{Bool, true, false, [], ◌∷◌}
use fintraffic.Shared.Style.{image, source}
use fintraffic.Shared.Style.Listed.{Style}
use fintraffic.Ilma.Layers.{LayerKey, airline, general, rotorcraft, military, airports, labels}

abbrev switched : LayerKey → Bool
switched airline = true
switched general = true
switched rotorcraft = false
switched military = true
switched airports = true
switched labels = false

abbrev before : Style
before = record {
  items = image "marker" ∷ source "aircraft" ∷ [];
  switched = ("aircraft-airline", false) ∷ [];
  is_loaded = true;
  url = "dark";
}
