-- ===== src/Raide/Map/Tests.antt =====
-- The rail map in a style that is a list: a theme swap while answers come.
use fintraffic.Base.{◌≡◌, refl, true, false, List, [], ◌∷◌, some, String, length, ℕ}
use mathlib.Core.Option
use fintraffic.Shared.Style.Listed.{Style, listed}
use fintraffic.Shared.Style.Feeds.{MapState, Event, loads, themes, style_loads, answers, run}
use fintraffic.Tie.Traffic.{Theme, dark, light}
use fintraffic.Raide.Layers.{LayerKey, layer_order}
use fintraffic.Raide.Map.{FeedKey, stations, trains, feed, layer_ids}
use fintraffic.Tie.Map.{same_theme, basemap_style}

abbrev mounted : MapState Style LayerKey Theme
mounted = record {
  style = record { items = []; switched = []; is_loaded = false; url = basemap_style dark };
  theme = dark;
  style_theme = dark;
  style_ready = false;
  waiting = false;
  visibility = λ k. true;
  bound_layers = [];
  handlers = [];
}

abbrev events : List (Event FeedKey LayerKey Theme)
events =
    themes dark
    ∷ loads
    ∷ answers dark stations
    ∷ answers dark trains
    ∷ themes light
    ∷ answers dark stations
    ∷ style_loads
    ∷ style_loads
    ∷ answers dark stations
    ∷ answers dark stations
    ∷ []

-- After the swap the stations are back, the trains are not yet, and handlers are bound once.
swapped_back :
    Option.map {B = ℕ × List String}
      (λ (m : MapState Style LayerKey Theme). (length m.style.items, m.handlers))
      (run listed same_theme basemap_style layer_ids layer_order feed events mounted)
    ≡ some (
      7,
      "trains-other" ∷ "trains-cargo" ∷ "trains-commuter" ∷ "trains-longDistance"
          ∷ "stations-major-label" ∷ "stations-label" ∷ "stations-major" ∷ "stations-circles" ∷ [],
    )
unfolding run
swapped_back = refl
