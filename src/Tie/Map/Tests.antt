-- ===== src/Tie/Map/Tests.antt =====
-- The road map in a style that is a list: a theme swap while answers come.
use fintraffic.Base.{◌≡◌, refl, true, false, arith, all, not, List, [], ◌∷◌, some, String, map}
use mathlib.Core.Option
use fintraffic.Shared.Style.{name}
use fintraffic.Shared.Style.Listed.{Style, listed, listed-IsMap, own_items}
use fintraffic.Shared.Style.Install.{holds}
use fintraffic.Shared.Style.Feeds.Whole.{outside-holds}
use fintraffic.Shared.Style.Feeds.{MapState, Event, loads, themes, style_loads, answers, run}
use fintraffic.Shared.Style.Feeds.Runs.{IsSettled, IsClear}
use fintraffic.Shared.Style.Feeds.Returns.{brings_back}
use fintraffic.Tie.Traffic.{Theme, dark, light}
use fintraffic.Tie.Layers.{LayerKey, stations, incidents, layer_order}
use fintraffic.Tie.Map.{feed, layer_ids, same_theme, basemap_style}
use fintraffic.Tie.Map.Safe.{all-key, feed-IsTable, IsReady, run-IsReady}

abbrev mounted : MapState Style LayerKey Theme
mounted = record {
  style = record { items = []; switched = []; is_loaded = false; url = basemap_style dark };
  theme = dark;
  style_theme = dark;
  style_ready = false;
  waiting = false;
  visibility = λ k. true;
  bound_layers = [];
  handlers = [];
}

abbrev events : List (Event LayerKey LayerKey Theme)
events =
    themes dark
    ∷ loads
    ∷ answers dark stations
    ∷ answers dark incidents
    ∷ themes light
    ∷ answers dark stations
    ∷ style_loads
    ∷ style_loads
    ∷ answers dark stations
    ∷ answers dark stations
    ∷ []

-- After the swap the stations are back, the incidents are not yet, and handlers are bound once.
swapped :
    Option.map {B = List String × List String}
      (λ (m : MapState Style LayerKey Theme). (map name m.style.items, m.handlers))
      (run listed same_theme basemap_style layer_ids layer_order feed events mounted)
    ≡ some (
      "tms-stations-circles" ∷ "tms-stations" ∷ "carto" ∷ "roads" ∷ [],
      "incidents-point" ∷ "incidents-line" ∷ "tms-stations-circles" ∷ [],
    )
unfolding run
swapped = refl

mounted-IsReady : IsReady listed listed-IsMap basemap_style mounted
unfolding IsReady IsSettled
mounted-IsReady =
    ((λ e. absurd (ground (arith, e)), λ e. absurd (ground (arith, e)), (dark, refl)), (refl, refl))

basemaps-IsClear :
    IsClear listed listed-IsMap same_theme basemap_style layer_ids layer_order feed feed-IsTable
basemaps-IsClear base θ k j =
    outside-holds own_items (feed θ k).items j
      (all-key (λ l. all (λ i. not (holds own_items i)) (feed θ l).items) k refl)

run-IsReady_example :
    (m' : MapState Style LayerKey Theme) × (run listed same_theme basemap_style layer_ids
        layer_order feed events mounted
      ≡ some m')
    × IsReady listed listed-IsMap basemap_style m'
    × ((asked θ : Theme) (k : LayerKey)
        → brings_back listed listed-IsMap same_theme basemap_style layer_ids layer_order feed
            feed-IsTable asked θ k m'
          ≡ true)
run-IsReady_example =
    run-IsReady listed listed-IsMap basemap_style basemaps-IsClear events mounted mounted-IsReady
