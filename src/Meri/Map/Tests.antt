-- ===== src/Meri/Map/Tests.antt =====
-- The sea map in a style that is a list.
use fintraffic.Base.{◌≡◌, refl, ◌||◌, true, false, [], ◌∷◌, some}
use fintraffic.Shared.Style.{Item, image, source}
use fintraffic.Shared.Style.Install.{flatten, holds, swapped, IsClearOf}
use fintraffic.Shared.Style.Listed.{Style, listed, listed-IsMap, own_items}
use fintraffic.Shared.Style.Feeds.Whole.{outside-holds}
use fintraffic.Meri.Map.{content, setup_map_content}
use fintraffic.Meri.Map.Swap.{swap-setup}
use fintraffic.Meri.Map.Overlays.{
  Shown, live_layers, replay_layers, track_layers, show_layers, AreVisible, live_or_recorded,
}

-- A style of something else.
abbrev before : Style
before = record {
  items = image "marker" ∷ source "carto" ∷ [];
  switched = [];
  is_loaded = true;
  url = "light";
}

clear : IsClearOf listed listed-IsMap (flatten (content true)) "dark"
clear j e = outside-holds own_items (flatten (content true)) j refl e

swap-setup_example :
    (s' : Style) × (setup_map_content listed true (swapped listed listed-IsMap "dark" before)
      ≡ some s')
    × ((i : Item) → listed.present s' i ≡ (holds (flatten (content true)) i || holds own_items i))
    × (setup_map_content listed false s' ≡ some s')
swap-setup_example = swap-setup listed listed-IsMap "dark" true false before clear

-- A track replay.
abbrev tracking : Shown
tracking = record {
  ports = true;
  sea_conditions = true;
  aton = false;
  webcams = true;
  replay = false;
  track_replay = true;
}

live_or_recorded_example :
    (s' : Style) × (setup_map_content listed true (swapped listed listed-IsMap "dark" before)
      ≡ some s')
    × AreVisible listed listed-IsMap live_layers false (show_layers listed tracking s')
    × AreVisible listed listed-IsMap replay_layers true (show_layers listed tracking s')
    × AreVisible listed listed-IsMap track_layers true (show_layers listed tracking s')
    × AreVisible listed listed-IsMap ("trail-line" ∷ []) true (show_layers listed tracking s')
live_or_recorded_example = live_or_recorded listed listed-IsMap "dark" true tracking before clear
