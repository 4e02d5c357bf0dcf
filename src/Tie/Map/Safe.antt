-- ===== src/Tie/Map/Safe.antt =====
-- The road map through theme swaps, polls and switches.
use fintraffic.Base.{◌≡◌, refl, Bool, true, List, String, some, any, all, arith}
use fintraffic.Shared.Style.{MapApi, IsMap}
use fintraffic.Shared.Style.Install.{holds, distinct}
use fintraffic.Shared.Style.Feeds.{MapState, Event, run}
use fintraffic.Shared.Style.Feeds.Whole.{IsTable, within_or_outside}
use fintraffic.Shared.Style.Feeds.Runs.{IsSettled, IsOnce, IsClear, run-Goes}
use fintraffic.Shared.Style.Feeds.Returns.{brings_back, settled-brings_back}
use fintraffic.Tie.Traffic.{Theme}
use fintraffic.Tie.Layers.{
  LayerKey, stations, roadworks, incidents, speedlimits, weather, maintenance, parking, weathercams,
  charging, layer_order,
}
use fintraffic.Tie.Map.{feed, layer_ids, same_theme}

pub all-key : (p : LayerKey → Bool) (k : LayerKey) → all p layer_order ≡ true → p k ≡ true
all-key p stations e = ground (arith, e)
all-key p roadworks e = ground (arith, e)
all-key p incidents e = ground (arith, e)
all-key p speedlimits e = ground (arith, e)
all-key p weather e = ground (arith, e)
all-key p maintenance e = ground (arith, e)
all-key p parking e = ground (arith, e)
all-key p weathercams e = ground (arith, e)
all-key p charging e = ground (arith, e)

-- A feed's items are those of the same feed and none of another's, in any themes.
apart_from_all :
    (θ θ' : Theme × Theme) (k : LayerKey)
    → all (λ k'. within_or_outside (feed θ k).items (feed θ' k').items) layer_order ≡ true
apart_from_all θ θ' stations = refl
apart_from_all θ θ' roadworks = refl
apart_from_all θ θ' incidents = refl
apart_from_all θ θ' speedlimits = refl
apart_from_all θ θ' weather = refl
apart_from_all θ θ' maintenance = refl
apart_from_all θ θ' parking = refl
apart_from_all θ θ' weathercams = refl
apart_from_all θ θ' charging = refl

pub feed-IsTable : IsTable feed
feed-IsTable = record {
  guarded = λ θ k. all-key (λ j. any (λ i. true) (feed θ j).guards) k refl;
  guards_added = λ θ k. all-key (λ j. all (holds (feed θ j).items) (feed θ j).guards) k refl;
  no_doubles = λ θ k. all-key (λ j. distinct (feed θ j).items) k refl;
  apart = λ θ θ' k k'.
      all-key (λ j. within_or_outside (feed θ k).items (feed θ' j).items) k'
        (apart_from_all θ θ' k);
}

module _ {S : Type 0} (api : MapApi S) (laws : IsMap api) (style_url : Theme → String) where
  -- The road map takes itself to be ready only if its style is loaded; a loaded style holds of each
  -- feed all items or none, and is a theme's basemap; and no layer's handlers are bound twice.
  unfoldable pub IsReady : MapState S LayerKey Theme → Type 0
  IsReady m =
      IsSettled api laws same_theme style_url layer_ids layer_order feed feed-IsTable m × IsOnce m

  -- Let no basemap have an item of a feed. Whatever themes, style events, switches and answers of the
  -- nine feeds come, in any order, to a road map that takes itself to be ready only if its style is
  -- loaded, whose style, if loaded, holds all items of each feed or none, and that has bound no layer's
  -- handlers twice: no call of the map throws, and afterwards this is so again, and a
  -- swap to another theme from there, the event of its style and an answer of any feed throw nothing
  -- either and leave all items of the feed in the style.
  pub run-IsReady :
      IsClear api laws same_theme style_url layer_ids layer_order feed feed-IsTable
      → (es : List (Event LayerKey LayerKey Theme)) (m : MapState S LayerKey Theme) → IsReady m
      → (m' : MapState S LayerKey Theme) × (run api same_theme style_url layer_ids layer_order feed
            es m
          ≡ some m')
        × IsReady m'
        × ((asked θ : Theme) (k : LayerKey)
            → brings_back api laws same_theme style_url layer_ids layer_order feed feed-IsTable
                asked θ k m'
              ≡ true)
  unfolding IsReady
  run-IsReady clear es m ready =
      let end =
        run-Goes api laws same_theme style_url layer_ids layer_order feed feed-IsTable clear es m
          ready.0 ready.1 in
      (
        end.0,
        end.1,
        (end.2, end.3),
        λ asked θ k.
            settled-brings_back api laws same_theme style_url layer_ids layer_order feed
              feed-IsTable clear asked θ k end.0 end.2 end.3,
      )
