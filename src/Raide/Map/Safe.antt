-- ===== src/Raide/Map/Safe.antt =====
-- The rail map through theme swaps, polls and switches.
use fintraffic.Base.{◌≡◌, refl, Bool, true, List, String, some, any, all}
use fintraffic.Shared.Style.{MapApi, IsMap}
use fintraffic.Shared.Style.Install.{holds, distinct}
use fintraffic.Shared.Style.Feeds.{MapState, Event, run}
use fintraffic.Shared.Style.Feeds.Whole.{IsTable, within_or_outside}
use fintraffic.Shared.Style.Feeds.Runs.{IsSettled, IsOnce, IsClear, run-Goes}
use fintraffic.Shared.Style.Feeds.Returns.{brings_back, settled-brings_back}
use fintraffic.Tie.Traffic.{Theme}
use fintraffic.Tie.Map.{same_theme}
use fintraffic.Raide.Layers.{LayerKey, layer_order}
use fintraffic.Raide.Map.{FeedKey, stations, trains, feed, layer_ids}

both : (p : FeedKey → Bool) (k : FeedKey) → p stations ≡ true → p trains ≡ true → p k ≡ true
both p stations e f = e
both p trains e f = f

-- A feed's items are its own and none of the other's, in any themes.
apart_from :
    (θ θ' : Theme × Theme) (k k' : FeedKey)
    → within_or_outside (feed θ k).items (feed θ' k').items ≡ true
apart_from θ θ' stations k' =
    both (λ j. within_or_outside (feed θ stations).items (feed θ' j).items) k' refl refl
apart_from θ θ' trains k' =
    both (λ j. within_or_outside (feed θ trains).items (feed θ' j).items) k' refl refl

pub feed-IsTable : IsTable feed
feed-IsTable = record {
  guarded = λ θ k. both (λ j. any (λ i. true) (feed θ j).guards) k refl refl;
  guards_added = λ θ k. both (λ j. all (holds (feed θ j).items) (feed θ j).guards) k refl refl;
  no_doubles = λ θ k. both (λ j. distinct (feed θ j).items) k refl refl;
  apart = apart_from;
}

module _ {S : Type 0} (api : MapApi S) (laws : IsMap api) (style_url : Theme → String) where
  -- The rail map takes itself to be ready only if its style is loaded; a loaded style holds of the
  -- stations and of the trains all items or none, and is a theme's basemap; and no layer's handlers are
  -- bound twice.
  unfoldable pub IsReady : MapState S LayerKey Theme → Type 0
  IsReady m =
      IsSettled api laws same_theme style_url layer_ids layer_order feed feed-IsTable m × IsOnce m

  -- Let no basemap have an item of a feed. Whatever themes, style events, switches, station lists and
  -- train polls come, in any order, to a rail map that takes itself to be ready only if its style is
  -- loaded, whose style, if loaded, holds all items of each feed or none, and that has bound no layer's
  -- handlers twice: no call of the map throws, and afterwards this is so again, and a
  -- swap to another theme from there, the event of its style and an answer of any feed throw nothing
  -- either and leave all items of the feed in the style.
  pub run_raide-IsReady :
      IsClear api laws same_theme style_url layer_ids layer_order feed feed-IsTable
      → (es : List (Event FeedKey LayerKey Theme)) (m : MapState S LayerKey Theme) → IsReady m
      → (m' : MapState S LayerKey Theme) × (run api same_theme style_url layer_ids layer_order feed
            es m
          ≡ some m')
        × IsReady m'
        × ((asked θ : Theme) (k : FeedKey)
            → brings_back api laws same_theme style_url layer_ids layer_order feed feed-IsTable
                asked θ k m'
              ≡ true)
  unfolding IsReady
  run_raide-IsReady clear es m ready =
      let end =
        run-Goes api laws same_theme style_url layer_ids layer_order feed feed-IsTable clear es m
          ready.0 ready.1 in
      (
        end.0,
        end.1,
        (end.2, end.3),
        λ asked θ k.
            settled-brings_back api laws same_theme style_url layer_ids layer_order feed
              feed-IsTable clear asked θ k end.0 end.2 end.3,
      )
