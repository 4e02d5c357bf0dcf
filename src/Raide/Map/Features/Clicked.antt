-- ===== src/Raide/Map/Features/Clicked.antt =====
-- A click on any marker of the rail map selects something.
use text.Mathlib.TextPositions.{eq_refl}
use fintraffic.Base.{ℕ, ◌≡◌, Bool, true, List, some, get_elem?, map, str_eq, String}
use fintraffic.Base.Number.{Number}
use fintraffic.Shared.Ids.{text_eq}
use fintraffic.Shared.Ids.RoundTrip.{text_eq_refl, eq_of_text_eq}
use fintraffic.Shared.Markers.{Event, fresh}
use fintraffic.Shared.Markers.Clicks.{
  map-IsCarried, keep-IsCarried, click-finds, all-true, fresh-IsCurrent, plain-selects,
}
use fintraffic.Raide.Trains.{Train}
use fintraffic.Raide.Selection.{StationMeta}
use fintraffic.Raide.Fleet.{train_key}
use fintraffic.Raide.Map.Features.{
  TrainFeature, StationFeature, station_feature, train_feature, to_stations, to_trains,
  station_markers, train_markers, click_station, click_train,
}

module _ {A : Type 0} where
  -- Whatever answers and swaps of the style came, a click on any station that is on the map selects a
  -- station of its code.
  pub click_station-selects :
      (events : List (Event (StationMeta A))) (fs : List (StationFeature A)) (i : ℕ)
      (f : StationFeature A)
      → (station_markers events).drawn ≡ some fs
      → get_elem? fs i ≡ some f
      → (x : StationMeta A) × (click_station f (station_markers events) ≡ some x)
        × (str_eq x.code f.code ≡ true)
  unfolding station_markers click_station to_stations
  click_station-selects events fs i f e at =
      let same : String → String → Bool = λ a b. str_eq a b in
      let key : StationMeta A → String = λ x. x.code in
      let key_of : StationFeature A → String = λ g. g.code in
      let build : List (StationMeta A) → List (StationFeature A) = λ xs. map station_feature xs in
      let found =
        click-finds same key key_of (λ xs. xs) to_stations (λ x. true) events fresh fs i f all-true
          (keep-IsCarried same key key_of (λ s. s.passenger) build
            (map-IsCarried same key key_of station_feature (λ x. eq_refl x.code)))
          (fresh-IsCurrent same key key_of (λ xs. xs) to_stations (λ x. true)) e at in
      (found.0, found.1, found.2)

module _ {A : Type 0} (n : Number A) where
  -- Whatever answers and swaps of the style came, a click on any train that is on the map selects a
  -- train of its number and departure date.
  pub click_train-selects :
      (events : List (Event (Train A))) (fs : List (TrainFeature A)) (i : ℕ) (f : TrainFeature A)
      → (train_markers n events).drawn ≡ some fs
      → get_elem? fs i ≡ some f
      → (x : Train A) × (click_train n f (train_markers n events) ≡ some x)
        × (train_key n x ≡ f.key)
  unfolding train_markers click_train to_trains
  click_train-selects events fs i f e at =
      let found =
        plain-selects text_eq (train_key n) (λ g. g.key) (train_feature n) events fs i f
          (λ x. text_eq_refl (train_key n x)) e at in
      (found.0, found.1, eq_of_text_eq (train_key n found.0) f.key found.2)
