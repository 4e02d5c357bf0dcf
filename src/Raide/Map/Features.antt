-- ===== src/Raide/Map/Features.antt =====
-- The features of the feeds on the rail map, the registers and what a click on a marker selects:
-- components/Map.tsx of Raide.
mod Clicked
mod Tests
use Prim.Native.String.{String}
use fintraffic.Base.{Bool, List, Option, map, keep, str_eq}
use fintraffic.Base.Number.{Number}
use fintraffic.Shared.Ids.{Text, text_eq}
use fintraffic.Shared.Markers.{Markers, Event, fresh, step, run, get, click}
use fintraffic.Raide.Trains.{Train, TrainGroup, DelaySeverity, delay_severity}
use fintraffic.Raide.Selection.{StationMeta}
use fintraffic.Raide.Fleet.{train_group, train_key, train_label}

pub record TrainFeature (A : Type 0) : Type 0 where
  pub coordinates : A × A
  pub key : Text
  pub group : TrainGroup
  pub label : Text
  pub cancelled : Bool
  pub has_delay : Bool
  pub delay_state : DelaySeverity

pub record StationFeature (A : Type 0) : Type 0 where
  pub coordinates : A × A
  pub code : String
  pub name : String
  pub major : Bool

module _ {A : Type 0} where
  abbrev pub station_feature : StationMeta A → StationFeature A
  station_feature station = record {
    coordinates = (station.longitude, station.latitude);
    code = station.code;
    name = station.name;
    major = station.major;
  }

  -- Passenger stations only.
  unfoldable pub to_stations : List (StationMeta A) → List (StationFeature A)
  to_stations stations = map station_feature (keep (λ s. s.passenger) stations)

  unfoldable pub station_markers :
      List (Event (StationMeta A)) → Markers (StationMeta A) (StationFeature A)
  unfolding run step to_stations
  station_markers events = run (λ xs. xs) to_stations events fresh

  unfoldable pub click_station :
      StationFeature A → Markers (StationMeta A) (StationFeature A) → Option (StationMeta A)
  unfolding click get
  click_station f m = click (λ a b. str_eq a b) (λ x. x.code) (λ g. g.code) f m

module _ {A : Type 0} (n : Number A) where
  abbrev pub train_feature : Train A → TrainFeature A
  train_feature train = record {
    coordinates = (train.longitude, train.latitude);
    key = train_key n train;
    group = train_group train.category;
    label = train_label n train;
    cancelled = train.cancelled;
    has_delay = train.has_delay;
    delay_state = delay_severity n train.delay_min train.has_delay;
  }

  unfoldable pub to_trains : List (Train A) → List (TrainFeature A)
  to_trains trains = map train_feature trains

  unfoldable pub train_markers : List (Event (Train A)) → Markers (Train A) (TrainFeature A)
  unfolding run step to_trains
  train_markers events = run (λ xs. xs) to_trains events fresh

  unfoldable pub click_train :
      TrainFeature A → Markers (Train A) (TrainFeature A) → Option (Train A)
  unfolding click get train_key text_eq
  click_train f m = click text_eq (train_key n) (λ g. g.key) f m
