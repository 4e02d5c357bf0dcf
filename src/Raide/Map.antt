-- ===== src/Raide/Map.antt =====
-- The rail map: components/Map.tsx of Raide. The feeds are the stations and the trains; the overlay
-- of the basemap's own rail lines is no feed.
pub mod Features
pub mod Stations
pub mod Trains
pub mod Safe
mod Tests
use fintraffic.Base.{Bool, true, false, List, [], ◌∷◌, ◌++◌, String}
use fintraffic.Shared.Style.{Item, source, layer}
use fintraffic.Shared.Style.Feeds.{Feed}
use fintraffic.Tie.Traffic.{Theme}
use fintraffic.Raide.Trains.{TrainGroup}
use fintraffic.Raide.Layers.{LayerKey}
use fintraffic.Raide.Map.Stations.{
  stations_source, stations_layer, stations_major_layer, stations_label_layer,
  stations_major_label_layer, stations_circles, stations_major, stations_label,
  stations_major_label, trains_source,
}
use fintraffic.Raide.Map.Trains.{
  circle_id, ring_id, icon_id, cancelled_id, label_id, train_circle, train_ring, train_icon,
  train_cancelled, train_label_layer,
}

-- `Object.values(trainLayerIds(group))`.
abbrev pub group_ids : TrainGroup → List String
group_ids group =
    circle_id group ∷ ring_id group ∷ icon_id group ∷ cancelled_id group ∷ label_id group ∷ []

-- `LAYER_IDS`.
abbrev pub layer_ids : LayerKey → List String
layer_ids LayerKey.long_distance = group_ids TrainGroup.long_distance
layer_ids LayerKey.commuter = group_ids TrainGroup.commuter
layer_ids LayerKey.cargo = group_ids TrainGroup.cargo
layer_ids LayerKey.other = group_ids TrainGroup.other
layer_ids LayerKey.stations =
    stations_layer ∷ stations_major_layer ∷ stations_label_layer ∷ stations_major_label_layer ∷ []
layer_ids LayerKey.tracks = "rail-tracks" ∷ []

-- The layers of one pass of the loop over `TRAIN_GROUPS`.
abbrev pub group_layers : Theme → TrainGroup → List Item
group_layers theme group =
    layer (train_circle theme group)
    ∷ layer (train_ring theme group)
    ∷ layer (train_icon theme group)
    ∷ layer (train_cancelled theme group)
    ∷ layer (train_label_layer theme group)
    ∷ []

pub data FeedKey : Type 0 where
  stations trains : FeedKey

-- `fetchStations` and `fetchTrains`.
abbrev pub feed_in : Theme → FeedKey → Feed LayerKey
feed_in theme stations = record {
  guards = source stations_source ∷ [];
  items =
      source stations_source
      ∷ layer (stations_circles theme)
      ∷ layer (stations_major theme)
      ∷ layer (stations_label theme)
      ∷ layer (stations_major_label theme)
      ∷ [];
  keys = LayerKey.stations ∷ [];
  bound =
      stations_layer ∷ stations_major_layer ∷ stations_label_layer ∷ stations_major_label_layer
      ∷ [];
}
feed_in theme trains = record {
  guards = source trains_source ∷ [];
  items =
      source trains_source
      ∷ (group_layers theme TrainGroup.long_distance
          ++ (group_layers theme TrainGroup.commuter
              ++ (group_layers theme TrainGroup.cargo ++ group_layers theme TrainGroup.other)));
  keys = LayerKey.long_distance ∷ LayerKey.commuter ∷ LayerKey.cargo ∷ LayerKey.other ∷ [];
  bound =
      circle_id TrainGroup.long_distance
      ∷ circle_id TrainGroup.commuter
      ∷ circle_id TrainGroup.cargo
      ∷ circle_id TrainGroup.other
      ∷ [];
}

-- Both take their colours of the theme when they answer.
abbrev pub feed : Theme × Theme → FeedKey → Feed LayerKey
feed θ key = feed_in θ.1 key
