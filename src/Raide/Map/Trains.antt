-- ===== src/Raide/Map/Trains.antt =====
-- The trains of the rail map: components/Map.tsx of Raide. The numbers of
-- the layers are in thousandths.
use fintraffic.Base.{[], ◌∷◌, none, some, String, true, false}
use fintraffic.Base.Int.{pos, negsuc}
use fintraffic.Shared.Style.{Layer, num, text, flag, arr}
use fintraffic.Tie.Traffic.{Theme}
use fintraffic.Raide.Trains.{TrainGroup, long_distance, commuter, cargo, other, group_colors}
use fintraffic.Raide.Map.Stations.{marker_stroke, label_halo, trains_source}

-- `trainLayerIds`.
abbrev pub circle_id : TrainGroup → String
circle_id long_distance = "trains-longDistance"
circle_id commuter = "trains-commuter"
circle_id cargo = "trains-cargo"
circle_id other = "trains-other"

abbrev pub ring_id : TrainGroup → String
ring_id long_distance = "trains-longDistance-ring"
ring_id commuter = "trains-commuter-ring"
ring_id cargo = "trains-cargo-ring"
ring_id other = "trains-other-ring"

abbrev pub icon_id : TrainGroup → String
icon_id long_distance = "trains-longDistance-icon"
icon_id commuter = "trains-commuter-icon"
icon_id cargo = "trains-cargo-icon"
icon_id other = "trains-other-icon"

abbrev pub cancelled_id : TrainGroup → String
cancelled_id long_distance = "trains-longDistance-cancelled"
cancelled_id commuter = "trains-commuter-cancelled"
cancelled_id cargo = "trains-cargo-cancelled"
cancelled_id other = "trains-other-cancelled"

abbrev pub label_id : TrainGroup → String
label_id long_distance = "trains-longDistance-label"
label_id commuter = "trains-commuter-label"
label_id cargo = "trains-cargo-label"
label_id other = "trains-other-label"

abbrev pub group_key : TrainGroup → String
group_key long_distance = "longDistance"
group_key commuter = "commuter"
group_key cargo = "cargo"
group_key other = "other"

-- `TRAIN_ICON_ID`.
abbrev pub train_icon_id : TrainGroup → String
train_icon_id long_distance = "train-icon-longDistance"
train_icon_id commuter = "train-icon-commuter"
train_icon_id cargo = "train-icon-cargo"
train_icon_id other = "train-icon-other"

-- `DELAY_RING_COLORS.bad` and `DELAY_RING_COLORS.warn`.
abbrev pub ring_bad : String
ring_bad = "#e63946"

abbrev pub ring_warn : String
ring_warn = "#f2c94c"

abbrev pub train_circle : Theme → TrainGroup → Layer
train_circle theme group = record {
  id = circle_id group;
  type = "circle";
  source = trains_source;
  minzoom = none;
  filter = some (
      arr
        ((text "==") ∷ (arr ((text "get") ∷ (text "group") ∷ [])) ∷ (text (group_key group)) ∷ []));
  layout = [];
  paint =
      (
        "circle-radius",
        arr (
            (text "interpolate")
            ∷ (arr ((text "linear") ∷ []))
            ∷ (arr ((text "zoom") ∷ []))
            ∷ (num (pos 5000))
            ∷ (num (pos 5000))
            ∷ (num (pos 9000))
            ∷ (num (pos 8000))
            ∷ (num (pos 12_000))
            ∷ (num (pos 11_000))
            ∷ []),
      )
      ∷ ("circle-color", text (group_colors theme group))
      ∷ ("circle-stroke-width", num (pos 1500))
      ∷ ("circle-stroke-color", text (marker_stroke theme))
      ∷ (
        "circle-opacity",
        arr (
            (text "case")
            ∷ (arr
                ((text "==") ∷ (arr ((text "get") ∷ (text "hasDelay") ∷ [])) ∷ (flag false) ∷ []))
            ∷ (num (pos 450))
            ∷ (num (pos 900))
            ∷ []),
      )
      ∷ [];
}

abbrev pub train_ring : Theme → TrainGroup → Layer
train_ring theme group = record {
  id = ring_id group;
  type = "circle";
  source = trains_source;
  minzoom = none;
  filter = some (
      arr (
        (text "all")
        ∷ (arr (
            (text "==")
            ∷ (arr ((text "get") ∷ (text "group") ∷ []))
            ∷ (text (group_key group))
            ∷ []))
        ∷ (arr (
            (text "in")
            ∷ (arr ((text "get") ∷ (text "delayState") ∷ []))
            ∷ (arr ((text "literal") ∷ (arr ((text "warn") ∷ (text "bad") ∷ [])) ∷ []))
            ∷ []))
        ∷ []));
  layout = [];
  paint =
      (
        "circle-radius",
        arr (
            (text "interpolate")
            ∷ (arr ((text "linear") ∷ []))
            ∷ (arr ((text "zoom") ∷ []))
            ∷ (num (pos 5000))
            ∷ (num (pos 8000))
            ∷ (num (pos 9000))
            ∷ (num (pos 11_000))
            ∷ (num (pos 12_000))
            ∷ (num (pos 14_000))
            ∷ []),
      )
      ∷ ("circle-color", text "rgba(0,0,0,0)")
      ∷ ("circle-stroke-width", num (pos 2000))
      ∷ (
        "circle-stroke-color",
        arr (
            (text "match")
            ∷ (arr ((text "get") ∷ (text "delayState") ∷ []))
            ∷ (text "bad")
            ∷ (text ring_bad)
            ∷ (text ring_warn)
            ∷ []),
      )
      ∷ [];
}

abbrev pub train_icon : Theme → TrainGroup → Layer
train_icon theme group = record {
  id = icon_id group;
  type = "symbol";
  source = trains_source;
  minzoom = none;
  filter = some (
      arr
        ((text "==") ∷ (arr ((text "get") ∷ (text "group") ∷ [])) ∷ (text (group_key group)) ∷ []));
  layout =
      ("icon-image", text (train_icon_id group))
      ∷ (
        "icon-size",
        arr (
            (text "interpolate")
            ∷ (arr ((text "linear") ∷ []))
            ∷ (arr ((text "zoom") ∷ []))
            ∷ (num (pos 5000))
            ∷ (num (pos 220))
            ∷ (num (pos 9000))
            ∷ (num (pos 320))
            ∷ (num (pos 12_000))
            ∷ (num (pos 420))
            ∷ []),
      )
      ∷ ("icon-allow-overlap", flag true)
      ∷ ("icon-ignore-placement", flag true)
      ∷ [];
  paint =
      ("icon-color", text "#ffffff")
      ∷ (
        "icon-opacity",
        arr (
            (text "case")
            ∷ (arr
                ((text "==") ∷ (arr ((text "get") ∷ (text "hasDelay") ∷ [])) ∷ (flag false) ∷ []))
            ∷ (num (pos 450))
            ∷ (num (pos 900))
            ∷ []),
      )
      ∷ [];
}

abbrev pub train_cancelled : Theme → TrainGroup → Layer
train_cancelled theme group = record {
  id = cancelled_id group;
  type = "symbol";
  source = trains_source;
  minzoom = none;
  filter = some (
      arr (
        (text "all")
        ∷ (arr (
            (text "==")
            ∷ (arr ((text "get") ∷ (text "group") ∷ []))
            ∷ (text (group_key group))
            ∷ []))
        ∷ (arr ((text "==") ∷ (arr ((text "get") ∷ (text "cancelled") ∷ [])) ∷ (flag true) ∷ []))
        ∷ []));
  layout =
      ("icon-image", text "train-icon-cancelled-badge")
      ∷ (
        "icon-size",
        arr (
            (text "interpolate")
            ∷ (arr ((text "linear") ∷ []))
            ∷ (arr ((text "zoom") ∷ []))
            ∷ (num (pos 5000))
            ∷ (num (pos 400))
            ∷ (num (pos 9000))
            ∷ (num (pos 500))
            ∷ (num (pos 12_000))
            ∷ (num (pos 600))
            ∷ []),
      )
      ∷ ("icon-offset", arr ((num (pos 18_000)) ∷ (num (negsuc 17_999)) ∷ []))
      ∷ ("icon-allow-overlap", flag true)
      ∷ ("icon-ignore-placement", flag true)
      ∷ [];
  paint = [];
}

abbrev pub train_label_layer : Theme → TrainGroup → Layer
train_label_layer theme group = record {
  id = label_id group;
  type = "symbol";
  source = trains_source;
  minzoom = some (pos 7000);
  filter = some (
      arr
        ((text "==") ∷ (arr ((text "get") ∷ (text "group") ∷ [])) ∷ (text (group_key group)) ∷ []));
  layout =
      ("text-field", arr ((text "get") ∷ (text "label") ∷ []))
      ∷ ("text-font", arr ((text "Montserrat Regular") ∷ []))
      ∷ ("text-size", num (pos 11_000))
      ∷ ("text-offset", arr ((num (pos 0)) ∷ (num (pos 1100)) ∷ []))
      ∷ ("text-anchor", text "top")
      ∷ ("text-allow-overlap", flag false)
      ∷ [];
  paint =
      ("text-color", text (group_colors theme group))
      ∷ ("text-halo-color", text (label_halo theme))
      ∷ ("text-halo-width", num (pos 1200))
      ∷ [];
}
