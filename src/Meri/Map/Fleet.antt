-- ===== src/Meri/Map/Fleet.antt =====
-- Vessels and their tracks on the map: layers of `setupMapContent` in components/Map.tsx. Their
-- numbers are in thousandths.
use fintraffic.Base.{[], ◌∷◌, none, some, String, Bool, true, false}
use fintraffic.Base.Int.{pos}
use fintraffic.Shared.Style.{Layer, num, text, flag, arr}
use fintraffic.Meri.Map.Sea.{label_color, label_halo}

abbrev pub default_trail_color : String
default_trail_color = "#2dd4bf"

abbrev pub trail_line : Layer
trail_line = record {
  id = "trail-line";
  type = "line";
  source = "trail";
  minzoom = none;
  filter = none;
  layout = ("line-cap", text "round") ∷ ("line-join", text "round") ∷ [];
  paint =
      ("line-color", text default_trail_color)
      ∷ (
        "line-width",
        arr (
            (text "interpolate")
            ∷ (arr ((text "linear") ∷ []))
            ∷ (arr ((text "zoom") ∷ []))
            ∷ (num (pos 5000))
            ∷ (num (pos 2000))
            ∷ (num (pos 12_000))
            ∷ (num (pos 4000))
            ∷ []),
      )
      ∷ ("line-dasharray", arr ((num (pos 0)) ∷ (num (pos 2000)) ∷ []))
      ∷ [];
}

abbrev pub track_progress_line : Layer
track_progress_line = record {
  id = "track-progress-line";
  type = "line";
  source = "track-progress";
  minzoom = none;
  filter = none;
  layout =
      ("visibility", text "none") ∷ ("line-cap", text "round") ∷ ("line-join", text "round") ∷ [];
  paint =
      ("line-color", text default_trail_color)
      ∷ (
        "line-width",
        arr (
            (text "interpolate")
            ∷ (arr ((text "linear") ∷ []))
            ∷ (arr ((text "zoom") ∷ []))
            ∷ (num (pos 5000))
            ∷ (num (pos 2500))
            ∷ (num (pos 12_000))
            ∷ (num (pos 5000))
            ∷ []),
      )
      ∷ ("line-opacity", num (pos 900))
      ∷ [];
}

abbrev pub track_ghost_halo : Layer
track_ghost_halo = record {
  id = "track-ghost-halo";
  type = "circle";
  source = "track-marker";
  minzoom = none;
  filter = none;
  layout = ("visibility", text "none") ∷ [];
  paint =
      (
        "circle-radius",
        arr (
            (text "interpolate")
            ∷ (arr ((text "linear") ∷ []))
            ∷ (arr ((text "zoom") ∷ []))
            ∷ (num (pos 5000))
            ∷ (num (pos 10_000))
            ∷ (num (pos 12_000))
            ∷ (num (pos 18_000))
            ∷ []),
      )
      ∷ ("circle-color", text "rgba(45, 212, 191, 0.12)")
      ∷ ("circle-stroke-color", text default_trail_color)
      ∷ ("circle-stroke-width", num (pos 2000))
      ∷ [];
}

abbrev pub track_ghost : Layer
track_ghost = record {
  id = "track-ghost";
  type = "symbol";
  source = "track-marker";
  minzoom = none;
  filter = none;
  layout =
      ("visibility", text "none")
      ∷ ("icon-image", arr ((text "get") ∷ (text "icon") ∷ []))
      ∷ ("icon-rotate", arr ((text "get") ∷ (text "hdg") ∷ []))
      ∷ ("icon-rotation-alignment", text "map")
      ∷ ("icon-allow-overlap", flag true)
      ∷ ("icon-ignore-placement", flag true)
      ∷ (
        "icon-size",
        arr (
            (text "interpolate")
            ∷ (arr ((text "linear") ∷ []))
            ∷ (arr ((text "zoom") ∷ []))
            ∷ (num (pos 4000))
            ∷ (num (pos 450))
            ∷ (num (pos 9000))
            ∷ (num (pos 750))
            ∷ (num (pos 14_000))
            ∷ (num (pos 1100))
            ∷ []),
      )
      ∷ [];
  paint = [];
}

abbrev pub vessel_selection : Layer
vessel_selection = record {
  id = "vessel-selection";
  type = "circle";
  source = "vessels";
  minzoom = none;
  filter =
      some (arr ((text "==") ∷ (arr ((text "get") ∷ (text "selected") ∷ [])) ∷ (flag true) ∷ []));
  layout = [];
  paint =
      (
        "circle-radius",
        arr (
            (text "interpolate")
            ∷ (arr ((text "linear") ∷ []))
            ∷ (arr ((text "zoom") ∷ []))
            ∷ (num (pos 5000))
            ∷ (num (pos 11_000))
            ∷ (num (pos 12_000))
            ∷ (num (pos 20_000))
            ∷ []),
      )
      ∷ ("circle-color", text "rgba(45, 212, 191, 0.15)")
      ∷ ("circle-stroke-color", text "#2dd4bf")
      ∷ ("circle-stroke-width", num (pos 2000))
      ∷ [];
}

abbrev pub vessels_stationary : Layer
vessels_stationary = record {
  id = "vessels-stationary";
  type = "circle";
  source = "vessels";
  minzoom = none;
  filter =
      some (arr ((text "==") ∷ (arr ((text "get") ∷ (text "stationary") ∷ [])) ∷ (flag true) ∷ []));
  layout = [];
  paint =
      (
        "circle-radius",
        arr (
            (text "interpolate")
            ∷ (arr ((text "linear") ∷ []))
            ∷ (arr ((text "zoom") ∷ []))
            ∷ (num (pos 4000))
            ∷ (num (pos 2500))
            ∷ (num (pos 9000))
            ∷ (num (pos 4500))
            ∷ (num (pos 14_000))
            ∷ (num (pos 7000))
            ∷ []),
      )
      ∷ ("circle-color", arr ((text "get") ∷ (text "color") ∷ []))
      ∷ ("circle-opacity", num (pos 850))
      ∷ ("circle-stroke-color", text "rgba(2, 11, 23, 0.6)")
      ∷ ("circle-stroke-width", num (pos 1000))
      ∷ [];
}

abbrev pub vessels_moving : Layer
vessels_moving = record {
  id = "vessels-moving";
  type = "symbol";
  source = "vessels";
  minzoom = none;
  filter =
      some
        (arr ((text "==") ∷ (arr ((text "get") ∷ (text "stationary") ∷ [])) ∷ (flag false) ∷ []));
  layout =
      ("icon-image", arr ((text "get") ∷ (text "icon") ∷ []))
      ∷ ("icon-rotate", arr ((text "get") ∷ (text "hdg") ∷ []))
      ∷ ("icon-rotation-alignment", text "map")
      ∷ ("icon-allow-overlap", flag true)
      ∷ ("icon-ignore-placement", flag true)
      ∷ (
        "icon-size",
        arr (
            (text "interpolate")
            ∷ (arr ((text "linear") ∷ []))
            ∷ (arr ((text "zoom") ∷ []))
            ∷ (num (pos 4000))
            ∷ (num (pos 450))
            ∷ (num (pos 9000))
            ∷ (num (pos 750))
            ∷ (num (pos 14_000))
            ∷ (num (pos 1100))
            ∷ []),
      )
      ∷ [];
  paint = [];
}

abbrev pub replay_selection : Layer
replay_selection = record {
  id = "replay-selection";
  type = "circle";
  source = "replay";
  minzoom = none;
  filter =
      some (arr ((text "==") ∷ (arr ((text "get") ∷ (text "selected") ∷ [])) ∷ (flag true) ∷ []));
  layout = ("visibility", text "none") ∷ [];
  paint =
      (
        "circle-radius",
        arr (
            (text "interpolate")
            ∷ (arr ((text "linear") ∷ []))
            ∷ (arr ((text "zoom") ∷ []))
            ∷ (num (pos 5000))
            ∷ (num (pos 11_000))
            ∷ (num (pos 12_000))
            ∷ (num (pos 20_000))
            ∷ []),
      )
      ∷ ("circle-color", text "rgba(45, 212, 191, 0.15)")
      ∷ ("circle-stroke-color", text "#2dd4bf")
      ∷ ("circle-stroke-width", num (pos 2000))
      ∷ [];
}

abbrev pub replay_vessels : Layer
replay_vessels = record {
  id = "replay-vessels";
  type = "symbol";
  source = "replay";
  minzoom = none;
  filter = none;
  layout =
      ("visibility", text "none")
      ∷ ("icon-image", arr ((text "get") ∷ (text "icon") ∷ []))
      ∷ ("icon-rotate", arr ((text "get") ∷ (text "hdg") ∷ []))
      ∷ ("icon-rotation-alignment", text "map")
      ∷ ("icon-allow-overlap", flag true)
      ∷ ("icon-ignore-placement", flag true)
      ∷ (
        "icon-size",
        arr (
            (text "interpolate")
            ∷ (arr ((text "linear") ∷ []))
            ∷ (arr ((text "zoom") ∷ []))
            ∷ (num (pos 4000))
            ∷ (num (pos 450))
            ∷ (num (pos 9000))
            ∷ (num (pos 750))
            ∷ (num (pos 14_000))
            ∷ (num (pos 1100))
            ∷ []),
      )
      ∷ [];
  paint = [];
}

abbrev pub replay_labels : Bool → Layer
replay_labels dark = record {
  id = "replay-labels";
  type = "symbol";
  source = "replay";
  minzoom = some (pos 9000);
  filter = none;
  layout =
      ("visibility", text "none")
      ∷ ("text-field", arr ((text "get") ∷ (text "name") ∷ []))
      ∷ ("text-size", num (pos 10_000))
      ∷ ("text-offset", arr ((num (pos 0)) ∷ (num (pos 1400)) ∷ []))
      ∷ ("text-anchor", text "top")
      ∷ ("text-optional", flag true)
      ∷ [];
  paint =
      ("text-color", text (label_color dark))
      ∷ ("text-halo-color", text (label_halo dark))
      ∷ ("text-halo-width", num (pos 1000))
      ∷ [];
}

abbrev pub vessel_labels : Bool → Layer
vessel_labels dark = record {
  id = "vessel-labels";
  type = "symbol";
  source = "vessels";
  minzoom = some (pos 9000);
  filter = none;
  layout =
      ("text-field", arr ((text "get") ∷ (text "name") ∷ []))
      ∷ ("text-size", num (pos 10_000))
      ∷ ("text-offset", arr ((num (pos 0)) ∷ (num (pos 1400)) ∷ []))
      ∷ ("text-anchor", text "top")
      ∷ ("text-optional", flag true)
      ∷ [];
  paint =
      ("text-color", text (label_color dark))
      ∷ ("text-halo-color", text (label_halo dark))
      ∷ ("text-halo-width", num (pos 1000))
      ∷ [];
}
