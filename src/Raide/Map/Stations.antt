-- ===== src/Raide/Map/Stations.antt =====
-- The stations of the rail map: components/Map.tsx of Raide. The numbers of
-- the layers are in thousandths.
use fintraffic.Base.{List, [], ◌∷◌, none, some, String, true, false}
use fintraffic.Base.Int.{pos}
use fintraffic.Shared.Style.{Json, Layer, num, text, flag, arr}
use fintraffic.Tie.Traffic.{Theme, dark, light}
use fintraffic.Raide.Trains.{station_color}

-- `MARKER_STROKE`.
abbrev pub marker_stroke : Theme → String
marker_stroke dark = "#ffffff"
marker_stroke light = "#1f2937"

-- `themeRef.current === 'dark' ? '#000000' : '#ffffff'`.
abbrev pub label_halo : Theme → String
label_halo dark = "#000000"
label_halo light = "#ffffff"

abbrev pub trains_source : String
trains_source = "trains"

abbrev pub stations_source : String
stations_source = "stations"

abbrev pub stations_layer : String
stations_layer = "stations-circles"

abbrev pub stations_major_layer : String
stations_major_layer = "stations-major"

abbrev pub stations_label_layer : String
stations_label_layer = "stations-label"

abbrev pub stations_major_label_layer : String
stations_major_label_layer = "stations-major-label"

abbrev pub stations_circles : Theme → Layer
stations_circles theme = record {
  id = stations_layer;
  type = "circle";
  source = stations_source;
  minzoom = none;
  filter =
      some (arr ((text "==") ∷ (arr ((text "get") ∷ (text "major") ∷ [])) ∷ (flag false) ∷ []));
  layout = [];
  paint =
      (
        "circle-radius",
        arr (
            (text "interpolate")
            ∷ (arr ((text "linear") ∷ []))
            ∷ (arr ((text "zoom") ∷ []))
            ∷ (num (pos 5000))
            ∷ (num (pos 2000))
            ∷ (num (pos 9000))
            ∷ (num (pos 4000))
            ∷ (num (pos 12_000))
            ∷ (num (pos 6000))
            ∷ []),
      )
      ∷ ("circle-color", text (station_color theme))
      ∷ ("circle-stroke-width", num (pos 1000))
      ∷ ("circle-stroke-color", text (marker_stroke theme))
      ∷ ("circle-opacity", num (pos 750))
      ∷ [];
}

abbrev pub stations_major : Theme → Layer
stations_major theme = record {
  id = stations_major_layer;
  type = "symbol";
  source = stations_source;
  minzoom = none;
  filter = some (arr ((text "==") ∷ (arr ((text "get") ∷ (text "major") ∷ [])) ∷ (flag true) ∷ []));
  layout =
      ("icon-image", text "station-icon-major")
      ∷ (
        "icon-size",
        arr (
            (text "interpolate")
            ∷ (arr ((text "linear") ∷ []))
            ∷ (arr ((text "zoom") ∷ []))
            ∷ (num (pos 5000))
            ∷ (num (pos 350))
            ∷ (num (pos 9000))
            ∷ (num (pos 550))
            ∷ (num (pos 12_000))
            ∷ (num (pos 750))
            ∷ []),
      )
      ∷ ("icon-anchor", text "bottom")
      ∷ ("icon-allow-overlap", flag true)
      ∷ [];
  paint =
      ("icon-color", text (station_color theme))
      ∷ ("icon-halo-color", text (marker_stroke theme))
      ∷ ("icon-halo-width", num (pos 1200))
      ∷ [];
}

abbrev pub label_paint : Theme → List (String × Json)
label_paint theme =
    ("text-color", text (station_color theme))
    ∷ ("text-halo-color", text (label_halo theme))
    ∷ ("text-halo-width", num (pos 1500))
    ∷ []

abbrev pub stations_label : Theme → Layer
stations_label theme = record {
  id = stations_label_layer;
  type = "symbol";
  source = stations_source;
  minzoom = some (pos 10_000);
  filter =
      some (arr ((text "==") ∷ (arr ((text "get") ∷ (text "major") ∷ [])) ∷ (flag false) ∷ []));
  layout =
      ("text-field", arr ((text "get") ∷ (text "name") ∷ []))
      ∷ ("text-font", arr ((text "Montserrat Regular") ∷ []))
      ∷ (
        "text-size",
        arr (
            (text "interpolate")
            ∷ (arr ((text "linear") ∷ []))
            ∷ (arr ((text "zoom") ∷ []))
            ∷ (num (pos 10_000))
            ∷ (num (pos 11_000))
            ∷ (num (pos 14_000))
            ∷ (num (pos 13_000))
            ∷ []),
      )
      ∷ (
        "text-variable-anchor",
        arr ((text "left") ∷ (text "right") ∷ (text "top") ∷ (text "bottom") ∷ []),
      )
      ∷ ("text-radial-offset", num (pos 800))
      ∷ ("text-justify", text "auto")
      ∷ [];
  paint = label_paint theme;
}

abbrev pub stations_major_label : Theme → Layer
stations_major_label theme = record {
  id = stations_major_label_layer;
  type = "symbol";
  source = stations_source;
  minzoom = some (pos 5000);
  filter = some (arr ((text "==") ∷ (arr ((text "get") ∷ (text "major") ∷ [])) ∷ (flag true) ∷ []));
  layout =
      ("text-field", arr ((text "get") ∷ (text "name") ∷ []))
      ∷ ("text-font", arr ((text "Montserrat Medium") ∷ []))
      ∷ (
        "text-size",
        arr (
            (text "interpolate")
            ∷ (arr ((text "linear") ∷ []))
            ∷ (arr ((text "zoom") ∷ []))
            ∷ (num (pos 5000))
            ∷ (num (pos 10_000))
            ∷ (num (pos 10_000))
            ∷ (num (pos 13_000))
            ∷ (num (pos 14_000))
            ∷ (num (pos 15_000))
            ∷ []),
      )
      ∷ ("text-variable-anchor", arr ((text "top") ∷ (text "left") ∷ (text "right") ∷ []))
      ∷ ("text-radial-offset", num (pos 600))
      ∷ ("text-justify", text "auto")
      ∷ [];
  paint = label_paint theme;
}
