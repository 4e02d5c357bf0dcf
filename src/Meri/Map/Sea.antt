-- ===== src/Meri/Map/Sea.antt =====
-- Ports and the sea on the map: layers of `setupMapContent` in components/Map.tsx. Their numbers are
-- in thousandths.
use fintraffic.Base.{List, [], ◌∷◌, none, some, String, Bool, true, false}
use fintraffic.Base.Int.{ℤ, pos, negsuc}
use fintraffic.Base.Number.Milli.{milli}
use fintraffic.Shared.Style.{Json, Layer, num, text, flag, arr}
use fintraffic.Meri.Sea.{wave_ramp, wind_ramp}

abbrev pub label_color : Bool → String
label_color true = "#cbd5e1"
label_color false = "#334155"

abbrev pub label_halo : Bool → String
label_halo true = "#020b17"
label_halo false = "#f8fafc"

-- The values and colours of a ramp, spread.
abbrev pub ramp_items : List (ℤ × String) → List Json
ramp_items [] = []
ramp_items ((value, color) ∷ ramp) = num value ∷ text color ∷ ramp_items ramp

-- `windArrowImage(band)`, for the bands of the wind ramp.
abbrev pub wind_arrow_images : List String
wind_arrow_images =
    "wind-arrow-0" ∷ "wind-arrow-1" ∷ "wind-arrow-2" ∷ "wind-arrow-3" ∷ "wind-arrow-4"
    ∷ "wind-arrow-5" ∷ []

-- The loop of `windArrowExpression`: where each band of the ramp starts, and its image.
abbrev pub wind_steps : List (ℤ × String) → List String → List Json
wind_steps [] images = []
wind_steps (band ∷ ramp) [] = []
wind_steps ((value, color) ∷ ramp) (image ∷ images) =
    num value ∷ text image ∷ wind_steps ramp images

abbrev pub after_first {ℓ} : {A : Type ℓ} → List A → List A
after_first [] = []
after_first (x ∷ xs) = xs

abbrev pub wind_arrow_expression : Json
wind_arrow_expression = arr (
    text "step"
    ∷ arr (text "get" ∷ text "windSpeed" ∷ [])
    ∷ text "wind-arrow-0"
    ∷ wind_steps (after_first (wind_ramp milli)) (after_first wind_arrow_images))

abbrev pub ports_layer : Layer
ports_layer = record {
  id = "ports-layer";
  type = "circle";
  source = "ports";
  minzoom = none;
  filter = none;
  layout = [];
  paint =
      (
        "circle-radius",
        arr (
            (text "interpolate")
            ∷ (arr ((text "linear") ∷ []))
            ∷ (arr ((text "zoom") ∷ []))
            ∷ (num (pos 5000))
            ∷ (num (pos 3000))
            ∷ (num (pos 10_000))
            ∷ (num (pos 6000))
            ∷ []),
      )
      ∷ ("circle-color", text "rgba(56, 189, 248, 0.25)")
      ∷ ("circle-stroke-color", text "#38bdf8")
      ∷ ("circle-stroke-width", num (pos 1500))
      ∷ [];
}

abbrev pub ports_labels : Bool → Layer
ports_labels dark = record {
  id = "ports-labels";
  type = "symbol";
  source = "ports";
  minzoom = some (pos 7000);
  filter = none;
  layout =
      ("text-field", arr ((text "get") ∷ (text "name") ∷ []))
      ∷ ("text-size", num (pos 11_000))
      ∷ ("text-offset", arr ((num (pos 0)) ∷ (num (pos 1100)) ∷ []))
      ∷ ("text-anchor", text "top")
      ∷ ("text-optional", flag true)
      ∷ [];
  paint =
      ("text-color", text "#38bdf8")
      ∷ ("text-halo-color", text (label_halo dark))
      ∷ ("text-halo-width", num (pos 1000))
      ∷ [];
}

abbrev pub buoys_layer : Layer
buoys_layer = record {
  id = "buoys-layer";
  type = "circle";
  source = "buoys";
  minzoom = none;
  filter = none;
  layout = [];
  paint =
      (
        "circle-radius",
        arr (
            (text "interpolate")
            ∷ (arr ((text "linear") ∷ []))
            ∷ (arr ((text "zoom") ∷ []))
            ∷ (num (pos 5000))
            ∷ (num (pos 2500))
            ∷ (num (pos 10_000))
            ∷ (num (pos 4500))
            ∷ []),
      )
      ∷ ("circle-color", text "rgba(148, 163, 184, 0.25)")
      ∷ ("circle-stroke-color", text "rgba(148, 163, 184, 0.9)")
      ∷ ("circle-stroke-width", num (pos 1200))
      ∷ [];
}

abbrev pub sea_level_layer : Layer
sea_level_layer = record {
  id = "sea-level-layer";
  type = "circle";
  source = "sea-conditions";
  minzoom = none;
  filter = some (arr ((text "has") ∷ (text "waterLevel") ∷ []));
  layout = [];
  paint =
      (
        "circle-radius",
        arr (
            (text "interpolate")
            ∷ (arr ((text "linear") ∷ []))
            ∷ (arr ((text "zoom") ∷ []))
            ∷ (num (pos 5000))
            ∷ (num (pos 5000))
            ∷ (num (pos 10_000))
            ∷ (num (pos 9000))
            ∷ []),
      )
      ∷ ("circle-color", text "transparent")
      ∷ ("circle-stroke-width", num (pos 2500))
      ∷ (
        "circle-stroke-color",
        arr (
            (text "interpolate")
            ∷ (arr ((text "linear") ∷ []))
            ∷ (arr ((text "get") ∷ (text "waterLevel") ∷ []))
            ∷ (num (negsuc 39_999))
            ∷ (text "#60a5fa")
            ∷ (num (pos 0))
            ∷ (text "#94a3b8")
            ∷ (num (pos 40_000))
            ∷ (text "#fbbf24")
            ∷ []),
      )
      ∷ [];
}

abbrev pub sea_wave_layer : Layer
sea_wave_layer = record {
  id = "sea-wave-layer";
  type = "circle";
  source = "sea-conditions";
  minzoom = none;
  filter = some (arr ((text "has") ∷ (text "waveHeight") ∷ []));
  layout = [];
  paint =
      (
        "circle-radius",
        arr (
            (text "interpolate")
            ∷ (arr ((text "linear") ∷ []))
            ∷ (arr ((text "zoom") ∷ []))
            ∷ (num (pos 5000))
            ∷ (arr (
                (text "interpolate")
                ∷ (arr ((text "linear") ∷ []))
                ∷ (arr ((text "get") ∷ (text "waveHeight") ∷ []))
                ∷ (num (pos 0))
                ∷ (num (pos 4000))
                ∷ (num (pos 2000))
                ∷ (num (pos 9000))
                ∷ (num (pos 5000))
                ∷ (num (pos 14_000))
                ∷ []))
            ∷ (num (pos 10_000))
            ∷ (arr (
                (text "interpolate")
                ∷ (arr ((text "linear") ∷ []))
                ∷ (arr ((text "get") ∷ (text "waveHeight") ∷ []))
                ∷ (num (pos 0))
                ∷ (num (pos 7000))
                ∷ (num (pos 2000))
                ∷ (num (pos 15_000))
                ∷ (num (pos 5000))
                ∷ (num (pos 24_000))
                ∷ []))
            ∷ []),
      )
      ∷ (
        "circle-color",
        arr (
            (text "interpolate")
            ∷ (arr ((text "linear") ∷ []))
            ∷ (arr ((text "get") ∷ (text "waveHeight") ∷ []))
            ∷ ramp_items (wave_ramp milli)),
      )
      ∷ ("circle-opacity", num (pos 450))
      ∷ ("circle-stroke-width", num (pos 1500))
      ∷ (
        "circle-stroke-color",
        arr (
            (text "interpolate")
            ∷ (arr ((text "linear") ∷ []))
            ∷ (arr ((text "get") ∷ (text "waveHeight") ∷ []))
            ∷ ramp_items (wave_ramp milli)),
      )
      ∷ [];
}

abbrev pub sea_wind_layer : Layer
sea_wind_layer = record {
  id = "sea-wind-layer";
  type = "symbol";
  source = "sea-conditions";
  minzoom = none;
  filter = some (
      arr (
        (text "all")
        ∷ (arr ((text "has") ∷ (text "windSpeed") ∷ []))
        ∷ (arr ((text "has") ∷ (text "windDir") ∷ []))
        ∷ []));
  layout =
      ("icon-image", wind_arrow_expression)
      ∷ (
        "icon-size",
        arr (
            (text "interpolate")
            ∷ (arr ((text "linear") ∷ []))
            ∷ (arr ((text "zoom") ∷ []))
            ∷ (num (pos 5000))
            ∷ (arr (
                (text "interpolate")
                ∷ (arr ((text "linear") ∷ []))
                ∷ (arr ((text "get") ∷ (text "windSpeed") ∷ []))
                ∷ (num (pos 0))
                ∷ (num (pos 300))
                ∷ (num (pos 20_000))
                ∷ (num (pos 550))
                ∷ []))
            ∷ (num (pos 10_000))
            ∷ (arr (
                (text "interpolate")
                ∷ (arr ((text "linear") ∷ []))
                ∷ (arr ((text "get") ∷ (text "windSpeed") ∷ []))
                ∷ (num (pos 0))
                ∷ (num (pos 500))
                ∷ (num (pos 20_000))
                ∷ (num (pos 950))
                ∷ []))
            ∷ []),
      )
      ∷ (
        "icon-rotate",
        arr ((text "+") ∷ (arr ((text "get") ∷ (text "windDir") ∷ [])) ∷ (num (pos 180_000)) ∷ []),
      )
      ∷ ("icon-rotation-alignment", text "map")
      ∷ ("icon-allow-overlap", flag true)
      ∷ [];
  paint = [];
}

abbrev pub sea_conditions_labels : Bool → Layer
sea_conditions_labels dark = record {
  id = "sea-conditions-labels";
  type = "symbol";
  source = "sea-conditions";
  minzoom = some (pos 6500);
  filter = some (arr ((text "!=") ∷ (arr ((text "get") ∷ (text "label") ∷ [])) ∷ (text "") ∷ []));
  layout =
      ("text-field", arr ((text "get") ∷ (text "label") ∷ []))
      ∷ ("text-size", num (pos 11_000))
      ∷ ("text-offset", arr ((num (pos 0)) ∷ (num (pos 1300)) ∷ []))
      ∷ ("text-anchor", text "top")
      ∷ ("text-optional", flag true)
      ∷ ("text-allow-overlap", flag false)
      ∷ [];
  paint =
      ("text-color", text (label_color dark))
      ∷ ("text-halo-color", text (label_halo dark))
      ∷ ("text-halo-width", num (pos 1200))
      ∷ [];
}

abbrev pub aton_layer : Layer
aton_layer = record {
  id = "aton-layer";
  type = "symbol";
  source = "aton";
  minzoom = none;
  filter = none;
  layout =
      ("icon-image", text "aton-warning")
      ∷ (
        "icon-size",
        arr (
            (text "interpolate")
            ∷ (arr ((text "linear") ∷ []))
            ∷ (arr ((text "zoom") ∷ []))
            ∷ (num (pos 5000))
            ∷ (num (pos 400))
            ∷ (num (pos 10_000))
            ∷ (num (pos 700))
            ∷ []),
      )
      ∷ ("icon-allow-overlap", flag true)
      ∷ [];
  paint = [];
}

abbrev pub cameras_layer : Layer
cameras_layer = record {
  id = "cameras-layer";
  type = "symbol";
  source = "cameras";
  minzoom = none;
  filter = none;
  layout =
      ("icon-image", text "camera-icon")
      ∷ (
        "icon-size",
        arr (
            (text "interpolate")
            ∷ (arr ((text "linear") ∷ []))
            ∷ (arr ((text "zoom") ∷ []))
            ∷ (num (pos 5000))
            ∷ (num (pos 500))
            ∷ (num (pos 10_000))
            ∷ (num (pos 850))
            ∷ []),
      )
      ∷ ("icon-allow-overlap", flag true)
      ∷ [];
  paint = [];
}
