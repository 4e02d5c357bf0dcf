-- ===== src/Ilma/Map/Content.antt =====
-- The sources and layers of the air map: components/Map.tsx of Ilma. The numbers of the layers are in
-- thousandths.
use fintraffic.Base.{ℕ, ◌*◌, ◌/◌, List, [], ◌∷◌, none, some, String, true}
use fintraffic.Base.Int.{pos}
use fintraffic.Shared.Style.{Json, Layer, num, text, flag, arr}
use fintraffic.Tie.Traffic.{Theme}
use fintraffic.Ilma.Aircraft.{
  AircraftGroup, airline, general, rotorcraft, military, airport_color, marker_halo, group_colors,
  selection_color, altitude_stops,
}

abbrev pub aircraft_source : String
aircraft_source = "aircraft"

abbrev pub airports_source : String
airports_source = "airports"

abbrev pub trail_source : String
trail_source = "selected-trail"

abbrev pub selected_source : String
selected_source = "selected-aircraft"

abbrev pub airports_layer : String
airports_layer = "airports-icon"

abbrev pub airports_label_layer : String
airports_label_layer = "airports-label"

abbrev pub trail_layer : String
trail_layer = "selected-trail-line"

abbrev pub selected_layer : String
selected_layer = "selected-aircraft-ring"

-- `aircraftLayerIds`.
abbrev pub alert_id : AircraftGroup → String
alert_id airline = "aircraft-airline-alert"
alert_id general = "aircraft-general-alert"
alert_id rotorcraft = "aircraft-rotorcraft-alert"
alert_id military = "aircraft-military-alert"

abbrev pub icon_id : AircraftGroup → String
icon_id airline = "aircraft-airline"
icon_id general = "aircraft-general"
icon_id rotorcraft = "aircraft-rotorcraft"
icon_id military = "aircraft-military"

abbrev pub label_id : AircraftGroup → String
label_id airline = "aircraft-airline-label"
label_id general = "aircraft-general-label"
label_id rotorcraft = "aircraft-rotorcraft-label"
label_id military = "aircraft-military-label"

abbrev pub group_key : AircraftGroup → String
group_key airline = "airline"
group_key general = "general"
group_key rotorcraft = "rotorcraft"
group_key military = "military"

-- `AIRCRAFT_ICON_ID`.
abbrev pub aircraft_icon_id : AircraftGroup → String
aircraft_icon_id airline = "aircraft-icon-airline"
aircraft_icon_id general = "aircraft-icon-general"
aircraft_icon_id rotorcraft = "aircraft-icon-rotorcraft"
aircraft_icon_id military = "aircraft-icon-military"

-- `ICON_SCALE`, in thousandths.
abbrev pub icon_scale : AircraftGroup → ℕ
icon_scale airline = 440
icon_scale general = 340
icon_scale rotorcraft = 380
icon_scale military = 400

abbrev pub emergency_color : String
emergency_color = "#ef4444"

-- The loop over `ALTITUDE_STOPS`, in feet.
abbrev pub ramp : List (ℕ × String) → List Json
ramp [] = []
ramp ((feet, color) ∷ stops) = num (pos (1000 * feet)) ∷ text color ∷ ramp stops

abbrev pub airports_icon : Theme → Layer
airports_icon theme = record {
  id = airports_layer;
  type = "symbol";
  source = airports_source;
  minzoom = none;
  filter = none;
  layout =
      ("icon-image", text "airport-icon")
      ∷ (
        "icon-size",
        arr (
            (text "interpolate")
            ∷ (arr ((text "linear") ∷ []))
            ∷ (arr ((text "zoom") ∷ []))
            ∷ (num (pos 4000))
            ∷ (arr (
                (text "case")
                ∷ (arr ((text "get") ∷ (text "scheduled") ∷ []))
                ∷ (num (pos 220))
                ∷ (num (pos 150))
                ∷ []))
            ∷ (num (pos 9000))
            ∷ (arr (
                (text "case")
                ∷ (arr ((text "get") ∷ (text "scheduled") ∷ []))
                ∷ (num (pos 420))
                ∷ (num (pos 320))
                ∷ []))
            ∷ []),
      )
      ∷ ("icon-allow-overlap", flag true)
      ∷ [];
  paint =
      ("icon-color", text (airport_color theme))
      ∷ ("icon-halo-color", text (marker_halo theme))
      ∷ ("icon-halo-width", num (pos 1000))
      ∷ [];
}

abbrev pub airports_label : Theme → Layer
airports_label theme = record {
  id = airports_label_layer;
  type = "symbol";
  source = airports_source;
  minzoom = some (pos 5000);
  filter = some (
      arr (
        (text "any")
        ∷ (arr ((text "get") ∷ (text "scheduled") ∷ []))
        ∷ (arr ((text ">=") ∷ (arr ((text "zoom") ∷ [])) ∷ (num (pos 7500)) ∷ []))
        ∷ []));
  layout =
      ("text-field", arr ((text "get") ∷ (text "name") ∷ []))
      ∷ ("text-font", arr ((text "Montserrat Medium") ∷ []))
      ∷ (
        "text-size",
        arr (
            (text "interpolate")
            ∷ (arr ((text "linear") ∷ []))
            ∷ (arr ((text "zoom") ∷ []))
            ∷ (num (pos 5000))
            ∷ (num (pos 10_000))
            ∷ (num (pos 10_000))
            ∷ (num (pos 13_000))
            ∷ []),
      )
      ∷ (
        "text-variable-anchor",
        arr ((text "top") ∷ (text "bottom") ∷ (text "left") ∷ (text "right") ∷ []),
      )
      ∷ ("text-radial-offset", num (pos 900))
      ∷ ("text-justify", text "auto")
      ∷ [];
  paint =
      ("text-color", text (airport_color theme))
      ∷ ("text-halo-color", text (marker_halo theme))
      ∷ ("text-halo-width", num (pos 1400))
      ∷ [];
}

abbrev pub trail_line : Layer
trail_line = record {
  id = trail_layer;
  type = "line";
  source = trail_source;
  minzoom = none;
  filter = none;
  layout = ("line-cap", text "round") ∷ ("line-join", text "round") ∷ [];
  paint =
      (
        "line-color",
        arr (
            text "interpolate"
            ∷ arr (text "linear" ∷ [])
            ∷ arr (text "get" ∷ text "alt" ∷ [])
            ∷ ramp altitude_stops),
      )
      ∷ (
        "line-width",
        arr (
            (text "interpolate")
            ∷ (arr ((text "linear") ∷ []))
            ∷ (arr ((text "zoom") ∷ []))
            ∷ (num (pos 4000))
            ∷ (num (pos 2000))
            ∷ (num (pos 10_000))
            ∷ (num (pos 3500))
            ∷ []),
      )
      ∷ ("line-opacity", num (pos 900))
      ∷ [];
}

abbrev pub selected_ring : Theme → Layer
selected_ring theme = record {
  id = selected_layer;
  type = "circle";
  source = selected_source;
  minzoom = none;
  filter = none;
  layout = [];
  paint =
      (
        "circle-radius",
        arr (
            (text "interpolate")
            ∷ (arr ((text "linear") ∷ []))
            ∷ (arr ((text "zoom") ∷ []))
            ∷ (num (pos 4000))
            ∷ (num (pos 13_000))
            ∷ (num (pos 10_000))
            ∷ (num (pos 20_000))
            ∷ []),
      )
      ∷ ("circle-color", text "rgba(0,0,0,0)")
      ∷ ("circle-stroke-width", num (pos 2500))
      ∷ ("circle-stroke-color", text (selection_color theme))
      ∷ [];
}

abbrev pub aircraft_alert : AircraftGroup → Layer
aircraft_alert group = record {
  id = alert_id group;
  type = "circle";
  source = aircraft_source;
  minzoom = none;
  filter = some (
      arr (
        (text "all")
        ∷ (arr (
            (text "==")
            ∷ (arr ((text "get") ∷ (text "group") ∷ []))
            ∷ (text (group_key group))
            ∷ []))
        ∷ (arr ((text "get") ∷ (text "emergency") ∷ []))
        ∷ []));
  layout = [];
  paint =
      (
        "circle-radius",
        arr (
            (text "interpolate")
            ∷ (arr ((text "linear") ∷ []))
            ∷ (arr ((text "zoom") ∷ []))
            ∷ (num (pos 4000))
            ∷ (num (pos 11_000))
            ∷ (num (pos 10_000))
            ∷ (num (pos 18_000))
            ∷ []),
      )
      ∷ ("circle-color", text "rgba(239,68,68,0.18)")
      ∷ ("circle-stroke-width", num (pos 2000))
      ∷ ("circle-stroke-color", text emergency_color)
      ∷ [];
}

abbrev pub aircraft_icon : Theme → AircraftGroup → Layer
aircraft_icon theme group = record {
  id = icon_id group;
  type = "symbol";
  source = aircraft_source;
  minzoom = none;
  filter = some (
      arr
        ((text "==") ∷ (arr ((text "get") ∷ (text "group") ∷ [])) ∷ (text (group_key group)) ∷ []));
  layout =
      ("icon-image", text (aircraft_icon_id group))
      ∷ (
        "icon-size",
        arr (
            (text "interpolate")
            ∷ (arr ((text "linear") ∷ []))
            ∷ (arr ((text "zoom") ∷ []))
            ∷ (num (pos 4000))
            ∷ (num (pos (750 * icon_scale group / 1000)))
            ∷ (num (pos 8000))
            ∷ (num (pos (icon_scale group)))
            ∷ (num (pos 12_000))
            ∷ (num (pos (1400 * icon_scale group / 1000)))
            ∷ []),
      )
      ∷ ("icon-rotate", arr ((text "get") ∷ (text "track") ∷ []))
      ∷ ("icon-rotation-alignment", text "map")
      ∷ ("icon-pitch-alignment", text "map")
      ∷ ("icon-allow-overlap", flag true)
      ∷ ("icon-ignore-placement", flag true)
      ∷ [];
  paint =
      ("icon-color", text (group_colors theme group))
      ∷ ("icon-halo-color", text (marker_halo theme))
      ∷ ("icon-halo-width", num (pos 1200))
      ∷ (
        "icon-opacity",
        arr (
            (text "case")
            ∷ (arr ((text "get") ∷ (text "onGround") ∷ []))
            ∷ (num (pos 500))
            ∷ (num (pos 1000))
            ∷ []),
      )
      ∷ [];
}

abbrev pub aircraft_label : Theme → AircraftGroup → Layer
aircraft_label theme group = record {
  id = label_id group;
  type = "symbol";
  source = aircraft_source;
  minzoom = some (pos 6500);
  filter = some (
      arr (
        (text "all")
        ∷ (arr (
            (text "==")
            ∷ (arr ((text "get") ∷ (text "group") ∷ []))
            ∷ (text (group_key group))
            ∷ []))
        ∷ (arr ((text "!=") ∷ (arr ((text "get") ∷ (text "label") ∷ [])) ∷ (text "") ∷ []))
        ∷ []));
  layout =
      (
        "text-field",
        arr (
            (text "step")
            ∷ (arr ((text "zoom") ∷ []))
            ∷ (arr ((text "get") ∷ (text "label") ∷ []))
            ∷ (num (pos 8500))
            ∷ (arr (
                (text "concat")
                ∷ (arr ((text "get") ∷ (text "label") ∷ []))
                ∷ (text "\n")
                ∷ (arr ((text "get") ∷ (text "alt") ∷ []))
                ∷ []))
            ∷ []),
      )
      ∷ ("text-font", arr ((text "Montserrat Regular") ∷ []))
      ∷ ("text-size", num (pos 10_500))
      ∷ ("text-offset", arr ((num (pos 0)) ∷ (num (pos 1500)) ∷ []))
      ∷ ("text-anchor", text "top")
      ∷ ("text-optional", flag true)
      ∷ [];
  paint =
      ("text-color", text (group_colors theme group))
      ∷ ("text-halo-color", text (marker_halo theme))
      ∷ ("text-halo-width", num (pos 1300))
      ∷ [];
}
