-- ===== src/Raide/Map/Features/Tests.antt =====
-- A click on the second marker: the freight yard between the two passenger stations has none.
use fintraffic.Base.{ℕ, ◌≡◌, refl, Bool, true, false, List, [], ◌∷◌, some, String}
use fintraffic.Shared.Markers.{Event, lands, swaps, step, run, get}
use fintraffic.Raide.Selection.{StationMeta}
use fintraffic.Raide.Map.Features.{StationFeature, to_stations, station_markers, click_station}

abbrev station_meta : String → Bool → StationMeta ℕ
station_meta code passenger = record {
  code = code;
  name = "";
  latitude = 60;
  longitude = 0;
  passenger = passenger;
  major = true;
}

abbrev events : List (Event (StationMeta ℕ))
events =
    lands false []
    ∷ swaps
    ∷ lands true (station_meta "HKI" true ∷ station_meta "YRD" false ∷ station_meta "PSL" true ∷ [])
    ∷ []

abbrev marker : String → StationFeature ℕ
marker code = record { coordinates = (0, 60); code = code; name = ""; major = true }

drawn : (station_markers events).drawn ≡ some (marker "HKI" ∷ marker "PSL" ∷ [])
unfolding station_markers run step to_stations
drawn = refl

selects_second :
    click_station (marker "PSL") (station_markers events) ≡ some (station_meta "PSL" true)
unfolding click_station get station_markers run step to_stations
selects_second = refl
