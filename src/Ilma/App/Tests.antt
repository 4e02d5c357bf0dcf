-- ===== src/Ilma/App/Tests.antt =====
-- An aircraft is picked, lost by the receivers and found again, and then an airport is picked.
use fintraffic.Base.{◌≡◌, ◌+◌, refl, true, false, List, [], ◌∷◌, none, some, String}
use fintraffic.Base.Int.{ℤ, pos}
use fintraffic.Ilma.Aircraft.{Aircraft, Airport, airline, adsb}
use fintraffic.Ilma.App.{
  Ilma, Event, polls, searches_aircraft, searches_airport, airport_key, selection_key, step, run,
  on_aircraft_update, search_airport, search_aircraft, select_airport, select_aircraft,
  reveal_detail,
}
use fintraffic.Ilma.App.Selected.{is_exclusive, seq_of, searches, keyed_all, run-key, run-exclusive}

abbrev aircraft : String → Aircraft ℤ
aircraft hex = record {
  hex = hex;
  callsign = "FIN1";
  registration = none;
  type_code = none;
  type_name = none;
  airline_name = none;
  category = none;
  group = airline;
  latitude = pos 60_000;
  longitude = pos 25_000;
  altitude_ft = some (pos 30_000_000);
  on_ground = false;
  ground_speed_kt = some (pos 400_000);
  track = some (pos 90_000);
  vertical_rate_fpm = none;
  squawk = none;
  emergency = none;
  source = adsb;
  timestamp = pos 5_000_000;
}

abbrev airport : Airport ℤ
airport = record {
  icao = "EFHK";
  iata = none;
  name = "";
  latitude = pos 60_000;
  longitude = pos 24_000;
  elevation_ft = pos 0;
  scheduled = true;
}

abbrev initial : Ilma ℤ
initial = record {
  aircraft = [];
  airports = [];
  selected_aircraft = none;
  selected_airport = none;
  focus = none;
  is_filter_collapsed = true;
  is_detail_collapsed = false;
}

abbrev events : List (Event ℤ)
events =
    searches_aircraft true (aircraft "46b")
    ∷ polls []
    ∷ polls (aircraft "46b" ∷ [])
    ∷ searches_airport true airport
    ∷ []

keeps_airport : selection_key (run events initial) ≡ some (airport_key airport)
unfolding selection_key run step on_aircraft_update search_airport search_aircraft select_airport
    select_aircraft reveal_detail
keeps_airport = refl

run-key_example : selection_key (run events initial) ≡ keyed_all events (selection_key initial)
run-key_example = run-key events initial

run-exclusive_example :
    (is_exclusive (run events initial) ≡ true)
    × (seq_of (run events initial).focus ≡ 0 + searches events)
unfolding is_exclusive
run-exclusive_example = run-exclusive events initial refl
