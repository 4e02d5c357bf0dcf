-- ===== src/Raide/Selection/Tests.antt =====
-- The board of the first station comes after the second was selected.
use fintraffic.Base.{ℕ, ◌≡◌, refl, true, false, List, [], ◌∷◌, Option, none, some, String}
use fintraffic.Raide.Trains.{Board}
use fintraffic.Raide.Selection.{
  StationMeta, Event, selects_station, answers, run_all, initial, step, select_station, effect,
  reveal_detail,
}
use fintraffic.Raide.Selection.Boards.{IsShownFor, run_all-IsShownFor}

abbrev object : ℕ → StationMeta ℕ
object ref = record {
  code = "HKI";
  name = "";
  latitude = ref;
  longitude = 0;
  passenger = true;
  major = true;
}

abbrev serve : String → ℕ → Option (Board ℕ)
serve code time = some (record { station = code; departures = []; arrivals = [] })

abbrev events : List (Event ℕ)
events = selects_station false 1 ∷ selects_station false 2 ∷ answers 1 5 ∷ []

late_ignored : (run_all object serve (initial false) events).board ≡ none
unfolding run_all initial step select_station effect reveal_detail
late_ignored = refl

run_all-IsShownFor_example :
    IsShownFor object serve
      (run_all object serve (initial false) events).selected_station
      (run_all object serve (initial false) events).board
run_all-IsShownFor_example = run_all-IsShownFor object serve false events
