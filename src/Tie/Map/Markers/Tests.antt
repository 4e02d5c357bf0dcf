-- ===== src/Tie/Map/Markers/Tests.antt =====
-- A click on the second of two parking markers, after a swap of the style.
use fintraffic.Base.{ℕ, ◌≡◌, refl, true, List, [], ◌∷◌, Option, none, some, is_some, ◌==◌}
use fintraffic.Base.Int.{ℤ, pos}
use fintraffic.Base.Number.Milli.{milli}
use fintraffic.Shared.Markers.{Event, lands, swaps, step, run, get}
use fintraffic.Tie.Parking.{ParkingFacility, ParkingLevel, plenty, parking_level, occupancy_ratio}
use fintraffic.Tie.Map.Features.{Feature, Marked, to_parking, with_spaces}
use fintraffic.Tie.Map.Markers.{parking_markers, click_parking}
use fintraffic.Tie.Map.Markers.Clicked.{click_parking-selects}

abbrev facility : ℕ → Option ℤ → ParkingFacility ℤ
facility id spaces = record {
  id = id;
  name = "";
  longitude = pos 25_000;
  latitude = pos 60_000;
  type = "";
  status = "";
  capacity = pos 10_000;
  built_capacity = none;
  pricing_method = none;
  usages = none;
  services = none;
  authentication_methods = none;
  payment_methods = none;
  payment_info = none;
  opening_hours = none;
  spaces_available = spaces;
  open_now = some true;
  updated_at = none;
}

abbrev answer : List (ParkingFacility ℤ)
answer = facility 1 (some (pos 5_000)) ∷ facility 2 none ∷ facility 3 (some (pos 9_000)) ∷ []

abbrev events : List (Event (ParkingFacility ℤ))
events = lands true answer ∷ swaps ∷ lands true answer ∷ []

abbrev marker : ℕ → Feature (ℤ × ℤ) (Marked ℕ ParkingLevel)
marker id = record {
  coordinates = (pos 25_000, pos 60_000);
  properties = record { id = id; mark = plenty };
}

drawn : (parking_markers milli events).drawn ≡ some (marker 1 ∷ marker 3 ∷ [])
unfolding parking_markers run step to_parking with_spaces parking_level occupancy_ratio
drawn = refl

click_parking-selects_example :
    (x : ParkingFacility ℤ) × (click_parking (marker 3) (parking_markers milli events) ≡ some x)
    × ((x.id == 3) ≡ true)
    × (is_some x.spaces_available ≡ true)
click_parking-selects_example =
    click_parking-selects milli events (marker 1 ∷ marker 3 ∷ []) 1 (marker 3) drawn refl

selects_third :
    click_parking (marker 3) (parking_markers milli events) ≡ some (facility 3 (some (pos 9_000)))
unfolding click_parking get parking_markers run step to_parking with_spaces parking_level
    occupancy_ratio
selects_third = refl
