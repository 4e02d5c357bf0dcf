-- ===== src/Ilma/Flight/Tests.antt =====
-- A flight in thousandths, selected while the trail of another aircraft is on its way.
use fintraffic.Base.{
  ℕ, ◌≡◌, refl, false, List, [], ◌∷◌, none, some, String, length, ◌⊎◌, ◌*◌, str_eq, if◌then◌else◌,
}
use fintraffic.Base.Int.{ℤ, pos}
use fintraffic.Base.Number.Milli.{milli, milli-IsOrdered, milli-IsRounded}
use fintraffic.Shared.Geo.{Trig}
use fintraffic.Ilma.Aircraft.{Aircraft, airline, adsb}
use fintraffic.Ilma.Flight.{
  TrailPoint, Flight, Event, selects, trail_answers, polls, run, get, live_position, drawn_trail,
  reported,
}
use fintraffic.Ilma.Flight.Projected.{IsReckoned, live_position-bounds}
use fintraffic.Ilma.Flight.Trail.{Joins, drawn_trail-Joins, Belongs, IsGenuine, run-Belongs}

-- A plane: a degree is as long everywhere.
abbrev flat : Trig ℤ
flat = record { pi = pos 3_142; cos = λ a. pos 1000; sin = λ a. pos 0; sqrt = λ a. a }

abbrev flight : String → Aircraft ℤ
flight hex = record {
  hex = hex;
  callsign = "FIN1";
  registration = none;
  type_code = none;
  type_name = none;
  airline_name = none;
  category = none;
  group = airline;
  latitude = pos 60_000;
  longitude = pos 25_000;
  altitude_ft = some (pos 30_000_000);
  on_ground = false;
  ground_speed_kt = some (pos 400_000);
  track = some (pos 90_000);
  vertical_rate_fpm = none;
  squawk = none;
  emergency = none;
  source = adsb;
  timestamp = pos 5_000_000;
}

abbrev point : ℕ → TrailPoint ℤ
point x = record {
  latitude = pos 60_000;
  longitude = pos (1000 * x);
  altitude_ft = none;
  timestamp = pos 0;
}

abbrev start : Flight ℤ
start = record { aircraft = []; trail = []; selected = none; clock_offset = pos 0 }

abbrev events : List (Event ℤ)
events =
    polls (pos 5_010_000) (pos 5_000_000) (flight "4a" ∷ flight "5b" ∷ [])
    ∷ selects (some "4a")
    ∷ selects (some "5b")
    ∷ trail_answers "5b" (point 23 ∷ point 23 ∷ [])
    ∷ trail_answers "4a" (point 11 ∷ [])
    ∷ []

-- The late answer for the other aircraft is dropped.
late_trail_dropped : (run milli flat start events).trail ≡ point 23 ∷ point 23 ∷ []
unfolding run
late_trail_dropped = refl

live_position-bounds_example :
    (live_position milli flat (flight "4a") (pos 9_000_000) ≡ reported milli flat (flight "4a"))
    ⊎ ((v : ℤ) × (course : ℤ) × ((flight "4a").ground_speed_kt ≡ some v)
        × ((flight "4a").track ≡ some course)
        × IsReckoned milli milli-IsOrdered milli-IsRounded flat
            (flight "4a")
            v
            course
            (live_position milli flat (flight "4a") (pos 9_000_000)))
live_position-bounds_example =
    live_position-bounds milli milli-IsOrdered milli-IsRounded flat (flight "4a") (pos 9_000_000)

abbrev flying : Flight ℤ
flying = record {
  aircraft = flight "4a" ∷ flight "5b" ∷ [];
  trail = point 23 ∷ point 24 ∷ [];
  selected = some "5b";
  clock_offset = pos 10_000;
}

drawn_trail-Joins_example :
    Joins
      (pos 23_000, pos 60_000)
      (drawn_trail milli flat flying (pos 5_000_000))
      (live_position milli flat (flight "5b") (pos 5_010_000))
    × (length (drawn_trail milli flat flying (pos 5_000_000)) ≡ 2)
unfolding get
drawn_trail-Joins_example =
    drawn_trail-Joins milli flat flying (pos 5_000_000) "5b" (flight "5b") (point 23)
      (point 24 ∷ []) refl refl refl

-- Where the points of an aircraft lie.
abbrev place_of : String → ℤ
place_of hex = if str_eq hex "4a" then pos 11_000 else pos 23_000

abbrev IsOf : String → List (TrailPoint ℤ) → Type 0
IsOf hex [] = Unit
IsOf hex (p ∷ points) = (p.longitude ≡ place_of hex) × IsOf hex points

run-Belongs_example : Belongs milli flat IsOf (run milli flat start events)
unfolding IsGenuine Belongs
run-Belongs_example =
    run-Belongs milli flat IsOf events start (λ hex. tt) ((refl, (refl, tt)), ((refl, tt), tt))
      (λ hex e. tt)
