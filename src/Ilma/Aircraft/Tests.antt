-- ===== src/Ilma/Aircraft/Tests.antt =====
-- An aircraft on final, one far away and one at cruise, in thousandths.
use fintraffic.Base.{ℕ, ◌≡◌, refl, Bool, true, false, List, [], ◌∷◌, none, some, count}
use fintraffic.Base.Int.{ℤ, pos}
use fintraffic.Base.Number.Milli.{milli, milli-IsOrdered}
use fintraffic.Shared.Sort.{place, sort}
use fintraffic.Shared.Sort.Order.{IsSorted}
use fintraffic.Shared.Geo.{Trig, distance_km}
use fintraffic.Ilma.Aircraft.{Aircraft, Airport, airline, adsb, aircraft_around, low_over, km_from}
use fintraffic.Ilma.Aircraft.Around.{aircraft_around_lem, listed}

abbrev flat : Trig ℤ
flat = record { pi = pos 180_000; cos = λ x. pos 1000; sin = λ x. pos 0; sqrt = λ x. x }

abbrev flight : ℕ → ℕ → Aircraft ℤ
flight latitude altitude = record {
  hex = "";
  callsign = "";
  registration = none;
  type_code = none;
  type_name = none;
  airline_name = none;
  category = none;
  group = airline;
  latitude = pos latitude;
  longitude = pos 0;
  altitude_ft = some (pos altitude);
  on_ground = false;
  ground_speed_kt = none;
  track = none;
  vertical_rate_fpm = none;
  squawk = none;
  emergency = none;
  source = adsb;
  timestamp = pos 0;
}

abbrev airport : Airport ℤ
airport = record {
  icao = "EFHK";
  iata = none;
  name = "";
  latitude = pos 0;
  longitude = pos 0;
  elevation_ft = pos 179_000;
  scheduled = true;
}

abbrev sky : List (Aircraft ℤ)
sky = flight 50 2_000_000 ∷ flight 900 2_000_000 ∷ flight 10 39_000_000 ∷ []

one_on_final : aircraft_around milli flat airport sky ≡ (flight 50 2_000_000, pos 12_742) ∷ []
unfolding aircraft_around low_over km_from distance_km sort place
one_on_final = refl

aircraft_around_lem_example :
    ((p : Aircraft ℤ × ℤ → Bool)
      → count p (aircraft_around milli flat airport sky)
        ≡ count (listed milli milli-IsOrdered flat airport p) sky)
    × IsSorted (λ x y. milli.le x.1 y.1) (aircraft_around milli flat airport sky)
aircraft_around_lem_example = aircraft_around_lem milli milli-IsOrdered flat airport sky
