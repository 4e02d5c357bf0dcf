-- ===== src/Tie/Charging/Tests.antt =====
-- A station with one of four points free, in thousandths.
use fintraffic.Base.{◌≡◌, refl, [], none, some}
use fintraffic.Base.Int.{ℤ, pos}
use fintraffic.Base.Number.Milli.{milli}
use fintraffic.Tie.Charging.{ChargingStation, limited, charging_level}

abbrev station : ChargingStation ℤ
station = record {
  id = "";
  name = "";
  longitude = pos 0;
  latitude = pos 0;
  operator = none;
  address = none;
  city = none;
  website = none;
  connectors = [];
  max_power_kw = pos 50_000;
  total = pos 4_000;
  available_points = some (pos 1_000);
}

quarter : charging_level milli station ≡ limited
unfolding charging_level
quarter = refl
