-- ===== src/Tie/Traffic/Tests.antt =====
-- A station that measures one direction, in thousandths.
use fintraffic.Base.{ℕ, ◌≡◌, refl, [], ◌∷◌, none, some}
use fintraffic.Base.Int.{ℤ, pos}
use fintraffic.Base.Number.Milli.{milli}
use fintraffic.Tie.Traffic.{
  Station, SensorValue, moderate, directional_statuses, direction_status, measured, sensor_value,
  congestion_level, station_volume, relative_speed_of,
}

abbrev reading : ℕ → ℕ → SensorValue ℤ
reading id value = record {
  id = id;
  value = pos value;
  short_name = "";
  sensor_value_description = none;
  unit = none;
}

abbrev station : Station ℤ
station = record {
  id = 1;
  name = "";
  longitude = pos 0;
  latitude = pos 0;
  data_of = reading 5122 60_000 ∷ reading 5116 7_000 ∷ reading 5119 5_000 ∷ [];
  bearing = none;
  free_flow1 = some (pos 80_000);
  free_flow2 = none;
}

slowed : (directional_statuses milli station).0.level ≡ moderate
unfolding directional_statuses sensor_value measured direction_status congestion_level
    relative_speed_of
slowed = refl

volume : station_volume milli station ≡ pos 12_000
unfolding station_volume sensor_value measured
volume = refl
