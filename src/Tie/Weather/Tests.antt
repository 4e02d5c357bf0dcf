-- ===== src/Tie/Weather/Tests.antt =====
-- A slippery road, in thousandths.
use fintraffic.Base.{ℕ, ◌≡◌, refl, max, [], ◌∷◌, none}
use fintraffic.Base.Int.{ℤ, pos}
use fintraffic.Base.Number.Milli.{milli}
use fintraffic.Tie.Weather.{
  RoadWeatherStation, WeatherReading, hazard, rank, value_of, reading, road_weather_level,
  warning_sensor, condition_sensor, friction_sensor, worse, with_warning, with_condition,
  with_friction,
}
use fintraffic.Tie.Weather.Worst.{
  rank-road_weather_level, warning_alone, condition_alone, friction_alone,
}

abbrev reads : ℕ → ℕ → WeatherReading ℤ
reads id value = record {
  sensor_id = id;
  label = "";
  value = pos value;
  unit = none;
  description = none;
}

-- The warning is OK, the road is snowy, and the friction is 0.25.
abbrev station : RoadWeatherStation ℤ
station = record {
  id = 1;
  name = "";
  longitude = pos 0;
  latitude = pos 0;
  measured_time = none;
  readings = reads 29 0 ∷ reads 27 6_000 ∷ reads 176 250 ∷ [];
}

slippery : road_weather_level milli station ≡ hazard
unfolding road_weather_level reading worse with_warning with_condition with_friction
slippery = refl

rank-road_weather_level_example :
    rank (road_weather_level milli station)
    ≡ max (warning_alone milli (value_of (reading station warning_sensor))) (
        max
          (condition_alone milli (value_of (reading station condition_sensor)))
          (friction_alone milli (value_of (reading station friction_sensor))))
rank-road_weather_level_example = rank-road_weather_level milli station
