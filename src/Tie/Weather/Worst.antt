-- ===== src/Tie/Weather/Worst.antt =====
-- A station is graded by the worst of its signals.
use fintraffic.Base.{
  ℕ, ◌≡◌, Bool, true, false, not, Option, none, some, arith, max, if◌then◌else◌, if_cases, ltb,
}
use fintraffic.Base.Number.{Number}
use fintraffic.Tie.Weather.{
  RoadWeatherStation, RoadWeatherLevel, unknown, rank, worse, reading, value_of, warning_grade,
  condition_grade, friction_grade, with_warning, with_condition, with_friction, road_weather_level,
  warning_sensor, condition_sensor, friction_sensor, equals,
}

max-right : (a b : ℕ) → ltb a b ≡ true → b ≡ max a b
max-right a b e = ground (arith, e)

max-left : (a b : ℕ) → ltb a b ≡ false → a ≡ max a b
max-left a b e = ground (arith, e)

rank-worse : (a b : RoadWeatherLevel) → rank (worse a b) ≡ max (rank a) (rank b)
unfolding worse
rank-worse a b =
    if_cases (λ c. rank c ≡ max (rank a) (rank b)) (ltb (rank a) (rank b))
      (λ e. max-right (rank a) (rank b) e) (λ e. max-left (rank a) (rank b) e)

module _ {A : Type 0} (n : Number A) where
  open n use {of_ℕ, lt}

  -- The grade of each signal alone, nothing known being the lowest.
  abbrev pub warning_alone : Option A → ℕ
  warning_alone none = 0
  warning_alone (some w) = rank (warning_grade n w)

  abbrev pub condition_alone : Option A → ℕ
  condition_alone none = 0
  condition_alone (some c) = if equals n c (of_ℕ 0) then 0 else rank (condition_grade n c)

  abbrev pub friction_alone : Option A → ℕ
  friction_alone none = 0
  friction_alone (some f) = if lt (of_ℕ 0) f then rank (friction_grade n f) else 0

  rank-with_warning :
      (w : Option A) (l : RoadWeatherLevel)
      → rank (with_warning n w l) ≡ max (rank l) (warning_alone w)
  unfolding with_warning
  rank-with_warning none l = omega arith
  rank-with_warning (some w) l = rank-worse l (warning_grade n w)

  rank-with_condition :
      (c : Option A) (l : RoadWeatherLevel)
      → rank (with_condition n c l) ≡ max (rank l) (condition_alone c)
  unfolding with_condition
  rank-with_condition none l = omega arith
  rank-with_condition (some c) l = on (equals n c (of_ℕ 0))
    where
      on :
          (b : Bool)
          → rank (if not b then worse l (condition_grade n c) else l)
            ≡ max (rank l) (if b then 0 else rank (condition_grade n c))
      on true = omega arith
      on false = rank-worse l (condition_grade n c)

  rank-with_friction :
      (f : Option A) (l : RoadWeatherLevel)
      → rank (with_friction n f l) ≡ max (rank l) (friction_alone f)
  unfolding with_friction
  rank-with_friction none l = omega arith
  rank-with_friction (some f) l = on (lt (of_ℕ 0) f)
    where
      on :
          (b : Bool)
          → rank (if b then worse l (friction_grade n f) else l)
            ≡ max (rank l) (if b then rank (friction_grade n f) else 0)
      on true = rank-worse l (friction_grade n f)
      on false = omega arith

  -- The level of a station ranks as the worst of its three signals taken alone: the warning, the
  -- road condition unless it is zero, and the friction if it is above zero; with none, unknown.
  pub rank-road_weather_level :
      (s : RoadWeatherStation A)
      → rank (road_weather_level n s)
        ≡ max (warning_alone (value_of (reading s warning_sensor))) (
            max
              (condition_alone (value_of (reading s condition_sensor)))
              (friction_alone (value_of (reading s friction_sensor))))
  unfolding road_weather_level
  rank-road_weather_level s =
      let w = value_of (reading s warning_sensor) in
      let c = value_of (reading s condition_sensor) in
      let f = value_of (reading s friction_sensor) in
      omega (
        arith,
        rank-with_friction f (with_condition n c (with_warning n w unknown)),
        rank-with_condition c (with_warning n w unknown),
        rank-with_warning w unknown,
      )
