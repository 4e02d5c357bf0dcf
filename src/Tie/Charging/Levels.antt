-- ===== src/Tie/Charging/Levels.antt =====
-- When a charging station is shown as full, and when as unknown.
use fintraffic.Base.{◌≡◌, ◌↔◌, Bool, true, Option, none, some, arith, if◌then◌else◌}
use fintraffic.Base.Number.{Number}
use fintraffic.Tie.Charging.{ChargingStation, full, unknown, charging_level, charging_level_of}

module _ {A : Type 0} (n : Number A) where
  open n use {of_ℕ, le}

  -- The station reports, and has any points: whether they are all taken.
  abbrev pub reported : Option A → A → Option Bool
  reported none total = none
  reported (some points) total = if le total (of_ℕ 0) then none else some (le points (of_ℕ 0))

  by_report :
      (points : Option A) (total : A)
      → ((charging_level_of n points total ≡ unknown) ↔ (reported points total ≡ none))
        × ((charging_level_of n points total ≡ full) ↔ (reported points total ≡ some true))
  by_report none total = ground arith
  by_report (some points) total = ground arith

  -- A charging station is shown as unknown exactly when it reports no available points or has no
  -- points at all, and as full exactly when it reports that none of its points are available.
  pub charging_level_iff :
      (s : ChargingStation A)
      → ((charging_level n s ≡ unknown) ↔ (reported s.available_points s.total ≡ none))
        × ((charging_level n s ≡ full) ↔ (reported s.available_points s.total ≡ some true))
  unfolding charging_level
  charging_level_iff s = by_report s.available_points s.total
