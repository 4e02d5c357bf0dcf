-- ===== src/Tie/Parking/Levels.antt =====
-- When a facility is shown as full, and when as unknown.
use fintraffic.Base.{◌≡◌, ◌↔◌, ◌⊎◌, Bool, true, false, Option, none, some, arith}
use fintraffic.Base.Number.{Number, IsOrdered, decimal}
use fintraffic.Tie.Parking.{
  ParkingFacility, full, unknown, level_of, parking_level, occupancy_ratio,
}

abbrev pub is_closed : Option Bool → Bool
is_closed (some false) = true
is_closed _ = false

module _ {A : Type 0} (n : Number A) where
  open n use {of_ℕ, le}

  -- No space is left of those that are known.
  abbrev pub none_left : Option A → Bool
  none_left none = false
  none_left (some ratio) = le ratio (of_ℕ 0)

module _ {A : Type 0} (n : Number A) (o : IsOrdered n)
    (positive : n.le (n.of_ℕ 0) (decimal n 2 10) ≡ true) where
  level_of-full :
      (now : Option Bool) (ratio : Option A)
      → (level_of n now ratio ≡ full) ↔ ((is_closed now ≡ true) ⊎ (none_left n ratio ≡ true))
  level_of-full (some false) ratio = ground arith
  level_of-full (some true) none = ground arith
  level_of-full none none = ground arith
  level_of-full (some true) (some q) = ground (
    arith,
    positive,
    o.lt_not_le (decimal n 2 10) q,
    o.lt_not_le (n.of_ℕ 0) q,
    o.le_trans q (n.of_ℕ 0) (decimal n 2 10),
  )
  level_of-full none (some q) = ground (
    arith,
    positive,
    o.lt_not_le (decimal n 2 10) q,
    o.lt_not_le (n.of_ℕ 0) q,
    o.le_trans q (n.of_ℕ 0) (decimal n 2 10),
  )

  level_of-unknown :
      (now : Option Bool) (ratio : Option A)
      → (level_of n now ratio ≡ unknown) ↔ ((is_closed now ≡ false) × (ratio ≡ none))
  level_of-unknown (some false) ratio = ground arith
  level_of-unknown (some true) none = ground arith
  level_of-unknown none none = ground arith
  level_of-unknown (some true) (some q) = ground arith
  level_of-unknown none (some q) = ground arith

  -- If 0.2 is not below zero: a facility is shown as full exactly when it says that it is not open
  -- or when the ratio of its free spaces is known and not above zero, and as unknown exactly when it
  -- does not say so and the ratio is not known.
  pub parking_level_iff :
      (f : ParkingFacility A)
      → ((parking_level n f ≡ full)
          ↔ ((is_closed f.open_now ≡ true) ⊎ (none_left n (occupancy_ratio n f) ≡ true)))
        × ((parking_level n f ≡ unknown)
            ↔ ((is_closed f.open_now ≡ false) × (occupancy_ratio n f ≡ none)))
  unfolding parking_level
  parking_level_iff f = (
    level_of-full f.open_now (occupancy_ratio n f),
    level_of-unknown f.open_now (occupancy_ratio n f),
  )
