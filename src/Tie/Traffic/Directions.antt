-- ===== src/Tie/Traffic/Directions.antt =====
-- The level of a direction.
use fintraffic.Base.{ℕ, ◌≡◌, ◌↔◌, refl, Option, none, some, arith}
use fintraffic.Base.Number.{Number}
use fintraffic.Tie.Traffic.{
  Station, unknown, banded, congestion_level, direction_status, directional_statuses, measured,
  relative_speed_of, sensor_value, speed_sensor_dir1, speed_sensor_dir2,
}

module _ {A : Type 0} (n : Number A) where
  -- What a direction reads: its sensor's value, unless it is missing or negative.
  abbrev pub reads : Station A → ℕ → Option A
  reads s id = measured n (sensor_value s.data_of id)

  banded-known : (high low value : A) → banded n high low value ≡ unknown → ⊥
  banded-known high low value e = ground (arith, e)

  level-known :
      (relative : Option A) (speed : A) → congestion_level n relative (some speed) ≡ unknown → ⊥
  unfolding congestion_level
  level-known none speed e = banded-known _ _ _ e
  level-known (some relative) speed e = banded-known _ _ _ e

  status-unknown :
      (speed flow : Option A) → ((direction_status n speed flow).level ≡ unknown) ↔ (speed ≡ none)
  unfolding direction_status
  status-unknown none flow = ((λ e. refl), (λ e. refl))
  status-unknown (some speed) flow = (
    (λ e. absurd (level-known (relative_speed_of n speed flow) speed e)),
    (λ e. absurd (ground (arith, e))),
  )

  -- Each direction of a station is graded by itself: its level is unknown exactly when its own speed
  -- sensor is missing or reads below zero.
  pub directional_statuses-unknown :
      (s : Station A)
      → (((directional_statuses n s).0.level ≡ unknown) ↔ (reads s speed_sensor_dir1 ≡ none))
        × (((directional_statuses n s).1.level ≡ unknown) ↔ (reads s speed_sensor_dir2 ≡ none))
  unfolding directional_statuses
  directional_statuses-unknown s = (
    status-unknown (reads s speed_sensor_dir1) s.free_flow1,
    status-unknown (reads s speed_sensor_dir2) s.free_flow2,
  )
