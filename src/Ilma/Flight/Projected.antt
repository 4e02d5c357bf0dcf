-- ===== src/Ilma/Flight/Projected.antt =====
-- How far an aircraft is projected.
use fintraffic.Base.{◌≡◌, refl, true, Option, none, some, arith, Bool-cases, ◌⊎◌, inl, inr}
use fintraffic.Base.Number.{Number, IsOrdered, IsRounded, maximum, minimum}
use fintraffic.Shared.Geo.{Trig, dead_reckon}
use fintraffic.Ilma.Aircraft.{Aircraft}
use fintraffic.Ilma.Flight.{
  Position, reported, projected, project_seconds, live_position, max_project_s,
}

module _ {A : Type 0} (n : Number A) (order : IsOrdered n) where
  le-maximum : (x y : A) → n.le y (maximum n x y) ≡ true
  le-maximum x y = elim (Bool-cases (n.lt x y)) [
    | inl below ↦ rw (below, maximum) (order.le_refl y)
    | inr above ↦ rw (above, maximum) (ground (arith, order.lt_not_le x y, above))
  ]

  minimum-le : (x y : A) → n.le (minimum n x y) y ≡ true
  minimum-le x y = elim (Bool-cases (n.lt y x)) [
    | inl above ↦ rw (above, minimum) (order.le_refl y)
    | inr below ↦ rw (below, minimum) (ground (arith, order.lt_not_le y x, below))
  ]

  le-minimum : (z x y : A) → n.le z x ≡ true → n.le z y ≡ true → n.le z (minimum n x y) ≡ true
  le-minimum z x y e f = elim (Bool-cases (n.lt y x)) [
    | inl above ↦ rw (above, minimum) f
    | inr below ↦ rw (below, minimum) e
  ]

module _ {A : Type 0} (n : Number A) (order : IsOrdered n) (rounded : IsRounded n)
    (trig : Trig A) where
  -- Dead reckoning from the fix for a time of zero to thirty seconds.
  abbrev pub IsReckoned : Aircraft A → A → A → Position A → Type 0
  IsReckoned a speed track p =
      (dt : A) × (n.le (n.of_ℕ 0) dt ≡ true)
      × (n.le dt (n.of_ℕ 30) ≡ true)
      × (p ≡ (
        (dead_reckon n trig a.latitude a.longitude speed track dt).lng,
        (dead_reckon n trig a.latitude a.longitude speed track dt).lat,
      ))

  projected-bounds :
      (a : Aircraft A) (now : A) (speed track : Option A)
      → (projected n trig a now speed track ≡ reported n trig a)
        ⊎ ((v : A) × (course : A) × (speed ≡ some v)
            × (track ≡ some course)
            × IsReckoned a v course (projected n trig a now speed track))
  projected-bounds a now none track = inl refl
  projected-bounds a now (some v) none = inl refl
  projected-bounds a now (some v) (some course) = elim (Bool-cases (n.lt v (n.of_ℕ 1))) [
    | inl slow ↦ inl (rw slow refl)
    | inr moving ↦ inr (
      v,
      course,
      refl,
      refl,
      (
        project_seconds n a now,
        le-minimum n order (n.of_ℕ 0) _ (max_project_s n) (le-maximum n order _ (n.of_ℕ 0))
            (rounded.of_ℕ_mono 0 30 (omega arith)),
        minimum-le n order _ (max_project_s n),
        rw moving refl,
      ),
    )
  ]

  -- An aircraft is shown where it reported to be, or, if it reports a speed and a track, where dead
  -- reckoning along them takes it in some time of no less than zero and no more than thirty seconds,
  -- however old the fix is and whatever the clocks say.
  pub live_position-bounds :
      (a : Aircraft A) (now : A)
      → (live_position n trig a now ≡ reported n trig a)
        ⊎ ((v : A) × (course : A) × (a.ground_speed_kt ≡ some v)
            × (a.track ≡ some course)
            × IsReckoned a v course (live_position n trig a now))
  unfolding live_position
  live_position-bounds a now = projected-bounds a now a.ground_speed_kt a.track
