-- ===== src/Shared/Geo.antt =====
-- Flat-earth geometry: shared/lib/geo.ts, and `nearestTo` of modes/meri/lib/geo.ts.
pub mod Nearest
mod Tests
use fintraffic.Base.{ℕ, ◌*◌, List, map, take}
use fintraffic.Base.Number.{Number, decimal}
use fintraffic.Shared.Sort.{sort}

pub record LatLng (A : Type 0) : Type 0 where
  pub lat : A
  pub lng : A

-- The functions of `Math` that the geometry uses.
pub record Trig (A : Type 0) : Type 0 where
  pub pi : A
  pub cos : A → A
  pub sin : A → A
  pub sqrt : A → A

module _ {A : Type 0} (n : Number A) (trig : Trig A) where
  open n use {of_ℕ, add, sub, mul, div}
  open trig use {pi, cos, sin, sqrt}

  abbrev pub earth_radius_m : A
  earth_radius_m = of_ℕ 6_371_000

  abbrev pub knots_to_ms : A
  knots_to_ms = decimal n 514_444 1_000_000

  abbrev pub deg : A
  deg = div pi (of_ℕ 180)

  unfoldable pub dead_reckon : A → A → A → A → A → LatLng A
  dead_reckon lat lng speed_knots course_deg dt_seconds =
      let dist = mul (mul speed_knots knots_to_ms) dt_seconds in
      let bearing = mul course_deg deg in
      let d_lat = div (div (mul dist (cos bearing)) earth_radius_m) deg in
      let d_lng = div (div (mul dist (sin bearing)) (mul earth_radius_m (cos (mul lat deg)))) deg in
      record { lat = add lat d_lat; lng = add lng d_lng }

  unfoldable pub distance_km : LatLng A → LatLng A → A
  distance_km a b =
      let mean_lat = mul (div (add a.lat b.lat) (of_ℕ 2)) deg in
      let dx = mul (sub a.lng b.lng) (cos mean_lat) in
      let dy = sub a.lat b.lat in
      div (mul (mul (sqrt (add (mul dx dx) (mul dy dy))) deg) earth_radius_m) (of_ℕ 1000)

  -- An item and its distance.
  abbrev pub Ranked : Type 0 → Type 0
  Ranked T = T × A

  unfoldable pub nearest_to :
      {T : Type 0} → (T → LatLng A) → LatLng A → List T → ℕ → List (Ranked T)
  unfolding sort distance_km
  nearest_to place center items count =
      take count
        (sort (λ a b. n.le a.1 b.1) (map (λ item. (item, distance_km center (place item))) items))
