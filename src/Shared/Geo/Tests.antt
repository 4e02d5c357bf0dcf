-- ===== src/Shared/Geo/Tests.antt =====
-- The two nearest of three points on a line, in thousandths, with a flat world's trigonometry.
use fintraffic.Base.{ℕ, ◌≡◌, refl, List, [], ◌∷◌, count, min}
use fintraffic.Base.Int.{ℤ, pos}
use fintraffic.Base.Number.Milli.{milli, milli-IsOrdered}
use fintraffic.Shared.Sort.{place, sort}
use fintraffic.Shared.Sort.Order.{IsSorted}
use fintraffic.Shared.Geo.{Trig, LatLng, nearest_to, distance_km}
use fintraffic.Shared.Geo.Nearest.{nearest_to_lem, lies_within}

abbrev flat : Trig ℤ
flat = record { pi = pos 180_000; cos = λ x. pos 1000; sin = λ x. pos 0; sqrt = λ x. x }

abbrev point : ℕ → LatLng ℤ
point x = record { lat = pos x; lng = pos 0 }

abbrev points : List (LatLng ℤ)
points = point 300 ∷ point 100 ∷ point 200 ∷ []

two_nearest :
    nearest_to milli flat (λ x. x) (point 0) points 2
    ≡ (point 100, pos 63_710) ∷ (point 200, pos 254_840) ∷ []
unfolding nearest_to sort place distance_km
two_nearest = refl

nearest_to_lem_example :
    ((bound : ℤ)
      → count
          (λ (x : LatLng ℤ × ℤ). milli.le x.1 bound)
          (nearest_to milli flat (λ x. x) (point 0) points 2)
        ≡ min 2 (count (lies_within milli milli-IsOrdered flat (λ x. x) (point 0) bound) points))
    × IsSorted (λ a b. milli.le a.1 b.1) (nearest_to milli flat (λ x. x) (point 0) points 2)
nearest_to_lem_example = nearest_to_lem milli milli-IsOrdered flat (λ x. x) (point 0) points 2
