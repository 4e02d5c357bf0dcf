-- ===== src/Ilma/Aircraft/Around.antt =====
-- What `aircraftAround` gives.
use fintraffic.Base.{◌≡◌, refl, ◌∙◌, Bool, ◌&&◌, List, [], ◌∷◌, arith, count, keep, map}
use fintraffic.Base.Number.{Number, IsOrdered}
use fintraffic.Shared.Sort.Order.{IsSorted, sort-IsSorted, count-sort}
use fintraffic.Shared.Geo.{Trig}
use fintraffic.Ilma.Aircraft.{
  Airport, Aircraft, aircraft_around, low_over, km_from, airport_radius_km,
}

module _ {A : Type 0} (n : Number A) (o : IsOrdered n) (trig : Trig A) (airport : Airport A) where
  -- An aircraft that is low over the airport, within the radius, and passes a test with its distance.
  abbrev pub listed : (Aircraft A × A → Bool) → Aircraft A → Bool
  listed p a =
      low_over n airport a
      && (n.le (km_from n trig airport a) (airport_radius_km n) && p (a, km_from n trig airport a))

  -- The list before it is sorted.
  abbrev chosen : List (Aircraft A) → List (Aircraft A × A)
  chosen aircraft =
      keep (λ x. n.le x.1 (airport_radius_km n))
        (map (λ a. (a, km_from n trig airport a)) (keep (low_over n airport) aircraft))

  count-chain :
      (p : Aircraft A × A → Bool) (aircraft : List (Aircraft A))
      → count p (chosen aircraft) ≡ count (listed p) aircraft
  count-chain p [] = refl
  count-chain p (a ∷ aircraft) = ground (arith, count-chain p aircraft)

  -- Of any kind of aircraft and distance, `aircraftAround` lists as many as there are aircraft of
  -- that kind which are on the ground or below the ceiling over the airport, and at most the radius
  -- away, each with its distance; and it lists them nearest first.
  pub aircraft_around_lem :
      (aircraft : List (Aircraft A))
      → ((p : Aircraft A × A → Bool)
          → count p (aircraft_around n trig airport aircraft) ≡ count (listed p) aircraft)
        × IsSorted (λ x y. n.le x.1 y.1) (aircraft_around n trig airport aircraft)
  unfolding aircraft_around
  aircraft_around_lem aircraft = (
    λ p. count-sort (λ x y. n.le x.1 y.1) p (chosen aircraft) ∙ count-chain p aircraft,
    sort-IsSorted (λ x y. n.le x.1 y.1)
        (λ x y e. ground (arith, o.lt_not_le y.1 x.1, o.lt_le y.1 x.1, e))
        (λ x y z. o.le_trans x.1 y.1 z.1) (chosen aircraft),
  )
