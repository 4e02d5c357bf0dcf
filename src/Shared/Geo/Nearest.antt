-- ===== src/Shared/Geo/Nearest.antt =====
-- What `nearestTo` gives.
use fintraffic.Base.{ℕ, ◌≡◌, refl, ◌∙◌, ap, Bool, List, [], ◌∷◌, arith, count, min, map}
use fintraffic.Base.Number.{Number, IsOrdered}
use fintraffic.Shared.Sort.{sort}
use fintraffic.Shared.Sort.Order.{IsSorted, sort-IsSorted, count-sort, count-take, take-IsSorted}
use fintraffic.Shared.Geo.{Trig, LatLng, nearest_to, distance_km}

module _ {A T : Type 0} (n : Number A) (o : IsOrdered n) (trig : Trig A) (place : T → LatLng A)
    (center : LatLng A) where
  -- Whether an item lies within a distance.
  abbrev pub lies_within : A → T → Bool
  lies_within bound item = n.le (distance_km n trig center (place item)) bound

  abbrev ranked : T → T × A
  ranked item = (item, distance_km n trig center (place item))

  count-ranked :
      (bound : A) (items : List T)
      → count (λ (x : T × A). n.le x.1 bound) (map ranked items) ≡ count (lies_within bound) items
  count-ranked bound [] = refl
  count-ranked bound (item ∷ items) = ground (arith, count-ranked bound items)

  sorted :
      (items : List T)
      → IsSorted (λ a b. n.le a.1 b.1) (sort (λ a b. n.le a.1 b.1) (map ranked items))
  sorted items =
      sort-IsSorted (λ a b. n.le a.1 b.1)
        (λ x y e. ground (arith, o.lt_not_le y.1 x.1, o.lt_le y.1 x.1, e))
        (λ x y z. o.le_trans x.1 y.1 z.1) (map ranked items)

  -- For every distance, `nearestTo` gives as many of the items within that distance as there are, up
  -- to the count asked for. And it gives them nearest first.
  pub nearest_to_lem :
      (items : List T) (k : ℕ)
      → ((bound : A)
          → count (λ (x : T × A). n.le x.1 bound) (nearest_to n trig place center items k)
            ≡ min k (count (lies_within bound) items))
        × IsSorted (λ a b. n.le a.1 b.1) (nearest_to n trig place center items k)
  unfolding nearest_to
  nearest_to_lem items k = (
    λ bound.
        count-take (λ a b. n.le a.1 b.1) (λ x. n.le x.1 bound) k
          (sort (λ a b. n.le a.1 b.1) (map ranked items))
          (λ x y e f. ground (arith, o.le_trans x.1 y.1 bound, e, f)) (sorted items)
        ∙ ap (min k) (
            count-sort (λ a b. n.le a.1 b.1) (λ x. n.le x.1 bound) (map ranked items)
            ∙ count-ranked bound items),
    take-IsSorted (λ a b. n.le a.1 b.1) k (sort (λ a b. n.le a.1 b.1) (map ranked items))
        (sorted items),
  )
