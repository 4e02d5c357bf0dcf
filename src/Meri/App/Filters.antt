-- ===== src/Meri/App/Filters.antt =====
-- The category filter: what a toggle does, and which vessels the map gets.
use fintraffic.Base.{
  ℕ, ◌≡◌, refl, Bool, true, false, not, ◌||◌, List, [], ◌∷◌, ◌++◌, Option, none, some, arith,
  if◌then◌else◌, if_cases, keep, ◌==◌, ap, sym, ◌∙◌, ==_iff,
}
use fintraffic.Base.Dict.{Dict, lookup, keep_entries, IsDistinct}
use fintraffic.Meri.Stream.{Vessel}
use fintraffic.Meri.Ship.{ShipCategory, categorize}
use fintraffic.Meri.App.{includes, toggled, same_category, rank, same, displayed_vessels}

same-agrees :
    (x c d : ShipCategory) → same_category x c ≡ true → same_category x d ≡ same_category c d
unfolding same_category
same-agrees x c d e =
    let equal : rank x ≡ rank c = (==_iff (rank x) (rank c)).0 e in ap (λ r. r == rank d) equal

same-differs :
    (x c d : ShipCategory)
    → same_category x c ≡ false
    → same_category c d ≡ true
    → same_category x d ≡ false
unfolding same_category
same-differs x c d e f =
    let equal : rank c ≡ rank d = (==_iff (rank c) (rank d)).0 f in
    ap (λ r. rank x == r) (sym equal) ∙ e

includes-keep :
    (c d : ShipCategory) (cats : List ShipCategory)
    → includes (keep (λ x. not (same_category x c)) cats) d
      ≡ (if same_category c d then false else includes cats d)
unfolding includes
includes-keep c d [] = ground arith
includes-keep c d (x ∷ cats) =
    if_cases
      (λ t.
        includes t d ≡ (if same_category c d then false else same_category x d || includes cats d))
      (not (same_category x c)) (λ e. ground (arith, includes-keep c d cats, same-differs x c d))
      (λ e. ground (arith, includes-keep c d cats, same-agrees x c d))

includes-append :
    (c d : ShipCategory) (cats : List ShipCategory)
    → includes (cats ++ c ∷ []) d ≡ (if same_category c d then true else includes cats d)
unfolding includes
includes-append c d [] = ground arith
includes-append c d (x ∷ cats) = ground (arith, includes-append c d cats)

same-second :
    (x c d : ShipCategory) → same_category c d ≡ true → same_category x d ≡ same_category x c
unfolding same_category
same-second x c d e =
    let equal : rank c ≡ rank d = (==_iff (rank c) (rank d)).0 e in
    ap (λ r. rank x == r) (sym equal)

includes-same :
    (c d : ShipCategory) (cats : List ShipCategory)
    → same_category c d ≡ true
    → includes cats d ≡ includes cats c
unfolding includes
includes-same c d [] e = refl
includes-same c d (x ∷ cats) e = ground (arith, includes-same c d cats e)

-- A toggle of a category turns that category's place in the filter, and leaves every other one.
pub includes-toggled :
    (c d : ShipCategory) (cats : List ShipCategory)
    → includes (toggled c cats) d
      ≡ (if same_category c d then not (includes cats d) else includes cats d)
unfolding toggled
includes-toggled c d cats =
    if_cases
      (λ t. includes t d ≡ (if same_category c d then not (includes cats d) else includes cats d))
      (includes cats c) (λ e. ground (arith, includes-keep c d cats, includes-same c d cats))
      (λ e. ground (arith, includes-append c d cats, includes-same c d cats))

module _ {V : Type 0} where
  -- An entry that passes a test of its value.
  abbrev pub passing : (V → Bool) → Option V → Option V
  passing p none = none
  passing p (some v) = if p v then some v else none

  lookup-keep_entries_eq :
      (p : V → Bool) (k : ℕ) (m : Dict V)
      → IsDistinct m
      → lookup k (keep_entries (λ j v. p v) m) ≡ passing p (lookup k m)
  unfolding lookup keep_entries IsDistinct
  lookup-keep_entries_eq p k [] d = refl
  lookup-keep_entries_eq p k ((j, v) ∷ m) d = ground (arith, lookup-keep_entries_eq p k m d.1, d.0)

module _ {A : Type 0} where
  -- Whether the map shows a vessel.
  abbrev pub shows : List ShipCategory → Option ℕ → Vessel A → Bool
  shows [] selected v = true
  shows (c ∷ cats) selected v = includes (c ∷ cats) (categorize v.ship_type) || same selected v.mmsi

  -- The map gets exactly the vessels of the fleet whose category is in the filter, and all of them
  -- with no filter set; and the selected vessel, whatever its category.
  pub lookup-displayed_vessels :
      (cats : List ShipCategory) (selected : Option ℕ) (k : ℕ) (vessels : Dict (Vessel A))
      → IsDistinct vessels
      → lookup k (displayed_vessels cats selected vessels)
        ≡ passing (shows cats selected) (lookup k vessels)
  unfolding displayed_vessels
  lookup-displayed_vessels [] selected k vessels d = all_pass (lookup k vessels)
    where
      all_pass : (o : Option (Vessel A)) → o ≡ passing (shows [] selected) o
      all_pass none = refl
      all_pass (some v) = refl
  lookup-displayed_vessels (c ∷ cats) selected k vessels d =
      lookup-keep_entries_eq (shows (c ∷ cats) selected) k vessels d
