-- ===== src/Tie/Maintenance/Tasks.antt =====
-- What several tasks make of a vehicle.
use fintraffic.Base.{
  ◌≡◌, refl, Bool, true, false, ◌||◌, List, [], ◌∷◌, ◌++◌, arith, String, if◌then◌else◌, any,
}
use fintraffic.Tie.Maintenance.{
  MaintenanceCategory, plough, grit, other, maintenance_category, has, plough_tasks, grit_tasks,
}

-- Ploughing wins over gritting, and gritting over the rest.
abbrev pub stronger : MaintenanceCategory → MaintenanceCategory → MaintenanceCategory
stronger plough b = plough
stronger grit plough = plough
stronger grit _ = grit
stronger other b = b

any-append : (p : String → Bool) (xs ys : List String) → any p (xs ++ ys) ≡ (any p xs || any p ys)
any-append p [] ys = refl
any-append p (x ∷ xs) ys = ground (arith, any-append p xs ys)

-- The category of two lists of tasks together is the stronger of their categories, ploughing before
-- gritting before the rest.
pub maintenance_category-append :
    (xs ys : List String)
    → maintenance_category (xs ++ ys) ≡ stronger (maintenance_category xs) (maintenance_category ys)
unfolding maintenance_category
maintenance_category-append xs ys =
    rw (any-append (has plough_tasks) xs ys, any-append (has grit_tasks) xs ys)
      (by_tests (any (has plough_tasks) xs) (any (has plough_tasks) ys) (any (has grit_tasks) xs)
        (any (has grit_tasks) ys))
  where
    by_tests :
        (a b c d : Bool)
        → (if a || b then plough else if c || d then grit else other)
          ≡ stronger
              (if a then plough else if c then grit else other)
              (if b then plough else if d then grit else other)
    by_tests true b c d = refl
    by_tests false true true d = refl
    by_tests false true false d = refl
    by_tests false false true true = refl
    by_tests false false true false = refl
    by_tests false false false true = refl
    by_tests false false false false = refl
