-- ===== src/Tie/Maintenance/Tests.antt =====
-- A plough that salts as it goes.
use fintraffic.Base.{◌≡◌, refl, [], ◌∷◌}
use fintraffic.Tie.Maintenance.{plough, maintenance_category, has}

salting_plough : maintenance_category ("SALTING" ∷ "TRANSFER_OF_SNOW" ∷ []) ≡ plough
unfolding maintenance_category has
salting_plough = refl
