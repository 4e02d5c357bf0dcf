-- ===== src/Meri/Ship/Tests.antt =====
-- The category of a tug.
use fintraffic.Base.{◌≡◌, refl, some}
use fintraffic.Meri.Ship.{ship_type_text}

tug : ship_type_text (some 52) ≡ "Tug"
unfolding ship_type_text
tug = refl
