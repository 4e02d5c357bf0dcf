-- ===== src/Tie/Parking/Tests.antt =====
-- A facility that is half full, in thousandths.
use fintraffic.Base.{◌≡◌, refl, true, none, some}
use fintraffic.Base.Int.{ℤ, pos}
use fintraffic.Base.Number.Milli.{milli}
use fintraffic.Tie.Parking.{ParkingFacility, plenty, parking_level, occupancy_ratio}

abbrev facility : ParkingFacility ℤ
facility = record {
  id = 1;
  name = "";
  longitude = pos 0;
  latitude = pos 0;
  type = "";
  status = "";
  capacity = pos 10_000;
  built_capacity = none;
  pricing_method = none;
  usages = none;
  services = none;
  authentication_methods = none;
  payment_methods = none;
  payment_info = none;
  opening_hours = none;
  spaces_available = some (pos 5_000);
  open_now = some true;
  updated_at = none;
}

half : parking_level milli facility ≡ plenty
unfolding parking_level occupancy_ratio
half = refl
