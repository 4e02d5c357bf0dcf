-- ===== src/Ilma/Map/Features.antt =====
-- The features of the aircraft and of the airports on the air map: components/Map.tsx and
-- `altitudeShort` of lib/aircraft.ts. `digits` stands for `String` on an integer.
use Prim.Native.String.{String}
use fintraffic.Base.{
  ℕ, zero, suc, ◌-◌, ◌*◌, ◌++◌, Bool, false, not, List, [], ◌∷◌, Option, none, some, map, length,
  str_eq, if◌then◌else◌,
}
use fintraffic.Base.Int.{ℤ, pos, negsuc}
use fintraffic.Base.Number.{Number}
use fintraffic.Shared.Geo.{Trig}
use fintraffic.Shared.Ids.{Text, chars}
use fintraffic.Ilma.Aircraft.{Aircraft, Airport, AircraftGroup}
use fintraffic.Ilma.Flight.{Position, live_position}

pub record AircraftFeature (A : Type 0) : Type 0 where
  pub coordinates : Position A
  pub hex : String
  pub group : AircraftGroup
  pub track : A
  pub label : String
  pub alt : Text
  pub on_ground : Bool
  pub emergency : Bool

pub record AirportFeature (A : Type 0) : Type 0 where
  pub coordinates : A × A
  pub icao : String
  pub name : String
  pub scheduled : Bool

abbrev pub zeros : ℕ → Text
zeros zero = []
zeros (suc k) = b'0' ∷ zeros k

-- `padStart(width, '0')`.
unfoldable pub pad_start : ℕ → Text → Text
pad_start width x = zeros (width - length x) ++ x

-- A string that counts as true, and `||` on strings.
abbrev pub is_truthy : Option String → Bool
is_truthy none = false
is_truthy (some s) = not (str_eq s "")

abbrev pub or_empty : Option String → String
or_empty none = ""
or_empty (some s) = s

-- `Math.max(0, hundreds * 100)`.
abbrev pub feet_of : ℤ → ℕ
feet_of (pos hundreds) = hundreds * 100
feet_of (negsuc hundreds) = 0

module _ {A : Type 0} (n : Number A) (digits : ℤ → Text) where
  open n use {of_ℕ, div, le, round}

  abbrev pub transition_altitude_ft : A
  transition_altitude_ft = of_ℕ 5000

  abbrev pub altitude_text : Option A → Text
  altitude_text none = []
  altitude_text (some altitude) =
      let hundreds = round (div altitude (of_ℕ 100)) in
      if le transition_altitude_ft altitude
      then chars "FL" ++ pad_start 3 (digits hundreds)
      else digits (pos (feet_of hundreds)) ++ chars " ft"

  unfoldable pub altitude_short : Aircraft A → Text
  unfolding pad_start
  altitude_short a = if a.on_ground then chars "GND" else altitude_text a.altitude_ft

module _ {A : Type 0} (n : Number A) (trig : Trig A) (digits : ℤ → Text) where
  open n use {of_ℕ}

  abbrev pub or_zero : Option A → A
  or_zero none = of_ℕ 0
  or_zero (some a) = a

  abbrev pub aircraft_feature : A → Aircraft A → AircraftFeature A
  aircraft_feature now a = record {
    coordinates = live_position n trig a now;
    hex = a.hex;
    group = a.group;
    track = or_zero a.track;
    label = if str_eq a.callsign "" then or_empty a.registration else a.callsign;
    alt = altitude_short n digits a;
    on_ground = a.on_ground;
    emergency = is_truthy a.emergency;
  }

  unfoldable pub to_aircraft : List (Aircraft A) → A → List (AircraftFeature A)
  unfolding live_position altitude_short
  to_aircraft aircraft now = map (aircraft_feature now) aircraft

module _ {A : Type 0} where
  abbrev pub airport_feature : Airport A → AirportFeature A
  airport_feature ap = record {
    coordinates = (ap.longitude, ap.latitude);
    icao = ap.icao;
    name = ap.name;
    scheduled = ap.scheduled;
  }

  unfoldable pub to_airports : List (Airport A) → List (AirportFeature A)
  to_airports airports = map airport_feature airports
