-- ===== src/Meri/Live/Tests.antt =====
-- A fleet of one vessel on the map, in thousandths: it is reported twice with one time stamp, while
-- frames are drawn, and another vessel goes.
use fintraffic.Base.{ℕ, ◌≡◌, refl, List, [], ◌∷◌, none, some, arith, map}
use fintraffic.Base.Int.{ℤ, pos}
use fintraffic.Base.Dict.{Dict, lookup}
use fintraffic.Base.Number.Milli.{milli, milli-IsOrdered}
use fintraffic.Shared.Geo.{Trig}
use fintraffic.Meri.Stream.{Vessel}
use fintraffic.Meri.Live.{Live, Feature, Event, updates, draws, ingest, draw_live, run}
use fintraffic.Meri.Live.Drawn.{IsWithin, draw_all, draws_fleet}
use fintraffic.Meri.Live.Received.{IsReceived, IsReported, IsNewFix, RepeatsFix, updates-IsReceived}

-- A plane: a degree is as long everywhere.
abbrev flat : Trig ℤ
flat = record { pi = pos 3_142; cos = λ a. pos 1000; sin = λ a. pos 0; sqrt = λ a. a }

-- `Math.exp`, roughly.
abbrev fade : ℤ → ℤ
fade a = pos 500

abbrev ship : ℕ → ℕ → Vessel ℤ
ship mmsi x = record {
  mmsi = mmsi;
  lat = pos 60_000;
  lng = pos x;
  sog = pos 12_000;
  cog = pos 90_000;
  hdg = none;
  nav_stat = 0;
  rot = none;
  ts = pos 7000;
  source = none;
  name = some "m/s Aino";
  call_sign = none;
  dest = none;
  ship_type = some 70;
  imo = none;
  draught = none;
  eta = none;
}

abbrev empty : Live ℤ
empty = record { targets = []; render = [] }

abbrev two : Dict (Vessel ℤ)
two = (7, ship 7 25_000) ∷ (8, ship 8 26_000) ∷ []

abbrev one : Dict (Vessel ℤ)
one = (7, ship 7 25_100) ∷ []

abbrev before : Live ℤ
before = run milli flat fade empty (updates (pos 1000) two ∷ draws (pos 1030) (pos 30) none ∷ [])

-- The first frame draws a vessel where it is reported.
appears_as_reported :
    map
      (λ (f : Feature ℤ). f.lng)
      (draw_live milli flat fade (pos 2000) (pos 30) none (ingest milli (pos 1000) two empty)).1
    ≡ pos 25_000 ∷ pos 26_000 ∷ []
unfolding draw_live ingest
appears_as_reported = refl

draws_fleet_example :
    (map
        (λ (x : Feature ℤ). x.mmsi)
        (draw_live milli flat fade (pos 1090) (pos 30) (some 7) (
          draw_all milli flat fade
            (record { now = pos 1060; dt = pos 30; selected = none } ∷ [])
            (ingest milli (pos 1050) one before))).1
      ≡ 7 ∷ [])
    × IsWithin
        (draw_all milli flat fade
          (record { now = pos 1060; dt = pos 30; selected = none } ∷ [])
          (ingest milli (pos 1050) one before)).render
        (7 ∷ [])
draws_fleet_example =
    draws_fleet milli flat fade before (pos 1050) one
      (record { now = pos 1060; dt = pos 30; selected = none } ∷ [])
      (record { now = pos 1090; dt = pos 30; selected = some 7 })

abbrev same_fix : List (Event ℤ)
same_fix =
    draws (pos 1060) (pos 30) none
    ∷ updates (pos 31_000) one
    ∷ draws (pos 31_030) (pos 30) (some 7)
    ∷ []

empty-IsNewFix : IsNewFix milli 7 (pos 7000) empty
unfolding IsNewFix lookup
empty-IsNewFix t e = absurd (ground (arith, e))

updates-IsReceived_example :
    IsReceived 7
      (pos 7000)
      (pos 1000)
      (run milli flat fade empty (updates (pos 1000) two ∷ same_fix))
unfolding IsReported RepeatsFix lookup
updates-IsReceived_example =
    updates-IsReceived milli milli-IsOrdered flat fade 7 (pos 7000) (pos 1000) two same_fix empty
      empty-IsNewFix (ship 7 25_000, refl, refl) ((ship 7 25_100, refl, refl), tt)
