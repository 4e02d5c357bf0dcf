-- ===== src/Meri/App/Tests.antt =====
-- A page opened on a linked ship, in thousandths.
use fintraffic.Base.{ℕ, ◌≤◌, ◌≡◌, refl, true, List, [], ◌∷◌, none, some}
use fintraffic.Base.Int.{ℤ, pos}
use fintraffic.Base.Dict.{Dict, lookup, IsDistinct, keep_entries}
use fintraffic.Base.Number.Milli.{milli}
use fintraffic.Meri.Stream.{Vessel}
use fintraffic.Meri.Ship.{cargo, categorize}
use fintraffic.Meri.Replay.Fleet.{FleetReplay}
use fintraffic.Meri.Replay.Fleet
use fintraffic.Meri.App.{
  App, Event, selects_vessel, closes_vessel, enters_replay, renders, run, step, opened, includes,
  same_category, displayed_vessels, rank,
}
use fintraffic.Meri.App.Selection.{selected, run-opened-selected_le}
use fintraffic.Meri.App.Filters.{lookup-displayed_vessels, passing, shows}
use fintraffic.Meri.App.Link.{flies_once}

abbrev ship : ℕ → ℕ → Vessel ℤ
ship mmsi ship_type = record {
  mmsi = mmsi;
  lat = pos 60_000;
  lng = pos 25_000;
  sog = pos 0;
  cog = pos 0;
  hdg = none;
  nav_stat = 0;
  rot = none;
  ts = pos 0;
  source = none;
  name = none;
  call_sign = none;
  dest = none;
  ship_type = some ship_type;
  imo = none;
  draught = none;
  eta = none;
}

abbrev fleet : Dict (Vessel ℤ)
fleet = (1, ship 1 71) ∷ (2, ship 2 81) ∷ (3, ship 3 52) ∷ []

abbrev page : App ℤ
page = opened (some 2) true (Fleet.initial milli)

abbrev clicks : List (Event ℤ)
clicks = renders fleet ∷ selects_vessel true (some 3) ∷ enters_replay ∷ closes_vessel ∷ []

only_cargo_and_selected :
    displayed_vessels (cargo ∷ []) (some 2) fleet ≡ (1, ship 1 71) ∷ (2, ship 2 81) ∷ []
unfolding displayed_vessels categorize includes same_category rank keep_entries
only_cargo_and_selected = refl

run-opened-selected_le_example :
    selected (run milli (opened (some 2) true (Fleet.initial milli)) clicks) ≤ 1
run-opened-selected_le_example =
    run-opened-selected_le milli (some 2) true (Fleet.initial milli) clicks

lookup-displayed_vessels_example :
    lookup 3 (displayed_vessels (cargo ∷ []) (some 2) fleet)
    ≡ passing (shows (cargo ∷ []) (some 2)) (lookup 3 fleet)
unfolding IsDistinct lookup
lookup-displayed_vessels_example =
    lookup-displayed_vessels (cargo ∷ []) (some 2) 3 fleet (refl, (refl, (refl, tt)))

flies_once_example :
    (run milli
      (step milli page (renders fleet))
      (selects_vessel true (some 3) ∷ renders fleet ∷ [])).focus_target
    ≡ some (record { lng = pos 25_000; lat = pos 60_000 })
unfolding opened lookup
flies_once_example =
    flies_once milli page 2 (ship 2 81) fleet (selects_vessel true (some 3) ∷ renders fleet ∷ [])
      refl refl refl refl refl
