-- ===== src/Meri/Replay/Track/Tests.antt =====
-- A track of two fixes that is opened, left and returned to, in thousandths.
use fintraffic.Base.{ℕ, ◌*◌, ◌≡◌, refl, true, false, [], ◌∷◌, none, some, is_some}
use fintraffic.Base.Int.{ℤ, pos}
use fintraffic.Base.Dict.{lookup, remove}
use fintraffic.Base.Number.Milli.{milli}
use fintraffic.Meri.Replay.Pose.{Fix}
use fintraffic.Meri.Replay.Fleet.{FleetReplayResponse}
use fintraffic.Meri.Replay.Track.{
  Props, Request, key_of, initial, toggle_play, rate, fetched, render,
}
use fintraffic.Meri.Replay.Track.Playing.{
  System, toggles, plays, fetches, renders, ends, run, step, start,
}
use fintraffic.Meri.Replay.Track.Consistency.{IsConsistent, run-IsConsistent}
use fintraffic.Meri.Replay.Track.Stale.{answer_after_return}

abbrev at_time : ℕ → Fix ℤ
at_time t = record {
  lng = pos 20_000;
  lat = pos 60_000;
  ts = pos (1000 * t);
  cog = pos 0;
  sog = pos 0;
}

abbrev ship : Props ℤ
ship = record {
  mmsi = some 230_000_001;
  points = at_time 0 ∷ at_time 3600 ∷ [];
  window_sec = 3600;
  enabled = true;
}

abbrev other_ship : Props ℤ
other_ship = record { mmsi = some 265_000_002; points = []; window_sec = 3600; enabled = true }

abbrev traffic : FleetReplayResponse ℤ
traffic = record {
  from = pos 0;
  to = pos 3_600_000;
  truncated = false;
  vessels = (230_000_001, []) ∷ (265_000_002, []) ∷ [];
}

opened :
    (run milli (start milli ship) (plays 1 ∷ fetches 0 traffic 2 ∷ [])).world.replay.session
    ≡ some (record {
      from = pos 0;
      to = pos 3_600_000;
      fleet = (265_000_002, []) ∷ [];
      fleet_from = pos 0;
    })
unfolding run step toggle_play initial fetched render lookup remove
opened = refl

an_hour_in_half_a_minute : rate milli (pos 0) (pos 3_600_000) (pos 1000) ≡ pos 120_000
unfolding rate
an_hour_in_half_a_minute = refl

abbrev asked : System ℤ
asked = run milli (start milli ship) (plays 1 ∷ [])

abbrev its_request : Request ℤ
its_request = record {
  id = 1;
  for_key = key_of ship;
  mmsi = 230_000_001;
  from = pos 0;
  to = pos 3_600_000;
  fleet_from = pos 0;
}

answer_after_return_example :
    let away = run milli asked (renders other_ship ∷ []) in
    let back = run milli away (renders ship ∷ fetches 0 traffic 9 ∷ []) in
    (away.world.replay.session ≡ none)
    × (away.world.replay.loading ≡ false)
    × (away.world.replay.playing ≡ false)
    × (is_some back.world.replay.session ≡ true)
    × (back.world.replay.playing ≡ true)
unfolding run step toggle_play initial
answer_after_return_example =
    answer_after_return milli asked other_ship 0 its_request traffic 9 refl refl refl refl refl

run-IsConsistent_example :
    let s =
      run milli
        (start milli ship)
        (toggles ∷ fetches 0 traffic 2 ∷ ends ∷ renders other_ship ∷ []) in
    IsConsistent s.props s.world.replay
run-IsConsistent_example =
    run-IsConsistent milli ship (toggles ∷ fetches 0 traffic 2 ∷ ends ∷ renders other_ship ∷ [])
