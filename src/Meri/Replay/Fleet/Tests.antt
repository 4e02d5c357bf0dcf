-- ===== src/Meri/Replay/Fleet/Tests.antt =====
-- Runs of the fleet replay with two requests in flight, in thousandths.
use fintraffic.Base.{ℕ, ◌+◌, ◌≡◌, refl, List, [], ◌∷◌, none, true, false}
use fintraffic.Base.Int.{ℤ, pos}
use fintraffic.Base.Number.Milli.{milli}
use fintraffic.Meri.Replay.Fleet.{
  FleetReplayResponse, enter, load, loaded, exit, initial, control, visible,
}
use fintraffic.Meri.Replay.Fleet.Requests.{
  Event, enters, exits, succeeds, fails, toggles, step, run, start,
}
use fintraffic.Meri.Replay.Fleet.Closing.{exit_is_final, exit_while_loading}
use fintraffic.Meri.Replay.Fleet.Newest.{newest_answer_wins}

abbrev window : ℕ → FleetReplayResponse ℤ
window t = record { from = pos t; to = pos (t + 3_600_000); truncated = false; vessels = [] }

-- Opened, and the window changed before the answer.
abbrev asked_twice : List (Event ℤ)
asked_twice = enters (pos 3_600_000) ∷ enters (pos 7_200_000) ∷ []

late_answer_ignored :
    (run milli
      (start milli)
      (enters (pos 1000) ∷ exits ∷ succeeds 0 (window 5) 9 ∷ [])).replay.active
    ≡ false
unfolding run step enter load exit loaded initial
late_answer_ignored = refl

exit_is_final_example :
    let s =
      (run milli
        (step milli (run milli (start milli) asked_twice) exits)
        (succeeds 1 (window 5) 9 ∷ toggles 10 ∷ fails 0 ∷ [])).replay in
    (s.active ≡ false) × (s.vessels ≡ []) × (control s ≡ none)
exit_is_final_example =
    exit_is_final milli asked_twice (succeeds 1 (window 5) 9 ∷ toggles 10 ∷ fails 0 ∷ [])
      (tt, (tt, (tt, tt)))

exit_while_loading_example :
    let s =
      (run milli
        (step milli (run milli (start milli) asked_twice) exits)
        (succeeds 0 (window 5) 9 ∷ fails 0 ∷ [])).replay in
    (s.loading ≡ true) × (visible s ≡ true)
unfolding run step enter load initial
exit_while_loading_example =
    exit_while_loading milli asked_twice (succeeds 0 (window 5) 9 ∷ fails 0 ∷ []) (tt, (tt, tt))
      refl

newest_answer_wins_example :
    let asked = step milli (run milli (start milli) asked_twice) (enters (pos 1000)) in
    let s =
      (run milli asked
        (fails 2 ∷ succeeds 0 (window 5) 9 ∷ succeeds 0 (window 7) 11 ∷ [])).replay in
    (s.active ≡ true)
    × (s.vessels ≡ [])
    × (s.from ≡ pos 5)
    × (s.to ≡ pos 3_600_005)
    × (s.playhead ≡ pos 5)
    × (s.playing ≡ true)
    × (s.loading ≡ false)
    × (s.window_sec ≡ pos 1000)
newest_answer_wins_example =
    newest_answer_wins milli asked_twice (fails 2 ∷ []) (succeeds 0 (window 7) 11 ∷ []) (pos 1000)
      (window 5) 9 (tt, tt) (tt, tt)
