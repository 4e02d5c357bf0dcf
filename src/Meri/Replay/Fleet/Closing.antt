-- ===== src/Meri/Replay/Fleet/Closing.antt =====
-- Closing the fleet replay, with requests still in flight.
use fintraffic.Base.{
  ℕ, ◌<◌, ◌≡◌, refl, Bool, true, false, List, [], ◌∷◌, none, arith, All, All-remove_at, All-mono,
  remove_at, get_elem?, ◌∙◌,
}
use fintraffic.Base.Number.{Number}
use fintraffic.Meri.Replay.Fleet.{
  FleetReplay, loaded, failed, exit, toggle_play, set_speed, do_seek, on_progress, on_ended,
  on_selected_pose, control, visible,
}
use fintraffic.Meri.Replay.Fleet.Requests.{
  World, Event, enters, exits, succeeds, fails, toggles, answer, step, run, start, IsIssued,
  IsQuiet, loaded_stale, failed_stale, answer_stale, load_id-toggle_play, run-IsIssued,
}

module _ {A : Type 0} (n : Number A) where
  -- Closed, with every request in flight an old one; `loading` is as it was.
  record IsAbandoned (loading : Bool) (w : World A) : Type 0 where
    old : All (λ id. id < w.replay.load_id) w.pending
    inactive : w.replay.active ≡ false
    cleared : w.replay.vessels ≡ []
    as_left : w.replay.loading ≡ loading

  answer-IsAbandoned :
      (l : Bool) (w : World A) (i : ℕ) (f : ℕ → FleetReplay A → FleetReplay A)
      → ((id : ℕ) → id < w.replay.load_id → f id w.replay ≡ w.replay)
      → IsAbandoned l w
      → IsAbandoned l (record {
        replay = answer f (get_elem? w.pending i) w.replay;
        pending = remove_at i w.pending;
      })
  answer-IsAbandoned l w i f stale a =
      let e = answer_stale n w i f stale a.old in
      record {
        old = rw e (All-remove_at _ i w.pending a.old);
        inactive = rw e a.inactive;
        cleared = rw e a.cleared;
        as_left = rw e a.as_left;
      }

  step-IsAbandoned :
      (l : Bool) (w : World A) (e : Event A)
      → IsQuiet e
      → IsAbandoned l w
      → IsAbandoned l (step n w e)
  unfolding step exit toggle_play set_speed do_seek on_progress on_ended on_selected_pose
  step-IsAbandoned l w (enters win) q a = absurd q
  step-IsAbandoned l w exits q a = record {
    old = All-mono (λ id h. omega arith) w.pending a.old;
    inactive = refl;
    cleared = refl;
    as_left = a.as_left;
  }
  step-IsAbandoned l w (succeeds i res now) q a =
      answer-IsAbandoned l w i (λ id. loaded id res now)
        (λ id h. loaded_stale n id now res w.replay h) a
  step-IsAbandoned l w (fails i) q a =
      answer-IsAbandoned l w i failed (λ id h. failed_stale n id w.replay h) a
  step-IsAbandoned l w (toggles now) q a = record {
    old = rw (load_id-toggle_play n now w.replay) a.old;
    inactive = ground arith;
    cleared = ground arith;
    as_left = ground arith;
  }
  step-IsAbandoned l w _ q a = record {
    old = a.old;
    inactive = a.inactive;
    cleared = a.cleared;
    as_left = a.as_left;
  }

  run-IsAbandoned :
      (l : Bool) (w : World A) (es : List (Event A))
      → All IsQuiet es
      → IsAbandoned l w
      → IsAbandoned l (run n w es)
  unfolding run
  run-IsAbandoned l w [] q a = a
  run-IsAbandoned l w (e ∷ es) q a =
      run-IsAbandoned l (step n w e) es q.1 (step-IsAbandoned l w e q.0 a)

  exit-IsAbandoned : (w : World A) → IsIssued n w → IsAbandoned w.replay.loading (step n w exits)
  unfolding step exit
  exit-IsAbandoned w a = record {
    old = All-mono (λ id h. omega arith) w.pending a;
    inactive = refl;
    cleared = refl;
    as_left = refl;
  }

  -- Once the replay is closed it stays closed until it is opened again, whatever happened before
  -- and in whatever order the answers in flight still arrive: no vessel is kept and the map has no
  -- control.
  pub exit_is_final :
      (before after : List (Event A))
      → All IsQuiet after
      → let s = (run n (step n (run n (start n) before) exits) after).replay in
        (s.active ≡ false) × (s.vessels ≡ []) × (control s ≡ none)
  unfolding control
  exit_is_final before after q =
      let w = run n (start n) before in
      let a =
        run-IsAbandoned _ _ after q (exit-IsAbandoned w (run-IsIssued n (start n) before tt)) in
      (a.inactive, a.cleared, rw a.inactive)

  -- Closing the replay while a request is in flight leaves `loading` on, and no answer that arrives
  -- later takes the transport bar off the screen.
  pub exit_while_loading :
      (before after : List (Event A))
      → All IsQuiet after
      → (run n (start n) before).replay.loading ≡ true
      → let s = (run n (step n (run n (start n) before) exits) after).replay in
        (s.loading ≡ true) × (visible s ≡ true)
  unfolding visible
  exit_while_loading before after q h =
      let w = run n (start n) before in
      let a =
        run-IsAbandoned _ _ after q (exit-IsAbandoned w (run-IsIssued n (start n) before tt)) in
      let on = a.as_left ∙ h in (on, rw (a.inactive, on))
