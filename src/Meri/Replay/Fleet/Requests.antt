-- ===== src/Meri/Replay/Fleet/Requests.antt =====
-- The fleet replay with its requests in flight: answers may arrive in any order, or never.
use fintraffic.Base.{
  ℕ, ◌+◌, ◌≤◌, ◌<◌, ◌≡◌, refl, List, [], ◌∷◌, Option, none, some, arith, All, All-remove_at,
  All-get_elem?, All-mono, remove_at, get_elem?, Option-cases, inl, inr,
}
use fintraffic.Base.Number.{Number}
use fintraffic.Meri.Replay.Fleet.{
  FleetReplay, FleetReplayResponse, SelectedPose, enter, loaded, failed, exit, toggle_play,
  set_speed, do_seek, on_progress, on_ended, on_selected_pose, initial,
}

-- The state and the identifiers of the requests in flight, the newest first.
pub record World (A : Type 0) : Type 0 where
  pub replay : FleetReplay A
  pub pending : List ℕ

pub data Event (A : Type 0) : Type 0 where
  -- `enter` and `setWindow`.
  enters : A → Event A
  exits : Event A
  -- The answer to the request at a place of the list of those in flight.
  succeeds : ℕ → FleetReplayResponse A → ℕ → Event A
  fails : ℕ → Event A
  toggles : ℕ → Event A
  speeds : A → Event A
  seeks : A → ℕ → Event A
  progresses : A → Event A
  ends : Event A
  poses : Option (SelectedPose A) → Event A

-- An answer to a request that is not in flight does not happen.
abbrev pub answer {ℓ} : {S : Type ℓ} → (ℕ → S → S) → Option ℕ → S → S
answer f none s = s
answer f (some id) s = f id s

-- Whether an event sends no request.
abbrev pub IsQuiet : {A : Type 0} → Event A → Type 0
IsQuiet (enters win) = ⊥
IsQuiet _ = Unit

module _ {A : Type 0} (n : Number A) where
  unfoldable pub step : World A → Event A → World A
  step w (enters win) = record {
    replay = enter win w.replay;
    pending = (w.replay.load_id + 1) ∷ w.pending;
  }
  step w exits = record w { replay = exit w.replay }
  step w (succeeds i res now) = record {
    replay = answer (λ id. loaded id res now) (get_elem? w.pending i) w.replay;
    pending = remove_at i w.pending;
  }
  step w (fails i) = record {
    replay = answer failed (get_elem? w.pending i) w.replay;
    pending = remove_at i w.pending;
  }
  step w (toggles now) = record w { replay = toggle_play n now w.replay }
  step w (speeds speed) = record w { replay = set_speed speed w.replay }
  step w (seeks ts now) = record w { replay = do_seek ts now w.replay }
  step w (progresses ts) = record w { replay = on_progress ts w.replay }
  step w ends = record w { replay = on_ended w.replay }
  step w (poses pose) = record w { replay = on_selected_pose pose w.replay }

  unfoldable pub run : World A → List (Event A) → World A
  run w [] = w
  run w (e ∷ es) = run (step w e) es

  abbrev pub start : World A
  start = record { replay = initial n; pending = [] }

  abbrev pub IsIssued : World A → Type 0
  IsIssued w = All (λ id. id ≤ w.replay.load_id) w.pending

  pub loaded_stale :
      (id now : ℕ) (res : FleetReplayResponse A) (s : FleetReplay A)
      → id < s.load_id
      → loaded id res now s ≡ s
  unfolding loaded
  loaded_stale id now res s h = ground arith

  pub failed_stale : (id : ℕ) (s : FleetReplay A) → id < s.load_id → failed id s ≡ s
  unfolding failed
  failed_stale id s h = ground arith

  -- Where every request in flight is an old one, no answer changes the state.
  pub answer_stale :
      (w : World A) (i : ℕ) (f : ℕ → FleetReplay A → FleetReplay A)
      → ((id : ℕ) → id < w.replay.load_id → f id w.replay ≡ w.replay)
      → All (λ id. id < w.replay.load_id) w.pending
      → answer f (get_elem? w.pending i) w.replay ≡ w.replay
  answer_stale w i f stale h = elim (Option-cases (get_elem? w.pending i)) [
    | inl e ↦ rw e
    | inr (id, e) ↦ rw e (stale id (All-get_elem? _ w.pending i id h e))
  ]

  pub load_id-toggle_play :
      (now : ℕ) (s : FleetReplay A) → (toggle_play n now s).load_id ≡ s.load_id
  unfolding toggle_play
  load_id-toggle_play now s = ground arith

  answer-load_id :
      (w : World A) (o : Option ℕ) (f : ℕ → FleetReplay A → FleetReplay A)
      → ((id : ℕ) → (f id w.replay).load_id ≡ w.replay.load_id)
      → (answer f o w.replay).load_id ≡ w.replay.load_id
  answer-load_id w none f same = refl
  answer-load_id w (some id) f same = same id

  step-IsIssued : (w : World A) (e : Event A) → IsIssued w → IsIssued (step w e)
  unfolding step enter exit loaded failed toggle_play set_speed do_seek on_progress on_ended
      on_selected_pose
  step-IsIssued w (enters win) a = (omega arith, All-mono (λ id h. omega arith) w.pending a)
  step-IsIssued w exits a = All-mono (λ id h. omega arith) w.pending a
  step-IsIssued w (succeeds i res now) a =
      rw (answer-load_id w (get_elem? w.pending i) (λ id. loaded id res now) (λ id. ground arith))
        (All-remove_at _ i w.pending a)
  step-IsIssued w (fails i) a =
      rw (answer-load_id w (get_elem? w.pending i) failed (λ id. ground arith))
        (All-remove_at _ i w.pending a)
  step-IsIssued w (toggles now) a = rw (load_id-toggle_play now w.replay) a
  step-IsIssued w _ a = a

  pub run-IsIssued : (w : World A) (es : List (Event A)) → IsIssued w → IsIssued (run w es)
  unfolding run
  run-IsIssued w [] a = a
  run-IsIssued w (e ∷ es) a = run-IsIssued (step w e) es (step-IsIssued w e a)
