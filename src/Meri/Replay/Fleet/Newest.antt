-- ===== src/Meri/Replay/Fleet/Newest.antt =====
-- The answer to the newest request wins, in whatever order answers arrive.
use fintraffic.Base.{
  ℕ, suc, ◌<◌, ◌≡◌, refl, true, false, List, [], ◌∷◌, ◌++◌, arith, All, All-remove_at, All-mono,
  remove_at,
}
use fintraffic.Base.Number.{Number}
use fintraffic.Meri.Replay.Fleet.{FleetReplay, FleetReplayResponse, enter, loaded, failed}
use fintraffic.Meri.Replay.Fleet.Requests.{
  World, Event, enters, succeeds, fails, step, run, start, IsIssued, loaded_stale, failed_stale,
  answer_stale, run-IsIssued,
}

-- An answer, and an answer to a request that is not the newest one in flight.
abbrev pub IsAnswer : {A : Type 0} → Event A → Type 0
IsAnswer (succeeds i res now) = Unit
IsAnswer (fails i) = Unit
IsAnswer _ = ⊥

abbrev pub IsOlder : {A : Type 0} → Event A → Type 0
IsOlder (succeeds (suc i) res now) = Unit
IsOlder (fails (suc i)) = Unit
IsOlder _ = ⊥

module _ {A : Type 0} (n : Number A) where
  run-append : (w : World A) (es fs : List (Event A)) → run n w (es ++ fs) ≡ run n (run n w es) fs
  unfolding run
  run-append w [] fs = refl
  run-append w (e ∷ es) fs = run-append (step n w e) es fs

  abbrev AreOld : FleetReplay A → List ℕ → Type 0
  AreOld s = All (λ id. id < s.load_id)

  abbrev world : FleetReplay A → List ℕ → World A
  world s ids = record { replay = s; pending = ids }

  answer_old :
      (s : FleetReplay A) (ids : List ℕ) (e : Event A)
      → AreOld s ids
      → IsAnswer e
      → (i : ℕ) × (step n (world s ids) e ≡ world s (remove_at i ids))
  unfolding step
  answer_old s ids (succeeds i res now) a q = (
    i,
    rw (
        answer_stale n (world s ids) i (λ id. loaded id res now)
          (λ id h. loaded_stale n id now res s h) a),
  )
  answer_old s ids (fails i) a q =
      (i, rw (answer_stale n (world s ids) i failed (λ id h. failed_stale n id s h) a))
  answer_old s ids _ a q = absurd q

  run_old :
      (s : FleetReplay A) (ids : List ℕ) (es : List (Event A))
      → AreOld s ids
      → All IsAnswer es
      → (run n (world s ids) es).replay ≡ s
  unfolding run
  run_old s ids [] a q = refl
  run_old s ids (e ∷ es) a q =
      let found = answer_old s ids e a q.0 in
      rw (found.1, run) (run_old s (remove_at found.0 ids) es (All-remove_at _ found.0 ids a) q.1)

  answer_older :
      (s : FleetReplay A) (ids : List ℕ) (e : Event A)
      → AreOld s ids
      → IsOlder e
      → (i : ℕ) × (step n (world s (s.load_id ∷ ids)) e ≡ world s (s.load_id ∷ remove_at i ids))
  unfolding step
  answer_older s ids (succeeds (suc i) res now) a q = (
    i,
    rw (
        answer_stale n (world s ids) i (λ id. loaded id res now)
          (λ id h. loaded_stale n id now res s h) a),
  )
  answer_older s ids (fails (suc i)) a q =
      (i, rw (answer_stale n (world s ids) i failed (λ id h. failed_stale n id s h) a))
  answer_older s ids _ a q = absurd q

  run_older :
      (s : FleetReplay A) (ids : List ℕ) (es : List (Event A))
      → AreOld s ids
      → All IsOlder es
      → (ids' : List ℕ) × AreOld s ids'
        × (run n (world s (s.load_id ∷ ids)) es ≡ world s (s.load_id ∷ ids'))
  unfolding run
  run_older s ids [] a q = (ids, a, refl)
  run_older s ids (e ∷ es) a q =
      let found = answer_older s ids e a q.0 in
      let later = run_older s (remove_at found.0 ids) es (All-remove_at _ found.0 ids a) q.1 in
      (later.0, later.1, rw found.1 later.2)

  step_newest :
      (s : FleetReplay A) (ids : List ℕ) (res : FleetReplayResponse A) (now : ℕ)
      → step n (world s (s.load_id ∷ ids)) (succeeds 0 res now)
        ≡ world (loaded s.load_id res now s) ids
  unfolding step
  step_newest s ids res now = refl

  load_id-loaded :
      (id now : ℕ) (res : FleetReplayResponse A) (s : FleetReplay A)
      → (loaded id res now s).load_id ≡ s.load_id
  unfolding loaded
  load_id-loaded id now res s = ground arith

  fields-loaded :
      (res : FleetReplayResponse A) (now : ℕ) (win : A) (s : FleetReplay A)
      → let asked = enter win s in
        let s' = loaded asked.load_id res now asked in
        (s'.active ≡ true)
        × (s'.vessels ≡ res.vessels)
        × (s'.from ≡ res.from)
        × (s'.to ≡ res.to)
        × (s'.playhead ≡ res.from)
        × (s'.playing ≡ true)
        × (s'.loading ≡ false)
        × (s'.window_sec ≡ win)
  unfolding loaded enter
  fields-loaded res now win s = ground arith

  -- The state after the answers is the one that the newest answer gives.
  run_newest :
      (s : FleetReplay A) (ids : List ℕ) (older later : List (Event A))
      (res : FleetReplayResponse A) (now : ℕ)
      → AreOld s ids
      → All IsOlder older
      → All IsAnswer later
      → (run n (world s (s.load_id ∷ ids)) (older ++ succeeds 0 res now ∷ later)).replay
        ≡ loaded s.load_id res now s
  run_newest s ids older later res now a p q =
      let found = run_older s ids older a p in
      rw (run-append (world s (s.load_id ∷ ids)) older (succeeds 0 res now ∷ later), found.2)
        (unfold run in
          rw (step_newest s found.0 res now, run)
            (run_old (loaded s.load_id res now s) found.0 later
              (rw (load_id-loaded s.load_id now res s) found.1) q))

  step_enters :
      (w : World A) (win : A)
      → step n w (enters win)
        ≡ world (enter win w.replay) ((enter win w.replay).load_id ∷ w.pending)
  unfolding step enter
  step_enters w win = refl

  issued_old : (w : World A) (win : A) → IsIssued n w → AreOld (enter win w.replay) w.pending
  unfolding enter
  issued_old w win a = All-mono (λ id h. omega arith) w.pending a

  -- Whatever happened before a request is sent, and whatever answers to other requests arrive before
  -- or after its own, the replay ends up showing the answer to the newest request, from its start.
  pub newest_answer_wins :
      (before older later : List (Event A)) (win : A) (res : FleetReplayResponse A) (now : ℕ)
      → All IsOlder older
      → All IsAnswer later
      → let asked = step n (run n (start n) before) (enters win) in
        let s = (run n asked (older ++ succeeds 0 res now ∷ later)).replay in
        (s.active ≡ true)
        × (s.vessels ≡ res.vessels)
        × (s.from ≡ res.from)
        × (s.to ≡ res.to)
        × (s.playhead ≡ res.from)
        × (s.playing ≡ true)
        × (s.loading ≡ false)
        × (s.window_sec ≡ win)
  newest_answer_wins before older later win res now p q =
      let w = run n (start n) before in
      rw
        (
          step_enters w win,
          run_newest (enter win w.replay) w.pending older later res now
              (issued_old w win (run-IsIssued n (start n) before tt)) p q,
        )
        (fields-loaded res now win w.replay)
