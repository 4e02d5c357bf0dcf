-- ===== src/Meri/Trail/Shown.antt =====
-- The trail that is shown belongs to the vessel that is selected.
use fintraffic.Base.{
  ℕ, ◌≡◌, ◌≢◌, refl, Bool, true, false, List, [], ◌∷◌, Option, none, some, arith, All, if_cases,
  ◌==◌, ◌∙◌, ◌&&◌, sym, subst, if◌then◌else◌, ==_iff,
}
use fintraffic.Base.Number.{Number}
use fintraffic.Meri.Replay.Pose.{Fix}
use fintraffic.Meri.Trail.{
  Trail, Request, Event, renders, polls, answers, fails, steps, step, load, effect, settle, initial,
  shown, same, load_at,
}

-- What is known of the answers: those of a vessel have `P` of it.
module _ {A : Type 0} (P : ℕ → List (Fix A) → Type 0) where
  unfoldable pub IsGenuine : Event A → Type 0
  IsGenuine (answers r points) = P r.mmsi points
  IsGenuine _ = Unit

  unfoldable pub Belongs : Option ℕ → List (Fix A) → Type 0
  Belongs none points = points ≡ []
  Belongs (some m) points = P m points

module _ {A : Type 0} (n : Number A) where
  -- What the trail keeps when it only sends a request, or ignores an answer.
  abbrev IsKept : Trail A → Trail A → Type 0
  IsKept t u = (u.state ≡ t.state) × ((u.props ≡ t.props) × (u.run ≡ t.run))

  load_at-IsKept : (m : Option ℕ) (now : A) (t : Trail A) → IsKept t (load_at n m now t)
  load_at-IsKept none now t = (refl, (refl, refl))
  load_at-IsKept (some m) now t = (refl, (refl, refl))

  load-IsKept : (now : A) (t : Trail A) → IsKept t (load n now t)
  unfolding load
  load-IsKept now t =
      if_cases (IsKept t) _ (λ e. (refl, (refl, refl))) (λ e. load_at-IsKept t.props.mmsi now t)

  module _ (P : ℕ → List (Fix A) → Type 0) (empty : (m : ℕ) → P m []) where
    Fits : Trail A → Type 0
    Fits t = Belongs P t.state.mmsi t.state.points

    same_state : (t u : Trail A) → u.state ≡ t.state → Fits t → Fits u
    unfolding Fits
    same_state t u e f = subst (λ s. Belongs P s.mmsi s.points) (sym e) f

    settle-Fits :
        (r : Request A) (points : List (Fix A)) (t : Trail A)
        → P r.mmsi points
        → Fits t
        → Fits (settle n r points t)
    unfolding Fits settle Belongs
    settle-Fits r points t h f = if_cases Fits (r.run == t.run) (λ e. h) (λ e. f)

    step-Fits : (t : Trail A) (e : Event A) → IsGenuine P e → Fits t → Fits (step n t e)
    unfolding step effect IsGenuine
    step-Fits t (renders props now) h f =
        same_state t (effect n props now t) (load-IsKept now _).0 f
    step-Fits t (polls now) h f = same_state t (load n now t) (load-IsKept now t).0 f
    step-Fits t (answers r points) h f = settle-Fits r points t h f
    step-Fits t (fails r) h f = settle-Fits r [] t (empty r.mmsi) f

    steps-Fits :
        (t : Trail A) (es : List (Event A)) → All (IsGenuine P) es → Fits t → Fits (steps n t es)
    unfolding steps
    steps-Fits t [] h f = f
    steps-Fits t (e ∷ es) h f = steps-Fits (step n t e) es h.1 (step-Fits t e h.0 f)

    -- The state is only looked at when its vessel is the selected one.
    pick :
        (b : Bool) (m s : Option ℕ) (points : List (Fix A))
        → Belongs P s points
        → Belongs P m (if b && same s m then points else [])
    unfolding Belongs
    pick false none s points f = refl
    pick false (some m) s points f = empty m
    pick true none none points f = f
    pick true none (some k) points f = refl
    pick true (some m) none points f = empty m
    pick true (some m) (some k) points f =
        if_cases (P m) (k == m) (λ e. subst (λ j. P j points) ((==_iff k m).0 e) f) (λ e. empty m)

    -- Let `P` hold of a vessel's answers and of the empty trail. After any renders, polls, answers
    -- and failures in any order, the trail that is shown has `P` of the vessel that is selected
    -- then, and is empty when none is.
    pub shown-Belongs :
        (window_sec : A) (es : List (Event A))
        → All (IsGenuine P) es
        → Belongs P
            ((steps n (initial n window_sec) es).props.mmsi)
            (shown (steps n (initial n window_sec) es))
    unfolding shown Fits Belongs initial
    shown-Belongs window_sec es h =
        let t : Trail A = steps n (initial n window_sec) es in
        pick t.props.enabled t.props.mmsi t.state.mmsi t.state.points
          (steps-Fits (initial n window_sec) es h refl)

  -- An event that cannot touch what the run of number `k` has shown: a poll, an answer to a run that
  -- was cancelled, or a failure of one.
  unfoldable pub IsStale : ℕ → Event A → Type 0
  IsStale k (renders props now) = ⊥
  IsStale k (polls now) = Unit
  IsStale k (answers r points) = r.run ≢ k
  IsStale k (fails r) = r.run ≢ k

  step-IsKept : (t : Trail A) (e : Event A) → IsStale t.run e → IsKept t (step n t e)
  unfolding step settle IsStale
  step-IsKept t (renders props now) h = absurd h
  step-IsKept t (polls now) h = load-IsKept now t
  step-IsKept t (answers r points) h =
      if_cases (IsKept t) (r.run == t.run) (λ e. absurd (h ((==_iff r.run t.run).0 e)))
        (λ e. (refl, (refl, refl)))
  step-IsKept t (fails r) h =
      if_cases (IsKept t) (r.run == t.run) (λ e. absurd (h ((==_iff r.run t.run).0 e)))
        (λ e. (refl, (refl, refl)))

  steps-IsKept :
      (t : Trail A) (es : List (Event A)) (k : ℕ)
      → t.run ≡ k
      → All (IsStale k) es
      → IsKept t (steps n t es)
  unfolding steps
  steps-IsKept t [] k e h = (refl, (refl, refl))
  steps-IsKept t (x ∷ es) k e h =
      let first : IsKept t (step n t x) = step-IsKept t x (subst (λ j. IsStale j x) (sym e) h.0) in
      let rest = steps-IsKept (step n t x) es k (first.1.1 ∙ e) h.1 in
      (rest.0 ∙ first.0, (rest.1.0 ∙ first.1.0, rest.1.1 ∙ first.1.1))

  -- Once an answer to the newest run of the effect, for the vessel that is selected with the trail
  -- on, has arrived, the trail shown is that answer, whatever polls and whatever answers and
  -- failures of cancelled runs come later.
  pub newest_answer_stays :
      (t : Trail A) (r : Request A) (points : List (Fix A)) (es : List (Event A))
      → r.run ≡ t.run
      → t.props.enabled ≡ true
      → t.props.mmsi ≡ some r.mmsi
      → All (IsStale t.run) es
      → shown (steps n t (answers r points ∷ es)) ≡ points
  unfolding steps step settle shown
  newest_answer_stays t r points es same_run on selected h =
      let u : Trail A = record t { state = record { mmsi = some r.mmsi; points = points } } in
      let kept : IsKept u (steps n u es) = steps-IsKept u es t.run refl h in
      if_cases (λ (w : Trail A). shown (steps n w es) ≡ points) (r.run == t.run)
        (λ e. ground (arith, kept, on, selected)) (λ e. absurd (ground arith))
