-- ===== src/Raide/Selection/Boards.antt =====
-- The board that is shown is the selected station's.
use fintraffic.Base.{
  ℕ, suc, ◌≤◌, ◌≡◌, refl, Bool, true, false, List, [], ◌∷◌, Option, none, some, String, arith, ◌==◌,
  if_cases, get_elem?, All, All-mono, All-get_elem?, ==_iff, sym, ap, subst, ◌∙◌,
}
use fintraffic.Raide.Trains.{Board}
use fintraffic.Raide.Selection.{
  Raide, StationMeta, Request, Event, selects_train, selects_station, clears, polls, answers,
  same_ref, load_for, effect, reveal_detail, select_train, select_station, clear_selection,
  with_answer, answered, step, run_all, initial,
}

same_ref_eq : (a b : Option ℕ) → same_ref a b ≡ true → a ≡ b
same_ref_eq none none e = refl
same_ref_eq none (some b) e = absurd (ground (arith, e))
same_ref_eq (some a) none e = absurd (ground (arith, e))
same_ref_eq (some a) (some b) e = ap some ((==_iff a b).0 e)

module _ {A : Type 0} (object : ℕ → StationMeta A) (serve : String → ℕ → Option (Board A)) where
  -- The board, if there is one, is an answer of the server for the selected station.
  unfoldable pub IsShownFor : Option ℕ → Option (Board A) → Type 0
  IsShownFor chosen none = Unit
  IsShownFor none (some b) = ⊥
  IsShownFor (some c) (some b) = (time : ℕ) × (serve (object c).code time ≡ some b)

  -- Of the current run, for the station that is selected.
  IsFor : Option ℕ → ℕ → Request → Type 0
  IsFor chosen run r =
      (r.run ≤ run) × (r.run ≡ run → (c : ℕ) × ((chosen ≡ some c) × ((object c).code ≡ r.code)))

  IsBoarded : Raide A → Type 0
  IsBoarded s =
      IsShownFor s.selected_station s.board × All (IsFor s.selected_station s.run) s.requests

  old_run :
      (chosen after : Option ℕ) (run : ℕ) (r : Request)
      → IsFor chosen run r
      → IsFor after (suc run) r
  unfolding IsFor
  old_run chosen after run r h = (omega (arith, h.0), λ e. absurd (omega (arith, h.0, e)))

  load_for-IsBoarded :
      (chosen : Option ℕ) (s : Raide A)
      → s.selected_station ≡ chosen
      → IsBoarded s
      → IsBoarded (load_for object chosen s)
  unfolding IsBoarded IsFor
  load_for-IsBoarded none s e h = h
  load_for-IsBoarded (some c) s e h = (h.0, ((omega arith, λ f. (c, (e, refl))), h.1))

  -- Without a board, and with requests for the station that was selected before.
  effect-IsBoarded :
      (before : Option ℕ) (s : Raide A)
      → All (IsFor before s.run) s.requests
      → IsShownFor s.selected_station s.board
      → IsBoarded (effect object before s)
  unfolding effect IsBoarded
  effect-IsBoarded before s old shown =
      if_cases IsBoarded (same_ref before s.selected_station)
        (λ e. (
          shown,
          subst (λ c. All (IsFor c s.run) s.requests) (same_ref_eq before s.selected_station e) old,
        ))
        (λ e.
          load_for-IsBoarded s.selected_station (record s { run = suc s.run }) refl
            (shown, All-mono (old_run before s.selected_station s.run) s.requests old))

  no_board : (chosen : Option ℕ) (b : Option (Board A)) → b ≡ none → IsShownFor chosen b
  unfolding IsShownFor
  no_board chosen none e = tt
  no_board chosen (some b) e = absurd (ground (arith, e))

  -- The callbacks that change the selection drop the board.
  reveal-IsBoarded :
      (mobile : Bool) (before : Option ℕ) (s : Raide A)
      → s.board ≡ none
      → All (IsFor before s.run) s.requests
      → IsBoarded (effect object before (reveal_detail mobile s))
  unfolding reveal_detail
  reveal-IsBoarded true before s e old =
      effect-IsBoarded before (record s { is_detail_collapsed = false; is_filter_collapsed = true })
        old (no_board s.selected_station s.board e)
  reveal-IsBoarded false before s e old =
      effect-IsBoarded before (record s { is_detail_collapsed = false }) old
        (no_board s.selected_station s.board e)

  answer-IsBoarded :
      (r : Request) (time : ℕ) (o : Option (Board A)) (s : Raide A)
      → serve r.code time ≡ o
      → r.run ≡ s.run
      → IsFor s.selected_station s.run r
      → IsBoarded s
      → IsBoarded (with_answer object serve o s)
  unfolding IsBoarded IsFor IsShownFor
  answer-IsBoarded r time none s e same sent h = h
  answer-IsBoarded r time (some b) s e same sent h =
      let found = sent.1 same in
      (
        subst (λ c. IsShownFor c (some b)) (sym found.1.0)
            (time, ap (λ code. serve code time) found.1.1 ∙ e),
        h.1,
      )

  answered-IsBoarded :
      (o : Option Request) (i time : ℕ) (s : Raide A)
      → get_elem? s.requests i ≡ o
      → IsBoarded s
      → IsBoarded (answered object serve o time s)
  unfolding IsBoarded
  answered-IsBoarded none i time s e h = h
  answered-IsBoarded (some r) i time s e h =
      if_cases IsBoarded (r.run == s.run)
        (λ f.
          answer-IsBoarded r time (serve r.code time) s refl ((==_iff r.run s.run).0 f)
            (All-get_elem? (IsFor s.selected_station s.run) s.requests i r h.1 e) h)
        (λ f. h)

  step-IsBoarded : (s : Raide A) (e : Event A) → IsBoarded s → IsBoarded (step object serve s e)
  unfolding step IsBoarded select_train select_station clear_selection
  step-IsBoarded s (selects_train mobile train) h =
      reveal-IsBoarded mobile s.selected_station
        (record s { selected_station = none; board = none; selected_train = some train }) refl h.1
  step-IsBoarded s (selects_station mobile c) h =
      reveal-IsBoarded mobile s.selected_station
        (record s { selected_train = none; board = none; selected_station = some c }) refl h.1
  step-IsBoarded s clears h =
      effect-IsBoarded s.selected_station
        (record s { selected_train = none; selected_station = none; board = none }) h.1
        (no_board none none refl)
  step-IsBoarded s polls h = load_for-IsBoarded s.selected_station s refl h
  step-IsBoarded s (answers i time) h = answered-IsBoarded (get_elem? s.requests i) i time s refl h

  steps-IsBoarded :
      (s : Raide A) (es : List (Event A)) → IsBoarded s → IsBoarded (run_all object serve s es)
  unfolding run_all
  steps-IsBoarded s [] h = h
  steps-IsBoarded s (e ∷ es) h = steps-IsBoarded (step object serve s e) es (step-IsBoarded s e h)

  -- After any selections, polls and answers, in any order, a departure board that is shown is an
  -- answer of the server for the code of the station that is selected then; with no station
  -- selected there is no board.
  pub run_all-IsShownFor :
      (mobile : Bool) (es : List (Event A))
      → IsShownFor
          (run_all object serve (initial mobile) es).selected_station
          (run_all object serve (initial mobile) es).board
  unfolding initial IsBoarded IsShownFor
  run_all-IsShownFor mobile es = (steps-IsBoarded (initial mobile) es (tt, tt)).0
