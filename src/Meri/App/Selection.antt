-- ===== src/Meri/App/Selection.antt =====
-- What is selected, whatever the user does.
use fintraffic.Base.{
  ℕ, ◌≤◌, ◌+◌, ◌≡◌, refl, Bool, true, false, List, [], ◌∷◌, Option, none, some, arith, is_some,
  if_cases, not, ◌&&◌,
}
use fintraffic.Base.Dict.{Dict, lookup}
use fintraffic.Base.Number.{Number}
use fintraffic.Meri.Stream.{Vessel}
use fintraffic.Meri.Replay.Fleet.{FleetReplay}
use fintraffic.Meri.App.{
  App, Event, selects_vessel, selects_port, selects_webcam, clicks_background, clears_filters,
  closes_vessel, closes_port, closes_webcam, enters_replay, toggles_category, toggles_filter,
  toggles_detail, opens_page, closes_page, renders, step, run, opened, made_if, on_selection_made,
  handle_select_vessel, handle_select_port, handle_select_webcam, handle_background_click,
  handle_clear_filters, handle_close_vessel, handle_close_port, handle_close_webcam,
  handle_enter_replay, handle_toggle_category, settle_link, settle_at, settle_link_at, same,
}

abbrev pub one : {A : Type 0} → Option A → ℕ
one none = 0
one (some a) = 1

module _ {A : Type 0} where
  -- How many things are selected.
  abbrev pub selected : App A → ℕ
  selected s = one s.selected_mmsi + (one s.selected_port + one s.selected_webcam)

  pub IsSame : App A → App A → Type 0
  IsSame s t =
      (t.selected_mmsi ≡ s.selected_mmsi)
      × ((t.selected_port ≡ s.selected_port) × (t.selected_webcam ≡ s.selected_webcam))

  made-IsSame : (mobile : Bool) (s : App A) → IsSame s (on_selection_made mobile s)
  unfolding IsSame on_selection_made
  made-IsSame true s = (refl, (refl, refl))
  made-IsSame false s = (refl, (refl, refl))

  made_if-IsSame : (mobile chosen : Bool) (s : App A) → IsSame s (made_if mobile chosen s)
  unfolding IsSame
  made_if-IsSame mobile true s = made-IsSame mobile s
  made_if-IsSame mobile false s = (refl, (refl, refl))

module _ {A : Type 0} (n : Number A) where
  settle_at-IsSame : (v : Option (Vessel A)) (s : App A) → IsSame s (settle_at n v s)
  unfolding IsSame
  settle_at-IsSame none s = (refl, (refl, refl))
  settle_at-IsSame (some v) s =
      if_cases (IsSame s) (n.is_finite v.lat && n.is_finite v.lng) (λ e. (refl, (refl, refl)))
        (λ e. (refl, (refl, refl)))

  settle_link_at-IsSame :
      (p : Option ℕ) (vessels : Dict (Vessel A)) (s : App A)
      → IsSame s (settle_link_at n p vessels s)
  unfolding IsSame
  settle_link_at-IsSame none vessels s = (refl, (refl, refl))
  settle_link_at-IsSame (some p) vessels s =
      if_cases (IsSame s) (not (same s.selected_mmsi p)) (λ e. (refl, (refl, refl)))
        (λ e. settle_at-IsSame (lookup p vessels) s)

  one_le : {B : Type 0} (o : Option B) → one o ≤ 1
  one_le none = omega arith
  one_le (some b) = omega arith

  step-selected : (s : App A) (e : Event A) → selected s ≤ 1 → selected (step n s e) ≤ 1
  unfolding step handle_select_vessel handle_select_port handle_select_webcam
      handle_background_click handle_clear_filters handle_close_vessel handle_close_port
      handle_close_webcam handle_enter_replay handle_toggle_category settle_link IsSame
  step-selected s (selects_vessel mobile m) h = ground (
    arith,
    one_le m,
    made_if-IsSame mobile (is_some m)
        (record s { selected_port = none; selected_webcam = none; selected_mmsi = m }),
  )
  step-selected s (selects_port mobile p) h = ground (
    arith,
    made-IsSame mobile
        (record s { selected_mmsi = none; selected_webcam = none; selected_port = some p }),
  )
  step-selected s (selects_webcam mobile w) h = ground (
    arith,
    made-IsSame mobile
        (record s { selected_mmsi = none; selected_port = none; selected_webcam = some w }),
  )
  step-selected s clicks_background h = omega arith
  step-selected s clears_filters h = h
  step-selected s closes_vessel h = omega (arith, h)
  step-selected s closes_port h = omega (arith, h)
  step-selected s closes_webcam h = omega (arith, h)
  step-selected s enters_replay h = omega (arith, h)
  step-selected s (toggles_category c) h = h
  step-selected s toggles_filter h = h
  step-selected s toggles_detail h = h
  step-selected s opens_page h = h
  step-selected s closes_page h = h
  step-selected s (renders vessels) h =
      ground (arith, h, settle_link_at-IsSame s.pending_link vessels s)

  run-selected_le : (s : App A) (es : List (Event A)) → selected s ≤ 1 → selected (run n s es) ≤ 1
  unfolding run
  run-selected_le s [] h = h
  run-selected_le s (e ∷ es) h = run-selected_le (step n s e) es (step-selected s e h)

  -- However the page was opened, with a linked vessel or without, and whatever the user clicks and
  -- the page renders since, at most one of vessel, port and webcam is selected.
  pub run-opened-selected_le :
      (linked : Option ℕ) (mobile : Bool) (replay : FleetReplay A) (es : List (Event A))
      → selected (run n (opened linked mobile replay) es) ≤ 1
  unfolding opened
  run-opened-selected_le linked mobile replay es =
      run-selected_le (opened linked mobile replay) es (omega (arith, one_le linked))
