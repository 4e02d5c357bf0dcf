-- ===== src/Meri/App/Link.antt =====
-- The flight to the vessel of a shared link.
use fintraffic.Base.{
  ℕ, ◌≡◌, refl, Bool, true, false, not, ◌&&◌, List, [], ◌∷◌, Option, none, some, arith, if_cases,
  is_some,
}
use fintraffic.Base.Dict.{Dict, lookup}
use fintraffic.Base.Number.{Number}
use fintraffic.Meri.Stream.{Vessel}
use fintraffic.Meri.App.{
  App, Event, selects_vessel, selects_port, selects_webcam, clicks_background, clears_filters,
  closes_vessel, closes_port, closes_webcam, enters_replay, toggles_category, toggles_filter,
  toggles_detail, opens_page, closes_page, renders, step, run, made_if, on_selection_made,
  handle_select_vessel, handle_select_port, handle_select_webcam, handle_background_click,
  handle_clear_filters, handle_close_vessel, handle_close_port, handle_close_webcam,
  handle_enter_replay, handle_toggle_category, settle_link, settle_at, settle_link_at, same,
}

module _ {A : Type 0} where
  abbrev IsUntouched : App A → App A → Type 0
  IsUntouched s t = (t.pending_link ≡ s.pending_link) × (t.focus_target ≡ s.focus_target)

  made-IsUntouched : (mobile : Bool) (s : App A) → IsUntouched s (on_selection_made mobile s)
  unfolding on_selection_made
  made-IsUntouched true s = (refl, refl)
  made-IsUntouched false s = (refl, refl)

  made_if-IsUntouched : (mobile chosen : Bool) (s : App A) → IsUntouched s (made_if mobile chosen s)
  made_if-IsUntouched mobile true s = made-IsUntouched mobile s
  made_if-IsUntouched mobile false s = (refl, refl)

module _ {A : Type 0} (n : Number A) where
  -- A flight was made, or none is pending: then nothing moves the target any more.
  no_link-render :
      (p : Option ℕ) (vessels : Dict (Vessel A)) (s : App A)
      → s.pending_link ≡ p
      → s.pending_link ≡ none
      → IsUntouched s (settle_link_at n p vessels s)
  no_link-render none vessels s e h = (refl, refl)
  no_link-render (some p) vessels s e h = absurd (ground arith)

  step-IsUntouched : (s : App A) (e : Event A) → s.pending_link ≡ none → IsUntouched s (step n s e)
  unfolding step handle_select_vessel handle_select_port handle_select_webcam
      handle_background_click handle_clear_filters handle_close_vessel handle_close_port
      handle_close_webcam handle_enter_replay handle_toggle_category settle_link
  step-IsUntouched s (selects_vessel mobile m) h =
      made_if-IsUntouched mobile (is_some m)
        (record s { selected_port = none; selected_webcam = none; selected_mmsi = m })
  step-IsUntouched s (selects_port mobile p) h =
      made-IsUntouched mobile
        (record s { selected_mmsi = none; selected_webcam = none; selected_port = some p })
  step-IsUntouched s (selects_webcam mobile w) h =
      made-IsUntouched mobile
        (record s { selected_mmsi = none; selected_port = none; selected_webcam = some w })
  step-IsUntouched s clicks_background h = (refl, refl)
  step-IsUntouched s clears_filters h = (refl, refl)
  step-IsUntouched s closes_vessel h = (refl, refl)
  step-IsUntouched s closes_port h = (refl, refl)
  step-IsUntouched s closes_webcam h = (refl, refl)
  step-IsUntouched s enters_replay h = (refl, refl)
  step-IsUntouched s (toggles_category c) h = (refl, refl)
  step-IsUntouched s toggles_filter h = (refl, refl)
  step-IsUntouched s toggles_detail h = (refl, refl)
  step-IsUntouched s opens_page h = (refl, refl)
  step-IsUntouched s closes_page h = (refl, refl)
  step-IsUntouched s (renders vessels) h = no_link-render s.pending_link vessels s refl h

  run-IsUntouched :
      (s : App A) (es : List (Event A)) → s.pending_link ≡ none → IsUntouched s (run n s es)
  unfolding run
  run-IsUntouched s [] h = (refl, refl)
  run-IsUntouched s (e ∷ es) h =
      ground (arith, step-IsUntouched s e h, run-IsUntouched (step n s e) es)

  abbrev flown : Vessel A → App A → App A
  flown linked s = record s {
    focus_target = some (record { lng = linked.lng; lat = linked.lat });
    pending_link = none;
  }

  settle_at-flown :
      (linked : Vessel A) (s : App A) (o : Option (Vessel A))
      → o ≡ some linked
      → n.is_finite linked.lat ≡ true
      → n.is_finite linked.lng ≡ true
      → settle_at n o s ≡ flown linked s
  settle_at-flown linked s none e f g = absurd (ground arith)
  settle_at-flown linked s (some v) e f g =
      let same_vessel : v ≡ linked = cc in
      rw same_vessel (
        if_cases (λ (t : App A). t ≡ flown linked s)
          (n.is_finite linked.lat && n.is_finite linked.lng) (λ h. refl)
          (λ h. absurd (ground (arith, f, g))))

  settle_link_at-flown :
      (linked : Vessel A) (s : App A) (m : ℕ) (p : Option ℕ) (vessels : Dict (Vessel A))
      → p ≡ some m
      → s.selected_mmsi ≡ some m
      → lookup m vessels ≡ some linked
      → n.is_finite linked.lat ≡ true
      → n.is_finite linked.lng ≡ true
      → settle_link_at n p vessels s ≡ flown linked s
  settle_link_at-flown linked s m none vessels e chosen known f g = absurd (ground arith)
  settle_link_at-flown linked s m (some p) vessels e chosen known f g =
      if_cases (λ (t : App A). t ≡ flown linked s) (not (same s.selected_mmsi p))
        (λ h. absurd (ground (arith, chosen)))
        (λ h. settle_at-flown linked s (lookup p vessels) (ground (arith, known)) f g)

  -- While the linked vessel is selected and pending, the first render whose fleet has it at a finite
  -- position aims the map there; whatever happens afterwards, the map's target stays that position.
  pub flies_once :
      (s : App A) (m : ℕ) (linked : Vessel A) (vessels : Dict (Vessel A)) (es : List (Event A))
      → s.pending_link ≡ some m
      → s.selected_mmsi ≡ some m
      → lookup m vessels ≡ some linked
      → n.is_finite linked.lat ≡ true
      → n.is_finite linked.lng ≡ true
      → (run n (step n s (renders vessels)) es).focus_target
        ≡ some (record { lng = linked.lng; lat = linked.lat })
  unfolding step settle_link
  flies_once s m linked vessels es pending chosen known f g =
      let e = settle_link_at-flown linked s m s.pending_link vessels pending chosen known f g in
      rw e ((run-IsUntouched (flown linked s) es refl).1)
